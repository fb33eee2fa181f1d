-- ===== src/Runtime/Dedup/Window.antt =====
-- The window against the history of the numbers that were observed.
use uav.Base.{
  ℕ, ◌+◌, ◌<◌, ◌≡◌, refl, ltb, leb, Bool, true, false, ◌||◌, ◌&&◌, List, [], ◌∷◌, arith, add32,
  sub32, u32,
}
use uav.Runtime.Dedup.{Stream, contains, evict, new_stream, observe}

-- The stream after a history, newest first.
unfoldable pub after : List ℕ → Stream
after [] = new_stream
after (s ∷ history) = (observe (after history) s).1

-- Some observed number lies at least the window's size above s.
abbrev pub passed : ℕ → List ℕ → Bool
passed s [] = false
passed s (t ∷ ts) = leb (s + 256) t || passed s ts

abbrev pub Words : List ℕ → Type 0
Words [] = Unit {0}
Words (s ∷ history) = (s < u32) × Words history

contains-evict :
    (s cutoff : ℕ) (ts : List ℕ) → contains s (evict cutoff ts) ≡ (contains s ts && leb cutoff s)
unfolding evict
contains-evict s cutoff [] = refl
contains-evict s cutoff (t ∷ ts) = ground (arith, contains-evict s cutoff ts)

-- What the window and the mark say of one number, once the stream has started.
pub record Tracks (history : List ℕ) (d : Stream) (s : ℕ) : Type 0 where
  pub kept : contains s d.window ≡ (contains s history && ltb d.highest (s + 256))
  pub mark : passed s history ≡ leb (s + 256) d.highest

first-Tracks : (r s : ℕ) → Tracks (r ∷ []) (observe new_stream r).1 s
unfolding observe
first-Tracks r s = ground arith

module _ (history : List ℕ) (d : Stream) (r s : ℕ) (started : d.inited ≡ true) (word : r < u32)
    (top : d.highest < u32) (at_r : Tracks history d r) (at_s : Tracks history d s) where
  observe-Tracks : Tracks (r ∷ history) (observe d r).1 s
  unfolding observe
  observe-Tracks = record {
    kept = ground (
      arith,
      contains-evict s (add32 (sub32 r 256) 1) d.window,
      contains-evict r (add32 (sub32 r 256) 1) d.window,
    );
    mark = ground arith;
  }

  observe-inited : (observe d r).1.inited ≡ true
  unfolding observe
  observe-inited = ground arith

  observe-top : (observe d r).1.highest < u32
  unfolding observe
  observe-top = ground arith

  observe-answer : (observe d r).0 ≡ contains r history || passed r history
  unfolding observe
  observe-answer = ground (arith, contains-evict r (add32 (sub32 r 256) 1) d.window)

module _ (r : ℕ) (history : List ℕ) where
  -- A stream that has started: its mark fits a word, and it tracks every number.
  pub record Started (d : Stream) : Type 0 where
    pub inited : d.inited ≡ true
    pub top : d.highest < u32
    pub tracks : (s : ℕ) → Tracks (r ∷ history) d s

after-Started :
    (r : ℕ) (history : List ℕ) → Words (r ∷ history) → Started r history (after (r ∷ history))
unfolding after
after-Started r [] w = record {
  inited = unfold observe in refl;
  top = unfold observe in w.0;
  tracks = λ s. first-Tracks r s;
}
after-Started r (t ∷ history) w =
    let before = after-Started t history w.1 in
    let d = after (t ∷ history) in
    record {
      inited =
          observe-inited (t ∷ history) d r r before.inited w.0 before.top (before.tracks r)
            (before.tracks r);
      top =
          observe-top (t ∷ history) d r r before.inited w.0 before.top (before.tracks r)
            (before.tracks r);
      tracks = λ s.
          observe-Tracks (t ∷ history) d r s before.inited w.0 before.top (before.tracks r)
            (before.tracks s);
    }

-- Whatever was observed before, a number is reported as a duplicate exactly if it was observed
-- before or if some observed number lies 256 or more above it.
pub observe-after :
    (history : List ℕ) (s : ℕ)
    → Words history
    → s < u32
    → (observe (after history) s).0 ≡ contains s history || passed s history
observe-after [] s w h = unfold observe after in refl
observe-after (r ∷ history) s w h =
    let before = after-Started r history w in
    observe-answer (r ∷ history) (after (r ∷ history)) s s before.inited h before.top
      (before.tracks s) (before.tracks s)

contains-head : (s : ℕ) (ts : List ℕ) → contains s (s ∷ ts) ≡ true
contains-head s ts = ground arith
