-- ===== src/Metrics/Ring/Window.antt =====
-- The ring holds the newest latencies.
use uav.Base.{
  Option, none, some, ℕ, zero, suc, ◌+◌, ◌-◌, ◌<◌, ◌≤◌, ◌≡◌, refl, sym, ap, ap₂, ◌∙◌, ◌==◌, ==_iff,
  leb, Bool, true, false, List, [], ◌∷◌, ◌++◌, inl, inr, Bool-cases, if◌then◌else◌, length, set,
  take, drop, replicate, min, arith, append-nil, append_assoc, length-append, length-set,
  length-take, length-drop, length-replicate, take-append_length, drop-append_length,
}
use uav.Metrics.Ring.{Ring, copy, new_ring, record_latency, latencies, reset_ring}

-- The last k entries.
abbrev pub newest {ℓ} : {A : Type ℓ} → ℕ → List A → List A
newest k xs = drop (length xs - k) xs

module _ {ℓ} {A : Type ℓ} where
  take-set :
      (xs : List A) (i : ℕ) (v : A)
      → i < length xs
      → take (suc i) (set xs i v) ≡ take i xs ++ v ∷ []
  take-set [] i v h = absurd (omega arith)
  take-set (x ∷ xs) zero v h = refl
  take-set (x ∷ xs) (suc i) v h = ap (◌∷◌ x) (take-set xs i v (omega arith))

  drop-set : (xs : List A) (i : ℕ) (v : A) → drop (suc i) (set xs i v) ≡ drop (suc i) xs
  drop-set [] i v = refl
  drop-set (x ∷ xs) zero v = refl
  drop-set (x ∷ xs) (suc i) v = drop-set xs i v

  drop-drop_one :
      (xs ys : List A) (i : ℕ) → i < length xs → drop 1 (drop i xs ++ ys) ≡ drop (suc i) xs ++ ys
  drop-drop_one [] ys i h = absurd (omega arith)
  drop-drop_one (x ∷ xs) ys zero h = refl
  drop-drop_one (x ∷ xs) ys (suc i) h = drop-drop_one xs ys i (omega arith)

  drop_all : (xs : List A) (n : ℕ) → length xs ≤ n → drop n xs ≡ []
  drop_all [] zero h = refl
  drop_all [] (suc n) h = refl
  drop_all (x ∷ xs) zero h = absurd (omega arith)
  drop_all (x ∷ xs) (suc n) h = drop_all xs n (omega arith)

  take_all : (xs : List A) (n : ℕ) → length xs ≤ n → take n xs ≡ xs
  take_all [] zero h = refl
  take_all [] (suc n) h = refl
  take_all (x ∷ xs) zero h = absurd (omega arith)
  take_all (x ∷ xs) (suc n) h = ap (◌∷◌ x) (take_all xs n (omega arith))

  copy-same : (dst src : List A) → length dst ≡ length src → copy dst src ≡ src
  unfolding copy
  copy-same dst src h =
      rw (take_all src (length dst) (omega arith), drop_all dst (length src) (omega arith))
        (append-nil src)

  copy-over :
      (dst src : List A) → length src ≤ length dst → copy dst src ≡ src ++ drop (length src) dst
  unfolding copy
  copy-over dst src h = ap (λ xs. xs ++ drop (length src) dst) (take_all src (length dst) h)

  drop-append : (n : ℕ) (xs ys : List A) → n ≤ length xs → drop n (xs ++ ys) ≡ drop n xs ++ ys
  drop-append zero xs ys h = refl
  drop-append (suc n) [] ys h = absurd (omega arith)
  drop-append (suc n) (x ∷ xs) ys h = drop-append n xs ys (omega arith)

  drop-suc : (n : ℕ) (xs : List A) → drop 1 (drop n xs) ≡ drop (suc n) xs
  drop-suc zero xs = refl
  drop-suc (suc n) [] = refl
  drop-suc (suc n) (x ∷ xs) = drop-suc n xs

  newest_all : (k : ℕ) (xs : List A) → length xs ≤ k → newest k xs ≡ xs
  newest_all k xs h =
      let none_over : length xs - k ≡ 0 = omega arith in ap (λ i. drop i xs) none_over

  -- One entry more leaves the newest of the newest.
  newest-snoc :
      (k : ℕ) (xs : List A) (x : A)
      → 0 < k
      → newest k (newest k xs ++ x ∷ []) ≡ newest k (xs ++ x ∷ [])
  newest-snoc k xs x h = elim (Bool-cases (leb (length xs) k)) [
    | inl short ↦ rw (newest_all k xs (ground (arith, short))) refl
    | inr long ↦
        let a = length xs - k in
        let over : length (drop a xs ++ x ∷ []) - k ≡ 1 =
          ground (arith, long, length-append (drop a xs) (x ∷ []), length-drop a xs) in
        let next : length (xs ++ x ∷ []) - k ≡ suc a =
          ground (arith, long, length-append xs (x ∷ [])) in
        ap (λ i. drop i (drop a xs ++ x ∷ [])) over
        ∙ drop-append 1 (drop a xs) (x ∷ []) (ground (arith, long, length-drop a xs))
        ∙ ap (λ ys. ys ++ x ∷ []) (drop-suc a xs)
        ∙ sym (drop-append (suc a) xs (x ∷ []) (ground (arith, long)))
        ∙ ap (λ i. drop i (xs ++ x ∷ [])) (sym next)
  ]

-- What the ring stands for.
abbrev window : Ring → List ℕ
window r = if r.full then drop r.pos r.buf ++ take r.pos r.buf else take r.pos r.buf

-- The ring after these calls, the last one first: `none` is Reset.
unfoldable pub after : ℕ → List (Option ℕ) → Ring
after size [] = new_ring size
after size (some ms ∷ earlier) = record_latency size ms (after size earlier)
after size (none ∷ earlier) = reset_ring (after size earlier)

-- The latencies recorded since the last Reset, in order.
unfoldable pub since_reset : List (Option ℕ) → List ℕ
since_reset [] = []
since_reset (some ms ∷ earlier) = since_reset earlier ++ ms ∷ []
since_reset (none ∷ earlier) = []

module _ (size : ℕ) (some_room : 0 < size) where
  pub record IsRing (r : Ring) : Type 0 where
    pub size_buf : length r.buf ≡ size
    pub inside : r.pos < size

  latencies-window_at :
      (buf : List ℕ) (pos : ℕ) (full : Bool)
      → length buf ≡ size
      → pos < size
      → latencies size (record { buf = buf; pos = pos; full = full })
        ≡ window (record { buf = buf; pos = pos; full = full })
  unfolding latencies
  latencies-window_at buf pos false l b = elim (Bool-cases (pos == 0)) [
    | inl z ↦ rw (latencies, z) (sym (ap (λ k. take k buf) ((==_iff pos 0).0 z)))
    | inr nz ↦
        rw (latencies, nz)
          (copy-same (replicate pos 0) (take pos buf)
            (omega (arith, length-replicate {A = ℕ} pos 0, length-take pos buf)))
  ]
  latencies-window_at buf pos true l b =
      let tail = drop pos buf in
      let rest : List ℕ = drop (length tail) (replicate size 0) in
      let long : length (drop pos buf) ≡ size - pos =
        length-drop {A = ℕ} pos buf ∙ ap (λ n. n - pos) l in
      let zeros : length (replicate size 0) ≡ size = length-replicate {A = ℕ} size 0 in
      let filled : copy (replicate size 0) tail ≡ tail ++ rest =
        copy-over (replicate size 0) tail (omega (arith, long, zeros)) in
      let k : min size (length tail) ≡ length tail = omega (arith, long) in
      let nz : (size == 0) ≡ false = ground arith in
      let refilled = copy-same rest (take pos buf) (
        omega (
          arith,
          long,
          zeros,
          length-drop {A = ℕ} (length tail) (replicate size 0),
          length-take {A = ℕ} pos buf,
        )) in
      rw
        (
          latencies,
          nz,
          k,
          filled,
          take-append_length tail rest,
          drop-append_length tail rest,
          refilled,
        )
        refl

  pub latencies-window : (r : Ring) → IsRing r → latencies size r ≡ window r
  latencies-window r v = latencies-window_at r.buf r.pos r.full v.size_buf v.inside

  record_latency-IsRing : (ms : ℕ) (r : Ring) → IsRing r → IsRing (record_latency size ms r)
  unfolding record_latency
  record_latency-IsRing ms r v = elim (Bool-cases (leb size (r.pos + 1))) [
    | inl e ↦
        rw e (record { size_buf = length-set r.buf r.pos ms ∙ v.size_buf; inside = some_room })
    | inr e ↦
        rw e
          (record { size_buf = length-set r.buf r.pos ms ∙ v.size_buf; inside = ground (arith, e) })
  ]

  rolled :
      (ms : ℕ) (buf : List ℕ) (pos : ℕ)
      → length buf ≡ size
      → pos < size
      → newest size ((drop pos buf ++ take pos buf) ++ ms ∷ [])
        ≡ drop (suc pos) buf ++ (take pos buf ++ ms ∷ [])
  rolled ms buf pos l b =
      let whole = drop pos buf ++ take pos buf in
      let size_whole : length whole ≡ size = omega (
        arith,
        length-append (drop pos buf) (take pos buf),
        length-drop pos buf,
        length-take pos buf,
      ) in
      let over : length (whole ++ ms ∷ []) - size ≡ 1 =
        omega (arith, length-append whole (ms ∷ []), size_whole) in
      ap (λ i. drop i (whole ++ ms ∷ [])) over
      ∙ drop-append 1 whole (ms ∷ []) (omega (arith, size_whole))
      ∙ ap (λ ys. ys ++ ms ∷ []) (drop-drop_one buf (take pos buf) pos (omega arith))
      ∙ append_assoc (drop (suc pos) buf) (take pos buf) (ms ∷ [])

  -- The write at the last place, and at any other.
  module _ (ms : ℕ) (buf : List ℕ) (pos : ℕ) (l : length buf ≡ size) (b : pos < size) where
    short : length (take pos buf ++ ms ∷ []) ≤ size
    short = omega (arith, length-append (take pos buf) (ms ∷ []), length-take pos buf)

    written_last : size ≤ pos + 1 → set buf pos ms ++ [] ≡ take pos buf ++ ms ∷ []
    written_last e =
        append-nil (set buf pos ms)
        ∙ sym (take_all (set buf pos ms) (suc pos) (omega (arith, length-set buf pos ms)))
        ∙ take-set buf pos ms (omega arith)

    window_wraps :
        (full : Bool)
        → size ≤ pos + 1
        → set buf pos ms ++ []
          ≡ newest size (window (record { buf = buf; pos = pos; full = full }) ++ ms ∷ [])
    window_wraps false e = written_last e ∙ sym (newest_all size _ short)
    window_wraps true e =
        written_last e
        ∙ ap (λ xs. xs ++ (take pos buf ++ ms ∷ [])) (sym (drop_all buf (suc pos) (omega arith)))
        ∙ sym (rolled ms buf pos l b)

    window_moves :
        (full : Bool)
        → window (record { buf = set buf pos ms; pos = suc pos; full = full })
          ≡ newest size (window (record { buf = buf; pos = pos; full = full }) ++ ms ∷ [])
    window_moves false = take-set buf pos ms (omega arith) ∙ sym (newest_all size _ short)
    window_moves true =
        ap₂ (λ xs ys. xs ++ ys) (drop-set buf pos ms) (take-set buf pos ms (omega arith))
        ∙ sym (rolled ms buf pos l b)

  record_latency-window_at :
      (ms : ℕ) (buf : List ℕ) (pos : ℕ) (full : Bool)
      → length buf ≡ size
      → pos < size
      → window (record_latency size ms (record { buf = buf; pos = pos; full = full }))
        ≡ newest size (window (record { buf = buf; pos = pos; full = full }) ++ ms ∷ [])
  unfolding record_latency
  record_latency-window_at ms buf pos full l b =
      let one : pos + 1 ≡ suc pos = omega arith in
      elim (Bool-cases (leb size (pos + 1))) [
        | inl e ↦ rw (record_latency, e) (window_wraps ms buf pos l b full (ground (arith, e)))
        | inr e ↦ rw (record_latency, e, one) (window_moves ms buf pos l b full)
      ]

  pub record_latency-window :
      (ms : ℕ) (r : Ring)
      → IsRing r
      → window (record_latency size ms r) ≡ newest size (window r ++ ms ∷ [])
  record_latency-window ms r v = record_latency-window_at ms r.buf r.pos r.full v.size_buf v.inside

  after-IsRing : (calls : List (Option ℕ)) → IsRing (after size calls)
  unfolding after new_ring reset_ring
  after-IsRing [] = record { size_buf = length-replicate {A = ℕ} size 0; inside = some_room }
  after-IsRing (some ms ∷ earlier) =
      record_latency-IsRing ms (after size earlier) (after-IsRing earlier)
  after-IsRing (none ∷ earlier) = record {
    size_buf = (after-IsRing earlier).size_buf;
    inside = some_room;
  }

  after-window :
      (calls : List (Option ℕ)) → window (after size calls) ≡ newest size (since_reset calls)
  unfolding after since_reset new_ring reset_ring
  after-window [] = sym (newest_all size [] (omega arith))
  after-window (some ms ∷ earlier) =
      record_latency-window ms (after size earlier) (after-IsRing earlier)
      ∙ ap (λ xs. newest size (xs ++ ms ∷ [])) (after-window earlier)
      ∙ newest-snoc size (since_reset earlier) ms some_room
  after-window (none ∷ earlier) = sym (newest_all size [] (omega arith))

  -- After any samples and resets, latencies yields the newest samples since the last reset, in the
  -- order in which they came, as many as the ring holds.
  pub latencies-after :
      (calls : List (Option ℕ))
      → latencies size (after size calls) ≡ newest size (since_reset calls)
  latencies-after calls =
      latencies-window (after size calls) (after-IsRing calls) ∙ after-window calls
