-- ===== src/Algorithm/Raft/Calls.antt =====
-- What the shared helpers return, as equations.
use uav.Base.{
  nat_key, ℕ, zero, suc, ◌+◌, ◌-◌, ◌%◌, ◌<◌, ◌≤◌, ◌≡◌, refl, ◌∙◌, ◌==◌, ltb, List, [], ◌∷◌, ◌++◌,
  some, arith, if◌then◌else◌, length, get_elem?, take, drop, u32, append-nil, append_assoc,
}
use native.Mathlib.Numerals.{add-one}
use uav.Base.Map
use uav.Base.Map.{Map}
use uav.Algorithm.Raft.State.{
  Raft, View, Run, ok, LogEntry, Effect, set_timer, cancel_timer, send, Body, append_entries, apply,
  emit, timer_election, timer_heartbeat, follower,
}
use uav.Algorithm.Raft.Log.{load}
use uav.Algorithm.Raft.Core.{
  reset_election_timer, step_down, index_of, entries_from, packet, append_message,
  send_append_entries, broadcast_to, apply_rounds, apply_committed, send_to_all,
}
use uav.Algorithm.Raft.Handlers.{init_indices}

-- The state after resetElectionTimer.
abbrev pub timer_reset : Raft → Raft
timer_reset s =
    let lo = s.cfg.election_timeout_min in
    record s {
      draws = λ i. s.draws (suc i);
      trace =
          s.trace
          ++ set_timer timer_election (lo + s.draws 0 % (s.cfg.election_timeout_max - lo)) ∷ [];
    }

-- The state after stepDown.
abbrev pub stepped_down : ℕ → Raft → Raft
stepped_down term s = timer_reset (record s {
  current_term = term;
  role = follower;
  voted_for = 0;
  trace = s.trace ++ cancel_timer timer_heartbeat ∷ [];
})

abbrev pub HasTimeouts : Raft → Type 0
HasTimeouts s = s.cfg.election_timeout_min < s.cfg.election_timeout_max

pub reset_election_timer-ok :
    (s : Raft) → HasTimeouts s → reset_election_timer s ≡ ok (timer_reset s)
unfolding reset_election_timer
reset_election_timer-ok s h = ground arith

pub step_down-ok :
    (term : ℕ) (s : Raft) → HasTimeouts s → step_down term s ≡ ok (stepped_down term s)
unfolding step_down
step_down-ok term s h = ground arith

-- An id whose next index is set, and does not wrap.
abbrev pub HasIndex : ℕ → Map ℕ ℕ → Type 0
HasIndex p m = (1 ≤ index_of p m) × (index_of p m < u32)

abbrev pub Indexed : List ℕ → Map ℕ ℕ → Type 0
Indexed [] m = Unit {0}
Indexed (p ∷ ps) m = HasIndex p m × Indexed ps m

pub index_of-put :
    (p q i : ℕ) (m : Map ℕ ℕ) → index_of q (Map.put p i m) ≡ (if p == q then i else index_of q m)
unfolding index_of
index_of-put p q i m = ground (arith, Map.get-put p q i m)

pub Indexed-put :
    (ps : List ℕ) (q i : ℕ) (m : Map ℕ ℕ)
    → 1 ≤ i
    → i < u32
    → Indexed ps m
    → Indexed ps (Map.put q i m)
Indexed-put [] q i m h k x = tt
Indexed-put (p ∷ ps) q i m h k x =
    ground (arith, index_of-put q p i m, Indexed-put ps q i m h k x.1)

init_indices-HasIndex :
    (p i : ℕ) (ps : List ℕ) (m : Map ℕ ℕ)
    → 1 ≤ i
    → i < u32
    → HasIndex p m
    → HasIndex p (init_indices i ps m)
unfolding init_indices
init_indices-HasIndex p i [] m h k x = x
init_indices-HasIndex p i (q ∷ ps) m h k x =
    init_indices-HasIndex p i ps (Map.put q i m) h k (ground (arith, index_of-put q p i m))

-- A new leader has an index for every peer.
pub init_indices-Indexed :
    (i : ℕ) (ps : List ℕ) (m : Map ℕ ℕ) → 1 ≤ i → i < u32 → Indexed ps (init_indices i ps m)
unfolding init_indices
init_indices-Indexed i [] m h k = tt
init_indices-Indexed i (p ∷ ps) m h k = (
  init_indices-HasIndex p i ps (Map.put p i m) h k (ground (arith, index_of-put p p i m)),
  init_indices-Indexed i ps (Map.put p i m) h k,
)

-- A call that changes nothing but the trace, at whose end it stands.
abbrev pub Sends : Raft → Run Raft → Type 0
Sends s r = (es : List Effect) × (r ≡ ok (record s { trace = s.trace ++ es }))

entries_from-ok :
    (next : ℕ) (log : List LogEntry)
    → 1 ≤ next
    → next < u32
    → (es : List LogEntry) × (entries_from next log ≡ ok es)
unfolding entries_from
entries_from-ok next log h k =
    (if ltb next (length log + 1) then drop (next - 1) log else [], ground arith)

pub send_append_entries-Sends :
    (v : View) (p : ℕ) (s : Raft) → HasIndex p s.next_index → Sends s (send_append_entries v p s)
unfolding send_append_entries
send_append_entries-Sends v p s h =
    let (es, e) = entries_from-ok (index_of p s.next_index) s.log h.0 h.1 in
    (send p (packet v.now (append_entries (append_message v p es s))) ∷ [], rw e)

-- Broadcasting reaches every peer if all have an index.
pub broadcast_to-Sends :
    (v : View) (ps : List ℕ) (s : Raft) → Indexed ps s.next_index → Sends s (broadcast_to v ps s)
unfolding broadcast_to
broadcast_to-Sends v [] s h = ([], rw append-nil)
broadcast_to-Sends v (p ∷ ps) s h =
    let (es, e) = send_append_entries-Sends v p s h.0 in
    let (fs, f) = broadcast_to-Sends v ps (record s { trace = s.trace ++ es }) h.1 in
    (es ++ fs, rw e (f ∙ rw append_assoc))

pub send_to_all-Sends :
    (wall : ℕ) (body : Body) (ps : List ℕ) (s : Raft)
    → (es : List Effect) × (send_to_all wall body ps s ≡ record s { trace = s.trace ++ es })
unfolding send_to_all
send_to_all-Sends wall body [] s = ([], rw append-nil)
send_to_all-Sends wall body (p ∷ ps) s =
    let (es, e) = send_to_all-Sends wall body ps (emit (send p (packet wall body)) s) in
    (send p (packet wall body) ∷ es, e ∙ rw append_assoc)

-- The callback's calls for entries that follow index i.
unfoldable pub applications : ℕ → List LogEntry → List Effect
applications i [] = []
applications i (e ∷ es) = apply (i + 1) e.command ∷ applications (i + 1) es

-- The state after k rounds of applyCommitted.
abbrev pub applied : ℕ → Raft → Raft
applied k s = record s {
  last_applied = s.last_applied + k;
  trace =
      s.trace
      ++ (if s.has_callback
          then applications s.last_applied (take k (drop s.last_applied s.log))
          else []);
}

drop-cons {ℓ} :
    {A : Type ℓ} (xs : List A) (i : ℕ)
    → i < length xs
    → (x : A) × (get_elem? xs i ≡ some x) × (drop i xs ≡ x ∷ drop (suc i) xs)
drop-cons [] i h = absurd (omega arith)
drop-cons (x ∷ xs) zero h = (x, refl, refl)
drop-cons (x ∷ xs) (suc i) h = drop-cons xs i (omega arith)

-- The loop neither panics nor skips: it applies the next k entries of the log, in order.
apply_rounds-ok :
    (k : ℕ) (s : Raft) → s.last_applied + k ≤ length s.log → apply_rounds k s ≡ ok (applied k s)
unfolding apply_rounds applications load
apply_rounds-ok zero s h = ground (arith, append-nil s.trace)
apply_rounds-ok (suc k) s h =
    let (x, e, f) = drop-cons s.log s.last_applied (omega arith) in
    let next = s.last_applied + 1 in
    let called = s.trace ++ apply next x.command ∷ [] in
    ground (
      arith,
      e,
      f,
      add-one s.last_applied,
      apply_rounds-ok k (record s { last_applied = next; trace = called }) (omega arith),
      apply_rounds-ok k (record s { last_applied = next }) (omega arith),
      append_assoc s.trace (apply next x.command ∷ [])
          (applications next (take k (drop next s.log))),
    )

-- applyCommitted applies the committed entries that were not applied yet, in order and each once.
pub apply_committed-ok :
    (s : Raft)
    → s.last_applied ≤ s.commit_index
    → s.commit_index ≤ length s.log
    → apply_committed s ≡ ok (applied (s.commit_index - s.last_applied) s)
unfolding apply_committed
apply_committed-ok s h k = apply_rounds-ok (s.commit_index - s.last_applied) s (omega arith)
