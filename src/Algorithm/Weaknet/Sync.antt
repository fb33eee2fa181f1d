-- ===== src/Algorithm/Weaknet/Sync.antt =====
-- What one push-pull message and one retransmission round do to a node.
use uav.Base.{
  append-nil, if◌then◌else◌, ℕ, ◌≡◌, refl, sym, ap, ◌∙◌, ltb, not, ◌/◌, Bool, true, String, List,
  [], ◌∷◌, ◌++◌, map, inl, inr, Bool-cases, Option-cases, if◌then◌else◌, string_key, nat_key,
}
use uav.Base.Map
use uav.Base.Map.{Map}
use uav.Algorithm.Replica.{absorb, merge}
use uav.Algorithm.Replica.Convergence.{IsMap, newer, merge-newer}
use uav.Algorithm.Weaknet.State.{
  Weaknet, State, PushPull, PendingMsg, Packet, Effect, send, get_entry,
}
use uav.Algorithm.Weaknet.Handlers.{
  push_pull_packet, get_peer_stats, delta_for, merge_from, merge_state, note_peer, send_push_pull,
  handle_push_pull, refreshed, resend, retransmit_check,
}

-- mergeState is merge, and besides finds the highest version.
pub merge_from-merge : (v : ℕ) (m remote : State) → (merge_from v m remote).1 ≡ merge m remote
unfolding merge_from merge
merge_from-merge v m [] = refl
merge_from-merge v m ((k, e) ∷ rest) =
    merge_from-merge (if ltb v e.version then e.version else v) (absorb k e m) rest

note_peer-state :
    (now from kv : ℕ) (w : Weaknet)
    → ((note_peer now from kv w).state ≡ w.state) × ((note_peer now from kv w).trace ≡ w.trace)
unfolding note_peer
note_peer-state now from kv w = elim (Option-cases (Map.get from w.peers)) [
  | inl e ↦ rw (note_peer, get_peer_stats, e) (refl, refl)
  | inr (ps, e) ↦ rw (note_peer, get_peer_stats, e) (refl, refl)
]

-- What sendPushPull appends to the trace.
unfoldable pub pull_of : ℕ → ℕ → Bool → Weaknet → PushPull
pull_of id peer is_reply w = record {
  is_reply = is_reply;
  peer_id = id;
  delta = delta_for (get_peer_stats peer w).0.known_ver w;
  known_ver = (get_peer_stats peer w).0.known_ver;
}

pub send_push_pull-sends :
    (id millis peer : ℕ) (is_reply : Bool) (w : Weaknet)
    → ((send_push_pull id millis peer is_reply w).state ≡ w.state)
      × ((send_push_pull id millis peer is_reply w).trace
          ≡ w.trace ++ send peer (push_pull_packet millis (pull_of id peer is_reply w)) ∷ [])
      × ((send_push_pull id millis peer is_reply w).peers ≡ (get_peer_stats peer w).1.peers)
unfolding send_push_pull pull_of delta_for
send_push_pull-sends id millis peer is_reply w = elim (Option-cases (Map.get peer w.peers)) [
  | inl e ↦ rw (send_push_pull, pull_of, get_peer_stats, e) (refl, refl, refl)
  | inr (ps, e) ↦ rw (send_push_pull, pull_of, get_peer_stats, e) (refl, refl, refl)
]

module _ (id now millis from : ℕ) (pp : PushPull) (w : Weaknet) (u : IsMap pp.delta) where
  merged : Weaknet
  merged = (merge_state pp.delta w).1

  merged-newer :
      (key : String) → get_entry key merged ≡ newer (get_entry key w) (Map.get key pp.delta)
  unfolding merged merge_state get_entry
  merged-newer key = rw (merge_from-merge 0 w.state pp.delta) (merge-newer w.state pp.delta u key)

  -- A push-pull message whose delta has no key twice leaves each key with the newer of the two
  -- entries, the local one on a tie. A request is answered by
  -- one reply to its sender, and a reply by nothing.
  pub handle_push_pull-merges :
      (key : String)
      → (get_entry key (handle_push_pull id now millis from pp w)
          ≡ newer (get_entry key w) (Map.get key pp.delta))
        × ((handle_push_pull id now millis from pp w).trace
            ≡ w.trace
              ++ (if pp.is_reply
                  then []
                  else send from (
                      push_pull_packet millis (
                        pull_of id from true
                          (note_peer now from pp.known_ver (merge_state pp.delta w).1)))
                    ∷ []))
  unfolding handle_push_pull get_entry merged merge_state
  handle_push_pull-merges key =
      let noted = note_peer now from pp.known_ver merged in
      let (s, t) = note_peer-state now from pp.known_ver merged in
      let (s', t', p) = send_push_pull-sends id millis from true noted in
      let reply : List Effect =
        send from (push_pull_packet millis (pull_of id from true noted)) ∷ [] in
      elim (Bool-cases pp.is_reply) [
        | inl e ↦ rw e (ap (Map.get key) s ∙ merged-newer key, t ∙ sym (append-nil w.trace))
        | inr e ↦ rw e (ap (Map.get key) (s' ∙ s) ∙ merged-newer key, t' ∙ ap (λ es. es ++ reply) t)
      ]

-- The messages that a retransmission round keeps: those whose deadline has not passed.
pub alive : ℕ → ℕ → PendingMsg → Bool
alive now seq pm = not (ltb pm.deadline now)

resend-alive :
    (now : ℕ) (m : Map ℕ PendingMsg)
    → ((resend now m).0 ≡ map (λ e. (e.0, refreshed now e.1)) (Map.retain (alive now) m))
      × ((resend now m).1
          ≡ map (λ e. send e.1.peer_id (refreshed now e.1).packet) (Map.retain (alive now) m))
unfolding resend Map.retain alive
resend-alive now [] = (refl, refl)
resend-alive now ((seq, pm) ∷ rest) =
    let (kept, sent) = resend-alive now rest in
    elim (Bool-cases (ltb pm.deadline now)) [
      | inl late ↦ rw late (kept, sent)
      | inr live ↦ rw live (
        ap (◌∷◌ (seq, refreshed now pm)) kept,
        ap (◌∷◌ (send pm.peer_id (refreshed now pm).packet)) sent,
      )
    ]

-- A retransmission round at a time in nanoseconds forgets the critical messages whose deadline has
-- passed, and sends each of the others once more to its peer, with the milliseconds of that time as its
-- timestamp and all else as it was. It keeps them under their numbers, with their deadlines and the new
-- timestamps.
pub retransmit_check-alive :
    (now : ℕ) (w : Weaknet)
    → let live = Map.retain (λ (seq : ℕ) (pm : PendingMsg). not (ltb pm.deadline now)) w.pending in
      let again : PendingMsg → Packet = λ (pm : PendingMsg). record {
        mtype = pm.packet.mtype;
        ttl = pm.packet.ttl;
        priority = pm.packet.priority;
        timestamp = now / 1_000_000;
        body = pm.packet.body;
      } in
      ((retransmit_check now w).pending
        ≡ map
            (λ e.
              (e.0, record { packet = again e.1; peer_id = e.1.peer_id; deadline = e.1.deadline }))
            live)
      × ((retransmit_check now w).trace ≡ w.trace ++ map (λ e. send e.1.peer_id (again e.1)) live)
unfolding retransmit_check alive
retransmit_check-alive now w =
    let (kept, sent) = resend-alive now w.pending in (kept, ap (λ es. w.trace ++ es) sent)
