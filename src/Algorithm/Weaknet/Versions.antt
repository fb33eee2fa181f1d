-- ===== src/Algorithm/Weaknet/Versions.antt =====
-- Which versions a node running weaknet.go believes its peers to know, and tells them.
use uav.Base.{
  ℕ, ◌≡◌, refl, sym, ltb, Bool, true, List, [], ◌∷◌, ◌++◌, inl, inr, ◌⊎◌, Bool-cases, Option-cases,
  if◌then◌else◌, string_key, nat_key, arith, subst,
}
use uav.Base.Map
use uav.Base.Map.{Map, Holds, Holds-retain, Holds-put, Holds-delete, Holds-get}
use uav.Algorithm.Weaknet.State.{
  Weaknet, State, PushPull, push_pull, raw, Packet, PendingMsg, PeerStats, Effect, send,
}
use uav.Algorithm.Weaknet.Handlers.{
  push_pull_packet, get_peer_stats, merge_state, note_peer, send_push_pull, handle_push_pull,
  fresh_stats,
}
use uav.Algorithm.Weaknet.Sync.{pull_of, send_push_pull-sends}

-- The message is among the calls of Send.
pub data Sent (pp : PushPull) : List Effect → Type 0 where
  first :
      {peer : ℕ} {packet : Packet} {es : List Effect}
      → packet.body ≡ push_pull pp
      → Sent pp (send peer packet ∷ es)
  later : {e : Effect} {es : List Effect} → Sent pp es → Sent pp (e ∷ es)

Sent-append : {pp : PushPull} (xs ys : List Effect) → Sent pp (xs ++ ys) → Sent pp xs ⊎ Sent pp ys
Sent-append [] ys s = inr s
Sent-append (x ∷ xs) ys (first e) = inl (first e)
Sent-append (x ∷ xs) ys (later s) = elim (Sent-append xs ys s) [
  | inl t ↦ inl (later t)
  | inr t ↦ inr t
]

-- The node knows no version of a peer.
abbrev pub Unaware : PeerStats → Type 0
Unaware ps = ps.known_ver ≡ 0

abbrev pub IsRaw : PendingMsg → Type 0
IsRaw pm = (bytes : List ℕ) × (pm.packet.body ≡ raw bytes)

-- No message among these calls claims to know a version.
unfoldable pub Quiet : List Effect → Type 0
Quiet es = (pp : PushPull) → Sent pp es → pp.known_ver ≡ 0

pub record Honest (w : Weaknet) : Type 0 where
  pub peers : Holds Unaware w.peers
  pub pending : Holds IsRaw w.pending
  pub trace : Quiet w.trace

pub Quiet-append : (xs ys : List Effect) → Quiet xs → Quiet ys → Quiet (xs ++ ys)
unfolding Quiet
Quiet-append xs ys q r pp s = elim (Sent-append xs ys s) [ inl t ↦ q pp t | inr t ↦ r pp t ]

push_pull_eq : (pp qq : PushPull) → push_pull pp ≡ push_pull qq → pp ≡ qq
push_pull_eq pp qq e = cc

Sent-nil : {pp : PushPull} → Sent pp [] → ⊥
Sent-nil s = elim s [ ]

pub Quiet-raw :
    (peer : ℕ) (packet : Packet) (bytes : List ℕ) (es : List Effect)
    → packet.body ≡ raw bytes
    → Quiet es
    → Quiet (send peer packet ∷ es)
unfolding Quiet
Quiet-raw peer packet bytes es e q pp (first f) = ground (arith, e, f)
Quiet-raw peer packet bytes es e q pp (later s) = q pp s

Quiet-pull :
    (peer millis : ℕ) (pp : PushPull)
    → pp.known_ver ≡ 0
    → Quiet (send peer (push_pull_packet millis pp) ∷ [])
unfolding Quiet
Quiet-pull peer millis pp z qq (first f) = subst (λ x. x.known_ver ≡ 0) (push_pull_eq pp qq f) z
Quiet-pull peer millis pp z qq (later s) = absurd (Sent-nil s)

pub get_peer_stats-Unaware :
    (peer : ℕ) (w : Weaknet)
    → Holds Unaware w.peers
    → Unaware (get_peer_stats peer w).0 × Holds Unaware (get_peer_stats peer w).1.peers
unfolding get_peer_stats
get_peer_stats-Unaware peer w h = elim (Option-cases (Map.get peer w.peers)) [
  | inl e ↦ rw (get_peer_stats, e) (refl, Holds-put Unaware peer fresh_stats w.peers refl h)
  | inr (ps, e) ↦ rw (get_peer_stats, e) (Holds-get Unaware peer ps w.peers h e, h)
]

send_push_pull-pending :
    (id millis peer : ℕ) (r : Bool) (w : Weaknet)
    → (send_push_pull id millis peer r w).pending ≡ w.pending
unfolding send_push_pull get_peer_stats
send_push_pull-pending id millis peer r w = elim (Option-cases (Map.get peer w.peers)) [
  | inl e ↦ rw (send_push_pull, get_peer_stats, e) refl
  | inr (ps, e) ↦ rw (send_push_pull, get_peer_stats, e) refl
]

pull_of-known_ver :
    (id peer : ℕ) (r : Bool) (w : Weaknet)
    → Unaware (get_peer_stats peer w).0
    → (pull_of id peer r w).known_ver ≡ 0
unfolding pull_of
pull_of-known_ver id peer r w z = z

pub send_push_pull-Honest :
    (id millis peer : ℕ) (r : Bool) (w : Weaknet)
    → Honest w
    → Honest (send_push_pull id millis peer r w)
send_push_pull-Honest id millis peer r w h =
    let (s, t, p) = send_push_pull-sends id millis peer r w in
    let (unaware, known) = get_peer_stats-Unaware peer w h.peers in
    record {
      peers = subst (Holds Unaware) (sym p) known;
      pending = subst (Holds IsRaw) (sym (send_push_pull-pending id millis peer r w)) h.pending;
      trace = subst Quiet (sym t) (
          Quiet-append w.trace _ h.trace
            (Quiet-pull peer millis (pull_of id peer r w) (pull_of-known_ver id peer r w unaware)));
    }

get_peer_stats-rest :
    (peer : ℕ) (w : Weaknet)
    → ((get_peer_stats peer w).1.pending ≡ w.pending) × ((get_peer_stats peer w).1.trace ≡ w.trace)
unfolding get_peer_stats
get_peer_stats-rest peer w = elim (Option-cases (Map.get peer w.peers)) [
  | inl e ↦ rw (get_peer_stats, e) (refl, refl)
  | inr (ps, e) ↦ rw (get_peer_stats, e) (refl, refl)
]

raised_zero : (a b : ℕ) → a ≡ 0 → b ≡ 0 → (if ltb a b then b else a) ≡ 0
raised_zero a b x y = ground arith

note_peer-Honest :
    (now from kv : ℕ) (w : Weaknet) → kv ≡ 0 → Honest w → Honest (note_peer now from kv w)
unfolding note_peer
note_peer-Honest now from kv w z h =
    let (unaware, known) = get_peer_stats-Unaware from w h.peers in
    let (p, t) = get_peer_stats-rest from w in
    record {
      peers = Holds-put Unaware from _ _ (raised_zero _ kv unaware z) known;
      pending = subst (Holds IsRaw) (sym p) h.pending;
      trace = subst Quiet (sym t) h.trace;
    }

merge_state-Honest : (remote : State) (w : Weaknet) → Honest w → Honest (merge_state remote w).1
unfolding merge_state
merge_state-Honest remote w h = record { peers = h.peers; pending = h.pending; trace = h.trace }

pub handle_push_pull-Honest :
    (id now millis from : ℕ) (pp : PushPull) (w : Weaknet)
    → pp.known_ver ≡ 0
    → Honest w
    → Honest (handle_push_pull id now millis from pp w)
unfolding handle_push_pull
handle_push_pull-Honest id now millis from pp w z h =
    let merged = merge_state-Honest pp.delta w h in
    let noted = note_peer-Honest now from pp.known_ver _ z merged in
    elim (Bool-cases pp.is_reply) [
      | inl e ↦ rw e noted
      | inr e ↦ rw e (send_push_pull-Honest id millis from true _ noted)
    ]
