-- ===== src/Algorithm/Weaknet/Cluster.antt =====
-- Nodes that all run weaknet.go and exchange push-pull messages: what they send each other.
use uav.Base.{
  some_eq, none_ne, ℕ, ◌≡◌, refl, sym, ◌∙◌, ◌==◌, length, ltb, Bool, false, some, String, List, [],
  ◌∷◌, ◌++◌, inl, inr, Bool-cases, Option-cases, if◌then◌else◌, string_key, nat_key, subst, str_eq,
}
use uav.Base.Map
use uav.Base.Map.{Map, Holds, Holds-retain, Holds-put, Holds-delete, Holds-get}
use uav.Algorithm.Sampling.{sample_n}
use uav.Algorithm.Weaknet.State.{
  kind_push_pull, kind_ack, Weaknet, Config, PushPull, PendingMsg, send, set_entry, new, timer_sync,
  timer_retx, timer_purge,
}
use uav.Algorithm.Weaknet.Handlers.{
  push_pull_packet, delta_for, send_push_pull, handle_push_pull, handle_ack, send_critical,
  refreshed, resend, retransmit_check, purge_stale_peers, sync_with, sync_round, active_peers,
  on_tick, critical_packet, Json, on_message,
}
use uav.Message.{Message}
use uav.Algorithm.Weaknet.Sync.{pull_of, send_push_pull-sends}
use uav.Algorithm.Weaknet.Versions.{
  Sent, Unaware, IsRaw, Quiet, Honest, Quiet-append, Quiet-raw, send_push_pull-Honest,
  handle_push_pull-Honest, get_peer_stats-Unaware,
}

Quiet-nil : Quiet []
unfolding Quiet
Quiet-nil pp s = elim s [ ]

sync_with-Honest :
    (id millis : ℕ) (targets : List ℕ) (w : Weaknet)
    → Honest w
    → Honest (sync_with id millis targets w)
unfolding sync_with
sync_with-Honest id millis [] w h = h
sync_with-Honest id millis (peer ∷ rest) w h =
    sync_with-Honest id millis rest _ (send_push_pull-Honest id millis peer false w h)

resend-Honest :
    (now : ℕ) (m : Map ℕ PendingMsg)
    → Holds IsRaw m
    → Holds IsRaw (resend now m).0 × Quiet (resend now m).1
unfolding resend
resend-Honest now [] h = (h, Quiet-nil)
resend-Honest now ((seq, pm) ∷ rest) ((bytes, e), h) =
    let (kept, sent) = resend-Honest now rest h in
    elim (Bool-cases (ltb pm.deadline now)) [
      | inl late ↦ rw late (kept, sent)
      | inr live ↦
          rw live
            (((bytes, e), kept), Quiet-raw pm.peer_id (refreshed now pm).packet bytes _ e sent)
    ]

retransmit_check-Honest : (now : ℕ) (w : Weaknet) → Honest w → Honest (retransmit_check now w)
unfolding retransmit_check
retransmit_check-Honest now w h =
    let (kept, sent) = resend-Honest now w.pending h.pending in
    record { peers = h.peers; pending = kept; trace = Quiet-append w.trace _ h.trace sent }

purge_stale_peers-Honest : (now : ℕ) (w : Weaknet) → Honest w → Honest (purge_stale_peers now w)
unfolding purge_stale_peers
purge_stale_peers-Honest now w h = record {
  peers = Holds-retain Unaware _ w.peers h.peers;
  pending = h.pending;
  trace = h.trace;
}

sync_round-Honest :
    (perm : ℕ → List ℕ) (id now millis : ℕ) (peers : List ℕ) (w t : Weaknet)
    → Honest w
    → sync_round perm id now millis peers w ≡ some t
    → Honest t
unfolding sync_round
sync_round-Honest perm id now millis [] w t h e = subst Honest (some_eq w t e) h
sync_round-Honest perm id now millis (peer ∷ peers) w t h e =
    elim (Option-cases (sample_n perm (active_peers now (peer ∷ peers) w) w.cfg.fanout)) [
      | inl f ↦ absurd (none_ne t (sym (rw (sync_round, f) refl) ∙ e))
      | inr (targets, f) ↦
          subst Honest
            (some_eq (sync_with id millis targets w) t (sym (rw (sync_round, f) refl) ∙ e))
            (sync_with-Honest id millis targets w h)
    ]

on_tick-Honest :
    (perm : ℕ → List ℕ) (id now millis : ℕ) (peers : List ℕ) (name : String) (w t : Weaknet)
    → Honest w
    → on_tick perm id now millis peers name w ≡ some t
    → Honest t
unfolding on_tick
on_tick-Honest perm id now millis peers name w t h e = elim (Bool-cases (str_eq name timer_sync)) [
  | inl a ↦ sync_round-Honest perm id now millis peers w t h (sym (rw (on_tick, a) refl) ∙ e)
  | inr a ↦ elim (Bool-cases (str_eq name timer_retx)) [
    | inl b ↦
        subst Honest (some_eq (retransmit_check now w) t (sym (rw (on_tick, a, b) refl) ∙ e))
          (retransmit_check-Honest now w h)
    | inr b ↦ elim (Bool-cases (str_eq name timer_purge)) [
      | inl c ↦
          subst Honest (some_eq (purge_stale_peers now w) t (sym (rw (on_tick, a, b, c) refl) ∙ e))
            (purge_stale_peers-Honest now w h)
      | inr c ↦ subst Honest (some_eq w t (sym (rw (on_tick, a, b, c) refl) ∙ e)) h
    ]
  ]
]

send_critical-Honest :
    (accepted : Bool) (now peer : ℕ) (payload : List ℕ) (w : Weaknet)
    → Honest w
    → Honest (send_critical accepted now peer payload w).1
unfolding send_critical
send_critical-Honest accepted now peer payload w h =
    let sent =
      Quiet-append w.trace _ h.trace
        (Quiet-raw peer (critical_packet now payload) payload [] refl Quiet-nil) in
    elim (Bool-cases accepted) [
      | inl e ↦ rw e (record {
        peers = h.peers;
        pending = Holds-put IsRaw _ _ w.pending (payload, refl) h.pending;
        trace = sent;
      })
      | inr e ↦ rw e (record { peers = h.peers; pending = h.pending; trace = sent })
    ]

-- The nodes by id.
abbrev pub Cluster : Type 0
Cluster = ℕ → Weaknet

abbrev pub become : ℕ → Weaknet → Cluster → Cluster
become i w c j = if i == j then w else c j

-- No push-pull message to json: a payload of SendCritical can be one, since OnMessage parses it too.
abbrev pub IsPlain : Json → List ℕ → Type 0
IsPlain json payload =
    (kind : ℕ) → json.kind_of payload ≡ some kind → (kind == kind_push_pull) ≡ false

on_message-Honest :
    (json : Json) (id now millis : ℕ) (m : Message) (w : Weaknet)
    → IsPlain json m.payload
    → Honest w
    → Honest (on_message json id now millis m w)
unfolding on_message handle_ack
on_message-Honest json id now millis m w plain h = elim (Bool-cases (length m.payload == 0)) [
  | inl empty ↦ rw empty h
  | inr filled ↦ elim (Option-cases (json.kind_of m.payload)) [
    | inl none_read ↦ rw (filled, none_read) h
    | inr (kind, e) ↦ elim (Bool-cases (kind == kind_ack)) [
      | inr other ↦ rw (filled, e, plain kind e, other) h
      | inl ack ↦ elim (Option-cases (json.ack_of m.payload)) [
        | inl unread ↦ rw (filled, e, plain kind e, ack, unread) h
        | inr (seq, read) ↦
            rw (filled, e, plain kind e, ack, read)
              (record {
                peers = h.peers;
                pending = Holds-delete IsRaw seq w.pending h.pending;
                trace = h.trace;
              })
      ]
    ]
  ]
]

-- One event: a local call, a tick, the arrival of a push-pull message that some node has sent, or the
-- arrival of any other message, so of a critical one or of an ACK. SendCritical is called with payloads
-- that are no push-pull messages. The network may lose, repeat, reorder and misdeliver messages, but does
-- not make up push-pull messages.
pub data Step (json : Json) : Cluster → Cluster → Type 0 where
  wrote :
      {c : Cluster} (i : ℕ) (key : String) (value : List ℕ)
      → Step json c (become i (set_entry key value (c i)) c)
  critical :
      {c : Cluster} (i : ℕ) (accepted : Bool) (now peer : ℕ) (payload : List ℕ)
      → IsPlain json payload
      → Step json c (become i (send_critical accepted now peer payload (c i)).1 c)
  ticked :
      {c : Cluster} {w : Weaknet} (i : ℕ) (perm : ℕ → List ℕ) (now millis : ℕ) (peers : List ℕ)
      (name : String)
      → on_tick perm i now millis peers name (c i) ≡ some w
      → Step json c (become i w c)
  heard :
      {c : Cluster} (i j now millis from : ℕ) (pp : PushPull)
      → Sent pp (c j).trace
      → Step json c (become i (handle_push_pull i now millis from pp (c i)) c)
  heard_plain :
      {c : Cluster} (i now millis : ℕ) (m : Message)
      → IsPlain json m.payload
      → Step json c (become i (on_message json i now millis m (c i)) c)

pub data Reach (json : Json) (cfg : ℕ → Config) : Cluster → Type 0 where
  started : Reach json cfg (λ i. new (cfg i))
  next : {c d : Cluster} → Reach json cfg c → Step json c d → Reach json cfg d

become-Honest :
    (i : ℕ) (w : Weaknet) (c : Cluster)
    → Honest w
    → ((j : ℕ) → Honest (c j))
    → (j : ℕ) → Honest (become i w c j)
become-Honest i w c h k j = elim (Bool-cases (i == j)) [ inl e ↦ rw e h | inr e ↦ rw e (k j) ]

Step-Honest :
    {json : Json} {c d : Cluster}
    → Step json c d
    → ((j : ℕ) → Honest (c j))
    → (j : ℕ) → Honest (d j)
unfolding set_entry handle_ack Quiet
Step-Honest {c} (wrote i key value) h =
    let k = h i in
    become-Honest i _ c (record { peers = k.peers; pending = k.pending; trace = k.trace }) h
Step-Honest {c} (critical i accepted now peer payload plain) h =
    become-Honest i _ c (send_critical-Honest accepted now peer payload (c i) (h i)) h
Step-Honest {c} (ticked {w} i perm now millis peers name e) h =
    become-Honest i w c (on_tick-Honest perm i now millis peers name (c i) w (h i) e) h
Step-Honest {c} (heard i j now millis from pp sent) h =
    become-Honest i _ c
      (handle_push_pull-Honest i now millis from pp (c i) ((h j).trace pp sent) (h i)) h
Step-Honest {json} {c} (heard_plain i now millis m plain) h =
    become-Honest i _ c (on_message-Honest json i now millis m (c i) plain (h i)) h

pub Reach-Honest :
    {json : Json} {cfg : ℕ → Config} {c : Cluster} → Reach json cfg c → (j : ℕ) → Honest (c j)
unfolding new
Reach-Honest started j = record { peers = record {}; pending = record {}; trace = Quiet-nil }
Reach-Honest (next r s) j = Step-Honest s (Reach-Honest r) j

-- In every state that nodes running this algorithm reach together, if no payload that they pass to
-- SendCritical is read as a push-pull message, a push-pull message carries every entry of its sender with
-- a version above 0, and claims to know version 0 of its receiver: no delta is smaller than the whole
-- state.
pub sends_whole_state :
    {json : Json} {cfg : ℕ → Config} {c : Cluster}
    → Reach json cfg c
    → (i millis peer : ℕ) (is_reply : Bool)
    → (send_push_pull i millis peer is_reply (c i)).trace
      ≡ (c i).trace
        ++ send peer (
            push_pull_packet millis (record {
              is_reply = is_reply;
              peer_id = i;
              delta = Map.retain (λ key e. ltb 0 e.version) (c i).state;
              known_ver = 0;
            }))
          ∷ []
unfolding pull_of delta_for
sends_whole_state {c} r i millis peer is_reply =
    let (s, t, p) = send_push_pull-sends i millis peer is_reply (c i) in
    let (unaware, known) = get_peer_stats-Unaware peer (c i) (Reach-Honest r i).peers in
    t ∙ rw unaware refl
