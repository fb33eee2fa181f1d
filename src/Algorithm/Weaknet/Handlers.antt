-- ===== src/Algorithm/Weaknet/Handlers.antt =====
-- node/algorithm/weaknet/weaknet.go, the methods of Algorithm. A handler reads the clock once, and a
-- map's list stands for the order of a `range` loop.
use uav.Base.{
  ℕ, ◌*◌, ◌/◌, ◌%◌, ◌+◌, ◌==◌, leb, ltb, not, Bool, true, false, Option, none, some, String, List,
  [], ◌∷◌, ◌++◌, if◌then◌else◌, str_eq, string_key, nat_key, u32, length,
}
use uav.Base.Map
use uav.Base.Map.{Map}
use uav.Message.{
  Message, type_state, type_control, ttl_state, ttl_collision, priority_state, priority_collision,
}
use uav.Algorithm.Replica.{absorb}
use uav.Algorithm.Sampling.{sample_n}
use uav.Algorithm.Weaknet.State.{
  Effect, Packet, PeerStats, PendingMsg, PushPull, State, Weaknet, cancel_timer, emit, kind_ack,
  kind_push_pull, push_pull, raw, send, set_timer, timer_purge, timer_retx, timer_sync,
}

abbrev pub critical_packet : ℕ → List ℕ → Packet
critical_packet now payload = record {
  mtype = type_control;
  ttl = ttl_collision;
  priority = priority_collision;
  timestamp = now / 1_000_000;
  body = raw payload;
}

-- SendCritical; `accepted` says that Send returned no error, and so does the result.
unfoldable pub send_critical : Bool → ℕ → ℕ → List ℕ → Weaknet → Bool × Weaknet
send_critical accepted now peer payload w =
    let packet = critical_packet now payload in
    let sent = emit (send peer packet) w in
    let tracked : PendingMsg = record {
      packet = packet;
      peer_id = peer;
      deadline = now + ttl_collision * 1_000_000;
    } in
    if not accepted
    then (false, sent)
    else (true, record sent { pending = Map.put (now % u32) tracked w.pending })

-- Start.
unfoldable pub start : Weaknet → Weaknet
start w = emit (set_timer timer_purge (w.cfg.peer_stale_duration / 2)) (
    emit (set_timer timer_retx (w.cfg.retransmit_timeout / 2))
      (emit (set_timer timer_sync w.cfg.sync_interval) w))

-- Stop.
unfoldable pub stop : Weaknet → Weaknet
stop w =
    emit (cancel_timer timer_purge)
      (emit (cancel_timer timer_retx) (emit (cancel_timer timer_sync) w))

-- deltaFor.
unfoldable pub delta_for : ℕ → Weaknet → State
delta_for since_ver w = Map.retain (λ key e. ltb since_ver e.version) w.state

-- The loop of mergeState, from the maximum so far.
unfoldable pub merge_from : ℕ → State → State → ℕ × State
merge_from max_ver m [] = (max_ver, m)
merge_from max_ver m ((k, e) ∷ rest) =
    merge_from (if ltb max_ver e.version then e.version else max_ver) (absorb k e m) rest

-- mergeState.
unfoldable pub merge_state : State → Weaknet → ℕ × Weaknet
unfolding merge_from
merge_state remote w =
    let (max_ver, m) = merge_from 0 w.state remote in (max_ver, record w { state = m })

abbrev pub fresh_stats : PeerStats
fresh_stats = record { known_ver = 0; last_seen = none; active = true }

-- getPeerStats: the entry, and the state in which it exists.
unfoldable pub get_peer_stats : ℕ → Weaknet → PeerStats × Weaknet
get_peer_stats peer w = elim (Map.get peer w.peers) [
  | some ps ↦ (ps, w)
  | none ↦ (fresh_stats, record w { peers = Map.put peer fresh_stats w.peers })
]

-- The packet of sendPushPull.
abbrev pub push_pull_packet : ℕ → PushPull → Packet
push_pull_packet millis pp = record {
  mtype = type_state;
  ttl = ttl_state;
  priority = priority_state;
  timestamp = millis;
  body = push_pull pp;
}

-- sendPushPull on the node `id`, at its time in milliseconds.
unfoldable pub send_push_pull : ℕ → ℕ → ℕ → Bool → Weaknet → Weaknet
unfolding get_peer_stats delta_for
send_push_pull id millis peer is_reply w =
    let (ps, known) = get_peer_stats peer w in
    emit
      (send peer (
        push_pull_packet millis (record {
          is_reply = is_reply;
          peer_id = id;
          delta = delta_for ps.known_ver known;
          known_ver = ps.known_ver;
        })))
      known

-- The writes that handlePushPull makes to the peer's entry.
unfoldable pub note_peer : ℕ → ℕ → ℕ → Weaknet → Weaknet
unfolding get_peer_stats
note_peer now from known_ver w =
    let (ps, known) = get_peer_stats from w in
    record known {
      peers =
          Map.put from
            (record ps {
              known_ver = if ltb ps.known_ver known_ver then known_ver else ps.known_ver;
              last_seen = some now;
            })
            known.peers;
    }

-- handlePushPull.
unfoldable pub handle_push_pull : ℕ → ℕ → ℕ → ℕ → PushPull → Weaknet → Weaknet
unfolding merge_state note_peer send_push_pull
handle_push_pull id now millis from pp w =
    let noted = note_peer now from pp.known_ver (merge_state pp.delta w).1 in
    if not pp.is_reply then send_push_pull id millis from true noted else noted

-- The case of an ACK.
unfoldable pub handle_ack : ℕ → Weaknet → Weaknet
handle_ack ack_seq w = record w { pending = Map.delete ack_seq w.pending }

-- json.Unmarshal on the envelope, on pushPullPayload and on ackPayload; `none` is an error.
pub record Json : Type 0 where
  pub kind_of : List ℕ → Option ℕ
  pub push_pull_of : List ℕ → Option PushPull
  pub ack_of : List ℕ → Option ℕ

-- OnMessage.
unfoldable pub on_message : Json → ℕ → ℕ → ℕ → Message → Weaknet → Weaknet
unfolding handle_push_pull handle_ack
on_message json id now millis m w =
    if length m.payload == 0 then w else elim (json.kind_of m.payload) [
      | none ↦ w
      | some kind ↦
          if kind == kind_push_pull
          then elim (json.push_pull_of m.payload) [
            | none ↦ w
            | some pp ↦ handle_push_pull id now millis m.from pp w
          ]
          else if kind == kind_ack
          then elim (json.ack_of m.payload) [ none ↦ w | some ack ↦ handle_ack ack w ]
          else w
    ]

-- The test of activePeers: the peer was seen after the cutoff.
unfoldable pub seen_recently : ℕ → Weaknet → ℕ → Bool
seen_recently now w peer = elim (Map.get peer w.peers) [
  | none ↦ false
  | some ps ↦ elim ps.last_seen [
    | none ↦ false
    | some seen ↦ ltb now (seen + w.cfg.peer_stale_duration)
  ]
]

unfoldable pub filter : (ℕ → Bool) → List ℕ → List ℕ
filter p [] = []
filter p (x ∷ xs) = let rest = filter p xs in if p x then x ∷ rest else rest

-- activePeers.
unfoldable pub active_peers : ℕ → List ℕ → Weaknet → List ℕ
unfolding seen_recently filter
active_peers now all w =
    let out = filter (seen_recently now w) all in if length out == 0 then all else out

-- The loop of syncRound.
unfoldable pub sync_with : ℕ → ℕ → List ℕ → Weaknet → Weaknet
unfolding send_push_pull
sync_with id millis [] w = w
sync_with id millis (peer ∷ rest) w =
    sync_with id millis rest (send_push_pull id millis peer false w)

-- syncRound; `none` is a panic.
unfoldable pub sync_round : (ℕ → List ℕ) → ℕ → ℕ → ℕ → List ℕ → Weaknet → Option Weaknet
unfolding active_peers sync_with
sync_round perm id now millis [] w = some w
sync_round perm id now millis (peer ∷ peers) w =
    elim (sample_n perm (active_peers now (peer ∷ peers) w) w.cfg.fanout) [
      | none ↦ none
      | some targets ↦ some (sync_with id millis targets w)
    ]

-- The write of retransmitCheck to a message that it sends again.
abbrev pub refreshed : ℕ → PendingMsg → PendingMsg
refreshed now pm = record pm { packet = record pm.packet { timestamp = now / 1_000_000 } }

-- The loop of retransmitCheck: what stays pending, and what is sent.
unfoldable pub resend : ℕ → Map ℕ PendingMsg → Map ℕ PendingMsg × List Effect
resend now [] = ([], [])
resend now ((seq, pm) ∷ rest) =
    let (kept, sent) = resend now rest in
    let again = refreshed now pm in
    if ltb pm.deadline now
    then (kept, sent)
    else ((seq, again) ∷ kept, send pm.peer_id again.packet ∷ sent)

-- retransmitCheck.
unfoldable pub retransmit_check : ℕ → Weaknet → Weaknet
unfolding resend
retransmit_check now w =
    let (kept, sent) = resend now w.pending in record w { pending = kept; trace = w.trace ++ sent }

-- The test of purgeStalePeers: the entry stays.
unfoldable pub is_kept : ℕ → ℕ → PeerStats → Bool
is_kept stale now ps = elim ps.last_seen [ none ↦ true | some seen ↦ leb now (seen + stale * 3) ]

-- purgeStalePeers.
unfoldable pub purge_stale_peers : ℕ → Weaknet → Weaknet
unfolding is_kept
purge_stale_peers now w = record w {
  peers = Map.retain (λ peer ps. is_kept w.cfg.peer_stale_duration now ps) w.peers;
}

-- OnTick.
unfoldable pub on_tick : (ℕ → List ℕ) → ℕ → ℕ → ℕ → List ℕ → String → Weaknet → Option Weaknet
unfolding sync_round retransmit_check purge_stale_peers
on_tick perm id now millis peers name w =
    if str_eq name timer_sync
    then sync_round perm id now millis peers w
    else if str_eq name timer_retx
    then some (retransmit_check now w)
    else if str_eq name timer_purge
    then some (purge_stale_peers now w)
    else some w
