-- ===== src/Algorithm/Weaknet/Tests.antt =====
-- Runs of nodes, and the theorems on them at concrete inputs.
use uav.Base.{
  ℕ, List, some, none, arith, ◌≡◌, refl, [], ◌∷◌, ◌++◌, true, false, ltb, string_key, nat_key,
  length,
}
use uav.Base.Map
use uav.Algorithm.Replica.Convergence.{IsMap, newer}
use uav.Algorithm.Weaknet.State.{
  Weaknet, State, PushPull, Packet, send, new, default_config, set_entry, get_entry,
}
use uav.Algorithm.Weaknet.Handlers.{
  critical_packet, retransmit_check, push_pull_packet, send_push_pull, send_critical,
  handle_push_pull, handle_ack, Json, on_message, merge_state, note_peer,
}
use uav.Algorithm.Weaknet.Sync.{pull_of, handle_push_pull-merges, retransmit_check-alive}
use uav.Algorithm.Weaknet.Cluster.{
  Cluster, become, wrote, critical, heard_plain, started, next, Reach, IsPlain, sends_whole_state,
}
use uav.Message.{Message, zero_message, type_control}

abbrev remote : State
remote = ("pos", record { value = 7 ∷ []; version = 2 }) ∷ []

abbrev request : PushPull
request = record { is_reply = false; peer_id = 2; delta = remote; known_ver = 0 }

abbrev node : Weaknet
node = record {
  cfg = default_config;
  state = ("pos", record { value = 5 ∷ []; version = 1 }) ∷ [];
  peers = [];
  pending = [];
  trace = [];
}

-- An ACK names the sequence number that the framework gave the message, 1 here. The buffer is keyed
-- by the clock, so the message stays pending.
ack_run : length (handle_ack 1 (send_critical true 500 2 (9 ∷ []) node).1).pending ≡ 1
unfolding handle_ack send_critical Map.put Map.delete
ack_run = refl

remote-IsMap : IsMap remote
unfolding Map.get
remote-IsMap = (refl, record {})

handle_push_pull-merges_example :
    (get_entry "pos" (handle_push_pull 1 50 7 2 request node)
      ≡ newer (get_entry "pos" node) (Map.get "pos" remote))
    × ((handle_push_pull 1 50 7 2 request node).trace
        ≡ send 2
            (push_pull_packet 7 (pull_of 1 2 true (note_peer 50 2 0 (merge_state remote node).1)))
          ∷ [])
handle_push_pull-merges_example = handle_push_pull-merges 1 50 7 2 request node remote-IsMap "pos"

-- One critical message whose deadline has passed, and one that is still due.
abbrev critical_node : Weaknet
critical_node = record node {
  pending =
      (5, record { packet = critical_packet 100 (9 ∷ []); peer_id = 2; deadline = 600_000_000 })
      ∷ (6, record { packet = critical_packet 300 (8 ∷ []); peer_id = 3; deadline = 800_000_000 })
      ∷ [];
}

retransmit_check-alive_example :
    let again : Packet = record (critical_packet 300 (8 ∷ [])) { timestamp = 700 } in
    ((retransmit_check 700_000_000 critical_node).pending
      ≡ (6, record { packet = again; peer_id = 3; deadline = 800_000_000 }) ∷ [])
    × ((retransmit_check 700_000_000 critical_node).trace ≡ send 3 again ∷ [])
unfolding Map.retain
retransmit_check-alive_example = retransmit_check-alive 700_000_000 critical_node

abbrev began : Cluster
began i = new default_config

abbrev written : Cluster
written = become 1 (set_entry "pos" (5 ∷ []) (began 1)) began

-- A json that reads every payload as an ACK.
abbrev acking : Json
acking = record { kind_of = λ p. some 2; push_pull_of = λ p. none; ack_of = λ p. some 5 }

acking-IsPlain : (payload : List ℕ) → IsPlain acking payload
acking-IsPlain payload kind e = ground (arith, e)

abbrev alarmed : Cluster
alarmed = become 1 (send_critical true 500 2 (9 ∷ []) (written 1)).1 written

-- Node 2 gets the critical message.
abbrev alarm : Message
alarm = record zero_message { mtype = type_control; from = 1; to = 2; payload = 9 ∷ [] }

abbrev told : Cluster
told = become 2 (on_message acking 2 600 7 alarm (alarmed 2)) alarmed

told-Reach : Reach acking (λ i. default_config) told
told-Reach =
    next
      (next (next started (wrote 1 "pos" (5 ∷ [])))
        (critical 1 true 500 2 (9 ∷ []) (acking-IsPlain (9 ∷ []))))
      (heard_plain 2 600 7 alarm (acking-IsPlain (9 ∷ [])))

sends_whole_state_example :
    (send_push_pull 1 7 2 false (told 1)).trace
    ≡ (told 1).trace
      ++ send 2 (
          push_pull_packet 7 (record {
            is_reply = false;
            peer_id = 1;
            delta = Map.retain (λ key e. ltb 0 e.version) (told 1).state;
            known_ver = 0;
          }))
        ∷ []
sends_whole_state_example = sends_whole_state {cfg = λ i. default_config} told-Reach 1 7 2 false
