-- ===== src/Runtime/Sending/Tests.antt =====
-- Runs of the sending half of a node, and its theorem at a concrete input.
use uav.Base.{ℕ, ◌≡◌, ◌≤◌, refl, [], ◌∷◌, List, map, arith, nat_key}
use uav.Base.Map
use uav.Message.{Message, zero_message}
use uav.Runtime.Peers.{add, new_peer_manager, get_peer, list_ids}
use uav.Runtime.Sending.{
  new_outbound, add_peer, next_seq, push_to_peer, number_for, push_message, send_message,
  push_to_all, broadcast,
}
use uav.Runtime.Sending.Numbers.{Call, registered, sent, broadcasted, after}
use uav.Runtime.Sending.Interleaving.{
  Sender, Reach, started, next, numbers, pushes, uses, pushed-once,
}

abbrev on_stream : ℕ → Message
on_stream s = record zero_message { stream_id = s }

abbrev calls : List Call
calls =
    broadcasted 9 (on_stream 0)
    ∷ sent 8 2 (on_stream 1)
    ∷ sent 7 5 (on_stream 0)
    ∷ sent 6 3 (on_stream 0)
    ∷ registered 3 "c"
    ∷ registered 2 "b"
    ∷ []

-- The message to the unknown peer 5 uses up no number.
numbers_run :
    map {B = ℕ × ℕ} (λ m. (m.stream_id, m.seq)) (after 1 calls).pushed
    ≡ (0, 3) ∷ (0, 2) ∷ (1, 1) ∷ (0, 1) ∷ []
unfolding after new_outbound add_peer next_seq push_to_peer send_message push_to_all broadcast add
    new_peer_manager get_peer list_ids Map.get Map.put
numbers_run = refl

-- Two goroutines take the numbers 1 and 2, and the second one pushes first.
abbrev none_sent : Sender
none_sent = record { out = new_outbound 1; in_hand = [] }

abbrev one_numbered : Sender
one_numbered = record {
  out = (number_for 2 (on_stream 0) none_sent.out).1;
  in_hand = (number_for 2 (on_stream 0) none_sent.out).0 ∷ [];
}

abbrev both_numbered : Sender
both_numbered = record {
  out = (number_for 3 (on_stream 0) one_numbered.out).1;
  in_hand = (number_for 3 (on_stream 0) one_numbered.out).0 ∷ one_numbered.in_hand;
}

abbrev first_pushed : Sender
first_pushed = record {
  out = push_message (number_for 3 (on_stream 0) one_numbered.out).0 both_numbered.out;
  in_hand = one_numbered.in_hand;
}

abbrev both_pushed : Sender
both_pushed = record {
  out = push_message (number_for 2 (on_stream 0) none_sent.out).0 first_pushed.out;
  in_hand = [];
}

overtaken : Reach 1 both_pushed
overtaken =
    next
      (next
        (next (next started (numbers 2 (on_stream 0) none_sent))
          (numbers 3 (on_stream 0) one_numbered))
        (pushes (number_for 3 (on_stream 0) one_numbered.out).0 [] one_numbered.in_hand
          both_numbered.out))
      (pushes (number_for 2 (on_stream 0) none_sent.out).0 [] [] first_pushed.out)

-- The number 1 is pushed last.
overtaken_numbers : map {B = ℕ} (λ m. m.seq) both_pushed.out.pushed ≡ 1 ∷ 2 ∷ []
unfolding new_outbound next_seq
overtaken_numbers = refl

pushed-once_example : ◌≤◌ (uses 0 2 both_pushed.out.pushed) 1
unfolding new_outbound next_seq
pushed-once_example = pushed-once overtaken (omega arith) 0 2
