-- ===== src/Runtime/Router/Delivery.antt =====
-- Which messages of an arbitrary inbound history are delivered.
use uav.Base.{
  nat_key, ℕ, ◌<◌, ◌≡◌, refl, ◌∙◌, ◌==◌, not, ◌||◌, ◌&&◌, List, [], ◌∷◌, arith, if◌then◌else◌, u32,
}
use uav.Base.Map
use uav.Message.{Message, is_expired}
use uav.Runtime.Dedup.{PeerDedup, contains, observe, is_duplicate}
use uav.Runtime.Dedup.Window.{after, passed, Words, observe-after}
use uav.Runtime.Router.{
  Router, ttl_drop, dedup_drop, deliver, new_router, peer_dedup, router_is_duplicate, dispatch,
}

-- Messages with their times of arrival, newest first.
abbrev pub History : Type 0
History = List (Message × ℕ)

unfoldable pub after_all : ℕ → History → Router
after_all id [] = new_router id
after_all id ((m, now) ∷ history) = (dispatch (after_all id history) m now).1

-- The numbers of the messages of one sender and one stream that had not expired on arrival.
unfoldable pub numbers : ℕ → ℕ → History → List ℕ
numbers from stream [] = []
numbers from stream ((m, now) ∷ history) =
    let rest = numbers from stream history in
    if not (is_expired m now) && (m.from == from && m.stream_id == stream)
    then m.seq ∷ rest
    else rest

abbrev pub InRange : History → Type 0
InRange [] = Unit {0}
InRange ((m, now) ∷ history) = (m.seq < u32) × InRange history

numbers-Words :
    (from stream : ℕ) (history : History) → InRange history → Words (numbers from stream history)
unfolding numbers
numbers-Words from stream [] h = tt
numbers-Words from stream ((m, now) ∷ history) h = ground (arith, numbers-Words from stream history)

peer_dedup-put :
    (r : Router) (from other stream : ℕ) (d : PeerDedup)
    → peer_dedup (record r { dups = Map.put from d r.dups }) other stream
      ≡ (if from == other then d stream else peer_dedup r other stream)
unfolding peer_dedup
peer_dedup-put r from other stream d = ground (arith, Map.get-put from other d r.dups)

-- A dispatch touches the stream of its message alone, and that one only if it has not expired.
peer_dedup-dispatch :
    (r : Router) (m : Message) (now from stream : ℕ)
    → peer_dedup (dispatch r m now).1 from stream ≡ (
        if not (is_expired m now) && (m.from == from && m.stream_id == stream)
        then (observe (peer_dedup r from stream) m.seq).1
        else peer_dedup r from stream)
unfolding dispatch router_is_duplicate is_duplicate
peer_dedup-dispatch r m now from stream = ground (
  arith,
  peer_dedup-put r m.from from stream (is_duplicate (peer_dedup r m.from) m.stream_id m.seq).1,
)

-- The state of each stream depends on the numbers of its sender and stream alone.
pub stream-after :
    (id from stream : ℕ) (history : History)
    → peer_dedup (after_all id history) from stream ≡ after (numbers from stream history)
unfolding after_all numbers after
stream-after id from stream [] = unfold new_router peer_dedup Map.get in refl
stream-after id from stream ((m, now) ∷ history) =
    peer_dedup-dispatch (after_all id history) m now from stream
    ∙ ground (arith, stream-after id from stream history)

dispatch-outcome :
    (r : Router) (m : Message) (now : ℕ)
    → (dispatch r m now).0 ≡ (
        if is_expired m now
        then ttl_drop
        else if (observe (peer_dedup r m.from m.stream_id) m.seq).0
        then dedup_drop
        else deliver m)
unfolding dispatch router_is_duplicate is_duplicate
dispatch-outcome r m now = ground arith

-- After any inbound history a message is delivered exactly if it has not expired, its number was
-- not among the unexpired messages of its sender and stream, and none of those numbers lies 256 or
-- more above it; otherwise the drop is counted as an expiry first, and as a duplicate second.
pub dispatch-after_all :
    (id : ℕ) (history : History) (m : Message) (now : ℕ)
    → InRange history
    → m.seq < u32
    → let seen = numbers m.from m.stream_id history in
      (dispatch (after_all id history) m now).0 ≡ (
        if is_expired m now
        then ttl_drop
        else if contains m.seq seen || passed m.seq seen
        then dedup_drop
        else deliver m)
dispatch-after_all id history m now h w =
    let seen = numbers m.from m.stream_id history in
    dispatch-outcome (after_all id history) m now
    ∙ rw (
      stream-after id m.from m.stream_id history,
      observe-after seen m.seq (numbers-Words m.from m.stream_id history h) w,
    )
