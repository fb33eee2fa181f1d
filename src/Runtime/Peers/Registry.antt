-- ===== src/Runtime/Peers/Registry.antt =====
-- What the registry holds after any calls, from the calls alone.
use uav.Base.{
  ℕ, ◌≡◌, refl, ◌∙◌, ap, ◌==◌, ==_iff, not, ◌&&◌, Option, none, some, String, List, [], ◌∷◌,
  if◌then◌else◌, nat_key, arith,
}
use uav.Base.Map
use uav.Base.Map.{Map, get-put, get-delete}
use uav.Runtime.Peers.{Peer, PeerManager, new_peer_manager, add, remove, get_peer, list_ids}

pub data Call : Type 0 where
  added : ℕ → String → Call
  removed : ℕ → Call

-- The registry after these calls, the last one first.
unfoldable pub after : List Call → PeerManager
after [] = new_peer_manager
after (added id addr ∷ earlier) = (add id addr (after earlier)).1
after (removed id ∷ earlier) = remove id (after earlier)

-- The peer that the last call about `id` leaves; adding the broadcast id is no such call.
unfoldable pub latest : ℕ → List Call → Option Peer
latest id [] = none
latest id (added j addr ∷ earlier) =
    let before = latest id earlier in
    if (j == id) && not (j == 0) then some (record { id = id; addr = addr }) else before
latest id (removed j ∷ earlier) = let before = latest id earlier in if j == id then none else before

-- Get finds what the last call about the peer left: its last address, or nothing if it was removed
-- or never added. The broadcast id is never found.
pub get_peer-after : (id : ℕ) (calls : List Call) → get_peer id (after calls) ≡ latest id calls
unfolding get_peer after latest new_peer_manager add remove Map.get
get_peer-after id [] = refl
get_peer-after id (added j addr ∷ earlier) =
    let peer : Peer = record { id = j; addr = addr } in
    let found = get_peer-after id earlier in
    ground (arith, found, get-put j id peer (after earlier).peers, ==_iff j id)
get_peer-after id (removed j ∷ earlier) =
    get-delete j id (after earlier).peers ∙ rw (get_peer-after id earlier) refl

-- List names exactly the peers whose last call was an accepted Add.
pub list_ids-after :
    (id : ℕ) (calls : List Call)
    → Map.listed id (list_ids (after calls)) ≡ Map.is_some (latest id calls)
unfolding list_ids get_peer
list_ids-after id calls =
    Map.listed-keys id (after calls).peers ∙ ap Map.is_some (get_peer-after id calls)
