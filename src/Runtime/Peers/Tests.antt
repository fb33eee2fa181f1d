-- ===== src/Runtime/Peers/Tests.antt =====
-- Runs of the registry, and its theorems at concrete inputs.
use uav.Base.{◌≡◌, refl, [], ◌∷◌, List, some, nat_key}
use uav.Base.Map
use uav.Runtime.Peers.{get_peer, addrs, addrs_from, add, remove, new_peer_manager}
use uav.Runtime.Peers.Registry.{Call, added, removed, after, latest, get_peer-after}

abbrev calls : List Call
calls = added 2 "b" ∷ removed 3 ∷ added 3 "c" ∷ added 2 "a" ∷ added 0 "all" ∷ []

addrs_run : addrs (after calls) ≡ (2, "b") ∷ []
unfolding addrs addrs_from after add remove new_peer_manager Map.put Map.delete
addrs_run = refl

get_peer-after_example : get_peer 2 (after calls) ≡ some (record { id = 2; addr = "b" })
unfolding latest
get_peer-after_example = get_peer-after 2 calls
