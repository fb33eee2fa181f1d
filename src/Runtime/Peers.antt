-- ===== src/Runtime/Peers.antt =====
-- node/runtime/peer.go, PeerManager: the registry of the peers that a node knows.
pub mod Registry
mod Tests
use uav.Base.{
  ℕ, ◌==◌, Bool, true, false, Option, none, some, String, List, [], ◌∷◌, if◌then◌else◌, nat_key,
}
use uav.Base.Map
use uav.Base.Map.{Map}

pub record Peer : Type 0 where
  pub id : ℕ
  pub addr : String

pub record PeerManager : Type 0 where
  pub peers : Map ℕ Peer

-- NewPeerManager.
unfoldable pub new_peer_manager : PeerManager
new_peer_manager = record { peers = [] }

-- Add; `false` is the error for the broadcast id.
unfoldable pub add : ℕ → String → PeerManager → Bool × PeerManager
add id addr pm =
    if id == 0
    then (false, pm)
    else (true, record { peers = Map.put id (record { id = id; addr = addr }) pm.peers })

-- Remove.
unfoldable pub remove : ℕ → PeerManager → PeerManager
remove id pm = record { peers = Map.delete id pm.peers }

-- Get, with `none` for a peer that is missing.
unfoldable pub get_peer : ℕ → PeerManager → Option Peer
get_peer id pm = Map.get id pm.peers

-- List.
unfoldable pub list_ids : PeerManager → List ℕ
list_ids pm = Map.keys pm.peers

-- The loop of Addrs.
unfoldable pub addrs_from : Map ℕ String → Map ℕ Peer → Map ℕ String
addrs_from out [] = out
addrs_from out ((id, p) ∷ rest) = addrs_from (Map.put id p.addr out) rest

-- Addrs.
unfoldable pub addrs : PeerManager → Map ℕ String
unfolding addrs_from
addrs pm = addrs_from [] pm.peers
