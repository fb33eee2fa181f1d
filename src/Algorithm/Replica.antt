-- ===== src/Algorithm/Replica.antt =====
-- node/algorithm/gossip/gossip.go, Entry, State, Set and merge: a replica of a versioned map.
-- weaknet.go keeps the same map with byte values, so the value's type is a parameter.
pub mod Convergence
use uav.Base.{
  ℕ, ◌+◌, ltb, Bool, true, Option, none, some, String, List, [], ◌∷◌, if◌then◌else◌, add64,
  string_key,
}
use uav.Base.Map
use uav.Base.Map.{Map}

pub record Entry (V : Type 0) : Type 0 where
  pub value : V
  pub version : ℕ

module _ {V : Type 0} where
  -- The version that Set gives a key, `uint64` arithmetic.
  unfoldable pub next_version : Option (Entry V) → ℕ
  next_version none = 1
  next_version (some e) = add64 e.version 1

  -- Set.
  unfoldable pub set : String → V → Map String (Entry V) → Map String (Entry V)
  unfolding next_version
  set key value m = Map.put key (record { value = value; version = next_version (Map.get key m) }) m

  -- The test of merge: the key is missing, or the remote version is higher.
  unfoldable pub wins : Entry V → Option (Entry V) → Bool
  wins remote none = true
  wins remote (some here) = ltb here.version remote.version

  -- The body of merge's loop.
  unfoldable pub absorb : String → Entry V → Map String (Entry V) → Map String (Entry V)
  unfolding wins
  absorb key remote m = if wins remote (Map.get key m) then Map.put key remote m else m

  -- merge; the list's order is that of the `range` loop.
  unfoldable pub merge : Map String (Entry V) → Map String (Entry V) → Map String (Entry V)
  merge m [] = m
  merge m ((k, e) ∷ rest) = merge (absorb k e m) rest
