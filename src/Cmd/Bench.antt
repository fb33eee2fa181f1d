-- ===== src/Cmd/Bench.antt =====
-- cmd/gossip_bench/main.go: the loop that waits until the nodes agree, and the check after it.
pub mod Agreement
mod Tests
use uav.Base.{
  ℕ, ◌+◌, ltb, Bool, true, false, Option, none, some, String, List, [], ◌∷◌, if◌then◌else◌, length,
  string_key,
}
use uav.Base.Map
use uav.Base.Map.{is_some}
use uav.Algorithm.Gossip.{State}

-- What the select statement receives: the deadline, or a tick with the time since the start and the
-- snapshots of the nodes' states.
pub data Event : Type 0 where
  deadline : Event
  tick : ℕ → List State → Event

-- allConverged.
unfoldable pub all_converged : ℕ → List State → Bool
all_converged expected_keys [] = true
all_converged expected_keys (snap ∷ snaps) =
    let rest = all_converged expected_keys snaps in
    if ltb (length snap) expected_keys then false else rest

-- convergenceLoop, with convergedAt when it is left, or none if it still waits after these events.
unfoldable pub convergence_loop : ℕ → List Event → Option ℕ
convergence_loop expected_keys [] = none
convergence_loop expected_keys (deadline ∷ es) = some 0
convergence_loop expected_keys (tick elapsed snaps ∷ es) =
    let rest = convergence_loop expected_keys es in
    if all_converged expected_keys snaps then some elapsed else rest

-- How many of the keys a state does not have.
unfoldable pub missing : List String → State → ℕ
missing [] snap = 0
missing (key ∷ keys) snap =
    let rest = missing keys snap in if is_some (Map.get key snap) then rest else rest + 1

-- allMatch.
unfoldable pub all_match : List String → List State → Bool
all_match keys [] = true
all_match keys (snap ∷ snaps) =
    let rest = all_match keys snaps in if ltb 0 (missing keys snap) then false else rest
