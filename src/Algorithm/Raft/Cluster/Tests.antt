-- ===== src/Algorithm/Raft/Cluster/Tests.antt =====
-- An election in a cluster of three nodes.
use uav.Base.{ℕ, ◌<◌, ◌*◌, ◌≡◌, refl, true, arith, List, [], ◌∷◌, nat_key, string_key}
use uav.Base.Map
use uav.Algorithm.Raft.State.{
  Raft, Run, ok, panic, RaftConfig, new, default_config, is_leader, request_vote,
  request_vote_reply, timer_election,
}
use uav.Algorithm.Raft.Core.{
  reset_election_timer, step_down, send_to_all, send_append_entries, broadcast_to, entries_from,
  index_of,
}
use uav.Algorithm.Raft.Log.{last_log_info}
use uav.Algorithm.Raft.Handlers.{
  on_tick, start_election, grants, log_ok, become_leader, init_indices, handle_request_vote,
  handle_request_vote_reply,
}
use uav.Algorithm.Raft.Cluster.{
  Sent, Cluster, sends_of, view, fresh, advance, first, later, ticked, delivered, lost, Steps, here,
  next, handle_body,
}
use uav.Algorithm.Raft.Cluster.Balance.{booted}
use uav.Algorithm.Raft.Cluster.Election.{one_leader_per_term}
use uav.Algorithm.Raft.Cluster.Ledger.{hit, sum_over}
use uav.Algorithm.Raft.Cluster.Majority.{backs, elected_majority}

abbrev trio : List ℕ
trio = 1 ∷ 2 ∷ 3 ∷ []

abbrev cfgs : ℕ → RaftConfig
cfgs i = default_config

abbrev asleep : Cluster
asleep = booted cfgs (λ i k. 7) (λ i. true)

abbrev outcome : Raft → Run Raft → Raft
outcome s (ok t) = t
outcome s panic = s

abbrev heard : ℕ → ℕ → Cluster → Sent → Raft
heard i now c m =
    outcome (c.node i) (handle_body (view trio i now) m.from m.body (fresh (c.node i)))

abbrev candidate_1 : Raft
candidate_1 =
    outcome (asleep.node 1) (on_tick (view trio 1 10) 10 timer_election (fresh (asleep.node 1)))

abbrev campaign : Cluster
campaign = advance 1 candidate_1 [] asleep

abbrev request : ℕ → Sent
request j = record {
  from = 1;
  to = j;
  body =
      request_vote (record { term = 1; candidate_id = 1; last_log_index = 0; last_log_term = 0 });
}

abbrev supported : Cluster
supported = advance 2 (heard 2 20 campaign (request 2)) (request 3 ∷ []) campaign

campaign-Steps : Steps trio asleep campaign
unfolding on_tick start_election reset_election_timer send_to_all last_log_info new Map.get Map.put
campaign-Steps =
    next here (ticked 1 10 10 timer_election asleep candidate_1 refl (omega arith) refl)

supported-Steps : Steps trio asleep supported
unfolding handle_body handle_request_vote grants log_ok step_down on_tick start_election
    reset_election_timer send_to_all last_log_info new Map.get Map.put
supported-Steps =
    next campaign-Steps (delivered (request 2) 20 (request 3 ∷ []) campaign _ first refl refl)

abbrev support : Sent
support = record {
  from = 2;
  to = 1;
  body = request_vote_reply (record { term = 1; vote_granted = true });
}

abbrev governed : Cluster
governed = advance 1 (heard 1 30 supported support) (request 3 ∷ []) supported

governed-Steps : Steps trio asleep governed
unfolding handle_body handle_request_vote_reply become_leader init_indices broadcast_to
    send_append_entries entries_from index_of handle_request_vote grants log_ok step_down on_tick
    start_election reset_election_timer send_to_all last_log_info new Map.get Map.put
governed-Steps =
    next supported-Steps (delivered support 30 (request 3 ∷ []) supported _ (later first) refl refl)

-- The request to node 3 gets lost.
abbrev later_on : Cluster
later_on = record governed { net = sends_of 1 (governed.node 1).trace }

later_on-Steps : Steps trio governed later_on
unfolding handle_body handle_request_vote_reply become_leader init_indices broadcast_to
    send_append_entries entries_from index_of handle_request_vote grants log_ok step_down on_tick
    start_election reset_election_timer send_to_all last_log_info new Map.get Map.put
later_on-Steps = next here (lost (request 3) _ governed first)

one_leader_per_term_example : ◌≡◌ {A = ℕ} 1 1
unfolding handle_body handle_request_vote_reply become_leader init_indices broadcast_to
    send_append_entries entries_from index_of handle_request_vote grants log_ok step_down on_tick
    start_election reset_election_timer send_to_all last_log_info new Map.get Map.put
one_leader_per_term_example =
    one_leader_per_term trio cfgs (λ i k. 7) (λ i. true) governed later_on 1 1 refl refl refl refl
      refl governed-Steps later_on-Steps refl refl refl

elected_majority_example : 3 < 2 * sum_over trio (λ j. hit (backs 1 1 (governed.node j)))
unfolding handle_body handle_request_vote_reply become_leader init_indices broadcast_to
    send_append_entries entries_from index_of handle_request_vote grants log_ok step_down on_tick
    start_election reset_election_timer send_to_all last_log_info new Map.get Map.put
elected_majority_example =
    elected_majority trio cfgs (λ i k. 7) (λ i. true) governed 1 refl refl refl refl governed-Steps
      refl

-- Four nodes, two of which stand in the same term.
abbrev quad : List ℕ
quad = 1 ∷ 2 ∷ 3 ∷ 4 ∷ []

abbrev stand : ℕ → Cluster → Cluster
stand i c =
    advance i (outcome (c.node i) (on_tick (view quad i 10) 10 timer_election (fresh (c.node i))))
      c.net c

abbrev deliver : Sent → List Sent → Cluster → Cluster
deliver m left c =
    advance m.to
      (outcome (c.node m.to) (handle_body (view quad m.to 20) m.from m.body (fresh (c.node m.to))))
      left c

abbrev asks : ℕ → ℕ → Sent
asks i j = record {
  from = i;
  to = j;
  body =
      request_vote (record { term = 1; candidate_id = i; last_log_index = 0; last_log_term = 0 });
}

abbrev grants_to : ℕ → ℕ → Sent
grants_to j i = record {
  from = j;
  to = i;
  body = request_vote_reply (record { term = 1; vote_granted = true });
}

abbrev two_stand : Cluster
two_stand = stand 2 (stand 1 asleep)

abbrev third_votes : Cluster
third_votes =
    deliver (asks 1 3) (asks 1 2 ∷ asks 1 4 ∷ asks 2 1 ∷ asks 2 3 ∷ asks 2 4 ∷ []) two_stand

abbrev fourth_votes : Cluster
fourth_votes =
    deliver (asks 2 4) (asks 1 2 ∷ asks 1 4 ∷ asks 2 1 ∷ asks 2 3 ∷ grants_to 3 1 ∷ []) third_votes

abbrev first_leads : Cluster
first_leads =
    deliver (grants_to 3 1) (asks 1 2 ∷ asks 1 4 ∷ asks 2 1 ∷ asks 2 3 ∷ grants_to 4 2 ∷ [])
      fourth_votes

abbrev appended : List Sent
appended = sends_of 1 (first_leads.node 1).trace

abbrev both_lead : Cluster
both_lead =
    deliver (grants_to 4 2) (asks 1 2 ∷ asks 1 4 ∷ asks 2 1 ∷ asks 2 3 ∷ appended) first_leads

-- With an even number of nodes two of them can lead one term.
two_leaders :
    (c : Cluster) × Steps quad asleep c
    × (is_leader (c.node 1).role ≡ true)
    × (is_leader (c.node 2).role ≡ true)
    × ((c.node 1).current_term ≡ (c.node 2).current_term)
unfolding handle_body handle_request_vote_reply become_leader init_indices broadcast_to
    send_append_entries entries_from index_of handle_request_vote grants log_ok step_down on_tick
    start_election reset_election_timer send_to_all last_log_info new Map.get Map.put
two_leaders =
    let campaigns =
      next (next here (ticked 1 10 10 timer_election asleep _ refl (omega arith) refl))
        (ticked 2 10 10 timer_election (stand 1 asleep) _ refl (omega arith) refl) in
    let voted =
      next (next campaigns (delivered (asks 1 3) 20 _ two_stand _ (later first) refl refl))
        (delivered (asks 2 4) 20 _ third_votes _ (later (later (later (later first)))) refl refl) in
    let won =
      next
        (next voted (
          delivered (grants_to 3 1) 20 _ fourth_votes _ (later (later (later (later first)))) refl
            refl))
        (delivered (grants_to 4 2) 20 _ first_leads _ (later (later (later (later first)))) refl
          refl) in
    (both_lead, won, refl, refl, refl)
