-- ===== src/Algorithm/Gossip/Tests.antt =====
-- Runs of gossip nodes, and the theorems on them at concrete inputs.
use uav.Base.{
  some_eq, subst, ℕ, ◌≡◌, refl, List, [], ◌∷◌, Option, none, some, String, true, false, length,
  arith, string_key, nat_key, pair_key,
}
use uav.Base.Map
use uav.Message.{Message, zero_message, type_state}
use uav.Algorithm.Replica.{Entry, set, merge, next_version}
use uav.Algorithm.Replica.Convergence.{
  IsMap, Coherent, set-IsMap, turns, exchange-agrees, turns-tie,
}
use uav.Algorithm.Sampling.Tests.{in_order, in_order-Permutes}
use uav.Algorithm.Gossip.{Gossip, State, timer_gossip, set_entry, get_entry, on_message, on_tick}
use uav.Algorithm.Gossip.Rounds.{ParsesMaps, Action, hears, sets, acting, on_message-once}
use uav.Algorithm.Gossip.History.{heard, wrote, here, next, Grows, on_tick-remembers, Reach-Grows}

abbrev entry : String → ℕ → Entry String
entry value version = record { value = value; version = version }

abbrev remote : State
remote = ("pos", entry "north" 2) ∷ ("fuel", entry "80" 1) ∷ []

abbrev parse : List ℕ → Option State
parse [] = none
parse (b ∷ bs) = some remote

abbrev print : State → Option (List ℕ)
print m = some (length m ∷ [])

abbrev local : State
local = ("pos", entry "south" 1) ∷ []

abbrev node : Gossip
node = record { state = local; seen = []; seen_ttl = 500; fanout = 1; interval = 200; trace = [] }

abbrev news : Message
news = record zero_message { mtype = type_state; from = 2; seq = 5; payload = 9 ∷ [] }

abbrev older_news : Message
older_news = record news { payload = [] }

local-IsMap : IsMap local
unfolding Map.get
local-IsMap = (refl, record {})

remote-IsMap : IsMap remote
unfolding Map.get
remote-IsMap = (refl, (refl, record {}))

local-remote-Coherent : Coherent local remote
unfolding Coherent Map.get
local-remote-Coherent key e f x y v = ground (arith, x, y, v)

exchange-agrees_example : Map.get "pos" (merge local remote) ≡ Map.get "pos" (merge remote local)
exchange-agrees_example =
    exchange-agrees local remote local-IsMap remote-IsMap local-remote-Coherent "pos"

-- Two nodes that each wrote a key first disagree on it for good.
turns-tie_example :
    (Map.get "pos" (turns (true ∷ false ∷ []) (set "pos" "a" [], set "pos" "b" [])).0
      ≡ some (entry "a" 1))
    × (Map.get "pos" (turns (true ∷ false ∷ []) (set "pos" "a" [], set "pos" "b" [])).1
        ≡ some (entry "b" 1))
unfolding Map.get set Map.put next_version
turns-tie_example =
    turns-tie (true ∷ false ∷ []) (set "pos" "a" []) (set "pos" "b" []) "pos" (entry "a" 1)
      (entry "b" 1) (set-IsMap "pos" "a" [] (record {})) (set-IsMap "pos" "b" [] (record {})) refl
      refl refl

abbrev unrelated : Message
unrelated = record news { from = 4 }

abbrev in_between : List Action
in_between = hears 22 unrelated ∷ sets "height" "7" ∷ []

on_message-once_example :
    let h = acting parse in_between (on_message parse 20 news node) in
    on_message parse 30 older_news h ≡ h
on_message-once_example = on_message-once parse 20 30 news older_news in_between node refl refl refl

abbrev informed : Gossip
informed = record node { seen = ((2, 5), 20) ∷ [] }

on_tick-remembers_example :
    (h : Gossip) × (on_tick print in_order (2 ∷ 3 ∷ []) 500 7 timer_gossip informed ≡ some h)
    × (on_message parse 600 news h ≡ h)
unfolding Map.get
on_tick-remembers_example =
    on_tick-remembers parse print in_order in_order-Permutes (2 ∷ 3 ∷ []) 500 600 7 20 timer_gossip
      news informed refl (omega arith)

parse-ParsesMaps : ParsesMaps parse
parse-ParsesMaps [] m e = ground (arith, e)
parse-ParsesMaps (b ∷ bs) m e = subst IsMap (some_eq remote m e) remote-IsMap

Reach-Grows_example :
    IsMap (on_message parse 20 news (set_entry "pos" "west" node)).state
    × Grows parse print in_order in_order-Permutes node
        (on_message parse 20 news (set_entry "pos" "west" node))
unfolding get_entry Map.get
Reach-Grows_example =
    Reach-Grows parse print in_order in_order-Permutes parse-ParsesMaps local-IsMap
      (next (next here (wrote "pos" "west" (omega arith))) (heard 20 news))
