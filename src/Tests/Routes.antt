-- ===== src/Tests/Routes.antt =====
-- Picking at concrete values.
use mini_envoy.Base.{refl, arith, List, [], ◌∷◌}
use mini_envoy.Base.Int.{pos}
use mini_envoy.Base.{ℕ, ◌<◌, ◌≤◌, ◌^◌, ◌≡◌, get_or}
use mini_envoy.Routing.Swrr.{zeros}
use mini_envoy.Routing.Swrr.Scan.{share, shares, sum}
use mini_envoy.Routing.Swrr.Fair.{pick_times, times, pick_times-shares}
use mini_envoy.Upstream.Endpoint.{down, Endpoint, new_endpoint, set_state, eligible}
use mini_envoy.Routing.Table.{swrr, rr, Route, pick_among}
use mini_envoy.Routing.Table.Picks.{IsEligible, IsSafe, found_by, pick_among-IsSafe}
use mini_envoy.Routing.Table.Found.{IsFound, pick_among-IsFound}

abbrev a : Endpoint
unfolding new_endpoint
a = new_endpoint "a" (127 ∷ 0 ∷ 0 ∷ 1 ∷ []) (pos 9001) (pos 4)

-- The first member is down.
abbrev members : List Endpoint
members = set_state a down "dead" ∷ a ∷ []

abbrev route : Route
route = record {
  id = 1;
  name = "echo";
  algo = swrr;
  members = 0 ∷ 1 ∷ [];
  count = 6;
  current = pos 0 ∷ pos 0 ∷ [];
}

pick_among-IsSafe_example : IsSafe members (found_by (pick_among members route))
pick_among-IsSafe_example = pick_among-IsSafe members route

second : IsEligible members 1
unfolding a eligible
second = (a, refl, refl)

pick_among-IsFound_example : IsFound (found_by (pick_among members (record route { algo = rr })))
pick_among-IsFound_example =
    pick_among-IsFound members (record route { algo = rr }) 1 second (omega arith)

-- The first is down; the second has weight 4, the third a configured weight of 0, which counts as 1.
abbrev b : Endpoint
unfolding new_endpoint
b = new_endpoint "b" (127 ∷ 0 ∷ 0 ∷ 1 ∷ []) (pos 9002) (pos 0)

abbrev round : List Endpoint
round = set_state a down "dead" ∷ a ∷ b ∷ []

some_up : 0 < sum (shares round)
unfolding sum shares share eligible a b
some_up = omega arith

light : sum (shares round) ≤ 2 ^ 31
unfolding sum shares share eligible a b
light = omega arith

pick_times-shares_example :
    ((i : ℕ)
      → times i (pick_times (sum (shares round)) round (zeros 3)).0 ≡ get_or (shares round) i 0)
    × ((pick_times (sum (shares round)) round (zeros 3)).1 ≡ zeros 3)
pick_times-shares_example = pick_times-shares round some_up light
