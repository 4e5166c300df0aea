-- ===== src/Routing/Table.antt =====
-- internal/routing/table.go. A pointer to an endpoint is an index into the store of all endpoints,
-- and one to a route an index into the store of all routes.
pub mod Picks
pub mod Found
use Prim.Native.String.{String}
use text.Mathlib.Text.{◌==◌ as str_eq}
use mini_envoy.Base.{ℕ, zero, suc, ◌||◌, List, [], ◌∷◌, Option, none, some, length, ◌==◌, Bool}
use mini_envoy.Base.{if◌then◌else◌, get_elem?, true, false}
use mini_envoy.Base.Int.{ℤ, pos, negsuc, ◌+ℤ◌, rem}
use mini_envoy.Upstream.Endpoint.{Endpoint, eligible}
use mini_envoy.Upstream.Registry.{Ptr, Store}
use mini_envoy.Routing.RoundRobin.{rr_next}
use mini_envoy.Routing.Swrr.{pick_swrr, zeros}

pub data Algorithm : Type 0 where
  rr swrr : Algorithm

unfoldable pub parse_algo : String → Algorithm
parse_algo s = if str_eq s "swrr" || str_eq s "weighted" then swrr else rr

unfoldable pub algo_name : Algorithm → String
algo_name swrr = "swrr"
algo_name rr = "rr"

-- `count` is the counter of the field `rr`, `current` the counters of the field `swrr`.
pub record Route : Type 0 where
  pub id : ℕ
  pub name : String
  pub algo : Algorithm
  pub members : List Ptr
  pub count : ℕ
  pub current : List ℤ

unfoldable pub init : Route → Route
init r = record r { count = 0; current = zeros (length r.members) }

-- What a Go call comes to: a value, or a run-time panic.
pub data Run {ℓ} (A : Type ℓ) : Type ℓ where
  done : A → Run A
  panic : Run A

-- The endpoints that the pointers lead to. A pointer leads to an endpoint of the store; one that does
-- not, which is not met, is left out.
unfoldable pub deref : Store → List Ptr → List Endpoint
deref eps [] = []
deref eps (p ∷ ps) = elim (get_elem? eps p) [ none ↦ deref eps ps | some e ↦ e ∷ deref eps ps ]

abbrev pub or_panic {ℓ} : {A : Type ℓ} → Option A → Run A
or_panic none = panic
or_panic (some x) = done x

-- `members[i]` at a Go index: a negative one, or one past the end, panics.
unfoldable pub member_at {ℓ} : {A : Type ℓ} → List A → ℤ → Run A
member_at xs (pos i) = or_panic (get_elem? xs i)
member_at xs (negsuc _) = panic

-- One round of the loop of `Pick`, with what the rounds behind it come to.
unfoldable pub probe_member : Run Endpoint → ℤ → Run (Option ℤ) → Run (Option ℤ)
probe_member panic at rest = panic
probe_member (done ep) at rest = if eligible ep then done (some at) else rest

-- The loop of `Pick`, with `k` rounds left: the index of the first eligible member from `start + i`
-- on, going round.
unfoldable pub probe_from : List Endpoint → ℤ → ℕ → ℕ → Run (Option ℤ)
unfolding member_at rem probe_member
probe_from eps start i zero = done none
probe_from eps start i (suc k) =
    let at = rem (start +ℤ pos i) (length eps) in
    let rest = probe_from eps start (suc i) k in probe_member (member_at eps at) at rest

abbrev pub is_swrr : Algorithm → Bool
is_swrr swrr = true
is_swrr rr = false

-- The route with its counter set, beside what the loop found.
unfoldable pub counted : Route → ℕ → Run (Option ℤ) → Run (Route × Option ℤ)
counted r n panic = panic
counted r n (done found) = done (record r { count = n }, found)

-- The round-robin half of `Pick`.
unfoldable pub pick_rr : List Endpoint → Route → Run (Route × Option ℤ)
unfolding probe_from counted
pick_rr eps r =
    let (n, start) = rr_next r.count (length eps) in
    counted r n (probe_from eps start 0 (length eps))

-- What follows the weighted pick: where it found a member, that is the answer; otherwise round robin
-- has its turn.
unfoldable pub or_round_robin : List Endpoint → Route → Option ℕ → Run (Route × Option ℤ)
unfolding pick_rr
or_round_robin eps r (some i) = done (r, some (pos i))
or_round_robin eps r none = pick_rr eps r

-- The weighted half.
unfoldable pub pick_weighted : List Endpoint → Route → Run (Route × Option ℤ)
unfolding or_round_robin
pick_weighted eps r =
    let (cs, found) = pick_swrr eps r.current in
    or_round_robin eps (record r { current = cs }) found

-- `Pick`: the route after the call, and the index of the member that is returned.
unfoldable pub pick_among : List Endpoint → Route → Run (Route × Option ℤ)
unfolding pick_rr pick_weighted
pick_among [] r = done (r, none)
pick_among (ep ∷ eps) r =
    if is_swrr r.algo then pick_weighted (ep ∷ eps) r else pick_rr (ep ∷ eps) r

-- The pointer that is returned.
unfoldable pub pick : Store → Route → Run (Route × Option Ptr)
unfolding pick_among member_at
pick eps r = elim (pick_among (deref eps r.members) r) [
  | panic ↦ panic
  | done (r', none) ↦ done (r', none)
  | done (r', some i) ↦ elim (member_at r.members i) [ panic ↦ panic | done p ↦ done (r', some p) ]
]

-- The table: a Go map from ids to routes, as an association list.
abbrev pub Table : Type 0
Table = List (ℕ × Route)

abbrev pub put_route : Route → Table → Table
put_route r [] = (r.id, r) ∷ []
put_route r ((i, x) ∷ t) = if i == r.id then (i, r) ∷ t else (i, x) ∷ put_route r t

unfoldable pub insert_all : List Route → Table → Table
unfolding init
insert_all [] t = t
insert_all (r ∷ rs) t = insert_all rs (put_route (init r) t)

unfoldable pub new_table : List Route → Table
unfolding insert_all
new_table rs = insert_all rs []

unfoldable pub lookup : Table → ℕ → Option Route
lookup [] id = none
lookup ((i, r) ∷ t) id = if i == id then some r else lookup t id

-- `All`, in the order of the association list: a Go map has none.
unfoldable pub all_routes : Table → List Route
all_routes [] = []
all_routes ((i, r) ∷ t) = r ∷ all_routes t
