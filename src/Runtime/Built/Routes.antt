-- ===== src/Runtime/Built/Routes.antt =====
-- The routes, and how a reactor finds them by their ids.
use Prim.Native.String.{String}
use mathlib.Core.Path.{subst}
use mini_envoy.Base.{
  arith, ℕ, ◌≡◌, inl, inr, ◌⊎◌, refl, sym, ap, ap₂, ◌∙◌, List, [], ◌∷◌, map, true, false,
}
use mini_envoy.Base.{
  Option, none, some, if◌then◌else◌, if_true, if_false, Bool-cases, All, Elem, here, there,
  Distinct, get_elem?, ◌==◌, ==_iff,
}
use mini_envoy.Config.File as File
use mini_envoy.Config.Validate.Sound.{route_ids}
use mini_envoy.Upstream.Registry.{Ptr, Store}
use mini_envoy.Routing.Table.{Route, Table, init, parse_algo, put_route, insert_all, lookup}
use mini_envoy.Runtime.Build.{BuildError, members_of, both, new_route, build_routes}
use mini_envoy.Runtime.Built.Endpoints.{IsKeyed, Has}

-- The ids of the endpoints that pointers lead to.
abbrev pub id_at : Store → Ptr → Option String
id_at eps p = elim (get_elem? eps p) [ none ↦ none | some e ↦ some e.id ]

record IsMembers (eps : Store) (ids : List String) (o : Option (List Ptr)) : Type 0 where
  members : List Ptr
  result : o ≡ some members
  named : map (id_at eps) members ≡ map some ids

members_of-IsMembers :
    (eps : Store) (m : List (String × Ptr)) (ids : List String)
    → IsKeyed eps m
    → All (Has m) ids
    → IsMembers eps ids (members_of m ids)
unfolding members_of IsKeyed Has
members_of-IsMembers eps m [] k a = record { members = []; result = refl; named = refl }
members_of-IsMembers eps m (id ∷ ids) k ((p, at), a) =
    let rest = members_of-IsMembers eps m ids k a in
    let (e, leads, named) = k id p at in
    record {
      members = p ∷ rest.members;
      result = ap₂ both at rest.result;
      named =
          ap₂ ◌∷◌ (ap (λ o. elim o [ none ↦ none | some x ↦ some x.id ]) leads ∙ ap some named)
            rest.named;
    }

-- The route that was made of one of the configuration, and what it leads to.
pub record IsRouteOf (eps : Store) (r : File.Route) (rt : Route) : Type 0 where
  pub id_eq : rt.id ≡ r.id
  pub name_eq : rt.name ≡ r.name
  pub algo_eq : rt.algo ≡ parse_algo r.algorithm
  pub members_eq : map (id_at eps) rt.members ≡ map some r.upstreams

abbrev pub table_ids : List Route → List ℕ
table_ids rts = map (λ (rt : Route). rt.id) rts

pub record IsRouted (eps : Store) (rs : List File.Route) (o : BuildError ⊎ List Route)
    : Type 0 where
  pub made : List Route
  pub result : o ≡ inr made
  pub ids_eq : table_ids made ≡ route_ids rs
  pub each : (r : File.Route) → Elem r rs → (rt : Route) × Elem rt made × IsRouteOf eps r rt

pub build_routes-IsRouted :
    (eps : Store) (m : List (String × Ptr)) (rs : List File.Route)
    → IsKeyed eps m
    → All (λ (r : File.Route). All (Has m) r.upstreams) rs
    → IsRouted eps rs (build_routes m rs)
unfolding build_routes new_route
build_routes-IsRouted eps m [] k a = record {
  made = [];
  result = refl;
  ids_eq = refl;
  each = λ r p. elim p [ ];
}
build_routes-IsRouted eps m (r ∷ rs) k (a, rest_has) =
    let rest = build_routes-IsRouted eps m rs k rest_has in
    let ms = members_of-IsMembers eps m r.upstreams k a in
    record {
      made = new_route r ms.members ∷ rest.made;
      result = rw (ms.result, rest.result) refl;
      ids_eq = ap (◌∷◌ r.id) rest.ids_eq;
      each = every ms rest;
    }
  where
    every :
        (ms : IsMembers eps r.upstreams (members_of m r.upstreams))
        (rest : IsRouted eps rs (build_routes m rs))
        → (q : File.Route) → Elem q (r ∷ rs)
        → (rt : Route) × Elem rt (new_route r ms.members ∷ rest.made) × IsRouteOf eps q rt
    every ms rest q (here e) = (
      new_route r ms.members,
      here refl,
      subst (λ q. IsRouteOf eps q (new_route r ms.members)) (sym e)
          (record { id_eq = refl; name_eq = refl; algo_eq = refl; members_eq = ms.named }),
    )
    every ms rest q (there p) = let (rt, at, made) = rest.each q p in (rt, there at, made)

lookup-put_route :
    (t : Table) (r : Route) (id : ℕ)
    → lookup (put_route r t) id ≡ (if r.id == id then some r else lookup t id)
unfolding lookup
lookup-put_route [] r id = refl
lookup-put_route ((i, x) ∷ t) r id = elim (Bool-cases (i == r.id)) [
  | inl e ↦ ap (λ u. lookup u id) (if_true _ _ e) ∙ over e
  | inr e ↦
      ap (λ u. lookup u id) (if_false _ _ e)
      ∙ ap (λ o. if i == id then some x else o) (lookup-put_route t r id)
      ∙ apart e
]
  where
    over :
        (i == r.id) ≡ true
        → (if i == id then some r else lookup t id)
          ≡ (if r.id == id then some r else if i == id then some x else lookup t id)
    over e = ground arith

    apart :
        (i == r.id) ≡ false
        → (if i == id then some x else if r.id == id then some r else lookup t id)
          ≡ (if r.id == id then some r else if i == id then some x else lookup t id)
    apart e = ground arith

lookup-insert_all :
    (rs : List Route) (t : Table) (id : ℕ)
    → (Elem id (table_ids rs) → ⊥)
    → lookup (insert_all rs t) id ≡ lookup t id
unfolding insert_all init
lookup-insert_all [] t id h = refl
lookup-insert_all (r ∷ rs) t id h =
    lookup-insert_all rs (put_route (init r) t) id (λ p. h (there p))
    ∙ lookup-put_route t (init r) id
    ∙ if_false _ _ (other (Bool-cases (r.id == id)))
  where
    other : ((r.id == id) ≡ true) ⊎ ((r.id == id) ≡ false) → (r.id == id) ≡ false
    other (inl e) = absurd (h (here (sym ((==_iff r.id id).0 e))))
    other (inr e) = e

-- Where no id stands twice, each route is found under its own, as `Init` leaves it.
pub lookup-new_table :
    (rs : List Route) (t : Table) (rt : Route)
    → Distinct (table_ids rs)
    → Elem rt rs
    → lookup (insert_all rs t) rt.id ≡ some (init rt)
unfolding insert_all init
lookup-new_table [] t rt d p = elim p [ ]
lookup-new_table (r ∷ rs) t rt (new, d) (here e) =
    subst (λ q. lookup (insert_all rs (put_route (init r) t)) q.id ≡ some (init q)) (sym e)
      (lookup-insert_all rs (put_route (init r) t) r.id new
        ∙ lookup-put_route t (init r) r.id
        ∙ if_true _ _ ((==_iff r.id r.id).1 refl))
lookup-new_table (r ∷ rs) t rt (new, d) (there p) =
    lookup-new_table rs (put_route (init r) t) rt d p
