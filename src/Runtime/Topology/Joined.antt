-- ===== src/Runtime/Topology/Joined.antt =====
-- The graph has no loose end.
use Prim.Native.String.{String}
use mini_envoy.Base.{ℕ, refl, List, map, All, Elem, here, there}
use mini_envoy.Base.Members.{
  Elem-left, Elem-right, Elem-flatten, Elem-map, All-append, All-map, All-flatten,
}
use mini_envoy.Metrics.{Floats, Overview}
use mini_envoy.Upstream.Endpoint.{Endpoint}
use mini_envoy.Routing.Table.{Route, deref, all_routes}
use mini_envoy.Runtime.{Runtime}
use mini_envoy.Runtime.Topology.{
  Node, Edge, topology, healthy_node, healthy_edge, reactor_id, route_id, pool_id, front_nodes,
  front_edges, reactor_node, reactor_edge, upstream_node, upstream_edge, route_nodes, entry_edge,
  route_edges, numbers_from,
}

module _ {F : Type 0} (fl : Floats F) (show : ℕ → String) where
  abbrev pub ids : List (Node F) → List String
  ids ns = map (λ (n : Node F). n.id) ns

  -- Both ends of an edge are nodes.
  abbrev pub IsJoined : List (Node F) → Edge F → Type 0
  IsJoined ns e = Elem e.from (ids ns) × Elem e.to (ids ns)

  -- Every edge of the graph leads from one of its nodes to one.
  pub topology-IsJoined :
      (ov : Overview F) (rt : Runtime)
      → All (IsJoined (topology fl show ov rt).nodes) (topology fl show ov rt).edges
  unfolding topology front_edges reactor_edge route_edges healthy_edge entry_edge upstream_edge
      front_nodes reactor_node route_nodes healthy_node upstream_node
  topology-IsJoined ov rt =
      All-append joined (front_edges fl show ov) _ ((here refl, gateway), tt)
        (All-append joined (map (reactor_edge fl show ov) (numbers_from 0 ov.reactors)) _
          (All-map joined (reactor_edge fl show ov) (numbers_from 0 ov.reactors)
            (λ i p. (gateway, reactor i p)))
          (All-flatten joined (route_edges fl show ov rt.eps) (all_routes rt.routes) route_joined))
    where
      ns : List (Node F)
      ns = (topology fl show ov rt).nodes

      joined : Edge F → Type 0
      joined = IsJoined ns

      named : (n : Node F) → Elem n ns → Elem n.id (ids ns)
      named n p = Elem-map (λ (m : Node F). m.id) n ns p

      gateway : Elem "gateway" (ids ns)
      gateway = there (here refl)

      reactor : (i : ℕ) → Elem i (numbers_from 0 ov.reactors) → Elem (reactor_id fl show i) (ids ns)
      reactor i p = named (reactor_node fl show ov i) (
          there (
            there (
              Elem-left _ _ _
                (Elem-map (reactor_node fl show ov) i (numbers_from 0 ov.reactors) p))))

      of_route :
          (r : Route)
          → Elem r (all_routes rt.routes)
          → (n : Node F) → Elem n (route_nodes fl show rt.eps r)
          → Elem n.id (ids ns)
      of_route r p n q = named n (
          there (
            there (
              Elem-right n _ _ (
                Elem-flatten n (route_nodes fl show rt.eps r) _
                  (Elem-map (route_nodes fl show rt.eps) r (all_routes rt.routes) p) q))))

      entry : (r : Route) → Elem r (all_routes rt.routes) → Elem (route_id fl show r) (ids ns)
      entry r p = of_route r p _ (here refl)

      pool : (r : Route) → Elem r (all_routes rt.routes) → Elem (pool_id fl show r) (ids ns)
      pool r p = of_route r p _ (there (here refl))

      member :
          (r : Route)
          → Elem r (all_routes rt.routes)
          → (e : Endpoint) → Elem e (deref rt.eps r.members)
          → Elem e.id (ids ns)
      member r p e q =
          of_route r p (upstream_node fl show e)
            (there (there (Elem-map (upstream_node fl show) e (deref rt.eps r.members) q)))

      route_joined :
          (r : Route) → Elem r (all_routes rt.routes) → All joined (route_edges fl show ov rt.eps r)
      route_joined r p =
          All-append joined (map (entry_edge fl show r) (numbers_from 0 ov.reactors)) _
            (All-map joined (entry_edge fl show r) (numbers_from 0 ov.reactors)
              (λ i q. (reactor i q, entry r p)))
            (
              (entry r p, pool r p),
              All-map joined (upstream_edge fl show r) (deref rt.eps r.members)
                  (λ e q. (pool r p, member r p e q)),
            )
