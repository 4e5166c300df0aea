-- ===== src/Runtime/Topology.antt =====
-- internal/app/runtime.go: the graph that the administrator's page draws. `show` is the `%d` of
-- `fmt.Sprintf`; the time of the collection is left out.
pub mod Joined
use Prim.Native.String.{String}
use Prim.Native.String.{◌++◌ as str_append}
use mini_envoy.Base.{
  ℕ, zero, suc, ◌*◌, List, [], ◌∷◌, ◌++◌, map, Option, none, some, length, get_or, get_elem?, ltb,
  max, if◌then◌else◌,
}
use mini_envoy.Base.Members.{flatten}
use mini_envoy.Base.Int.{ℤ, pos}
use mini_envoy.Metrics.{Floats, Overview}
use mini_envoy.Upstream.Endpoint.{Endpoint, state_name}
use mini_envoy.Upstream.Registry.{Store}
use mini_envoy.Routing.Table.{Route, algo_name, deref, all_routes}
use mini_envoy.Runtime.{Runtime}

-- A value of the map of statistics.
pub data Stat (F : Type 0) : Type 0 where
  int : ℤ → Stat F
  uint : ℕ → Stat F
  float : F → Stat F
  text : String → Stat F

pub record Node (F : Type 0) : Type 0 where
  pub id : String
  pub kind : String
  pub label : String
  pub status : String
  pub reason : String
  pub stats : List (String × Stat F)

pub record Edge (F : Type 0) : Type 0 where
  pub id : String
  pub from : String
  pub to : String
  pub pps : F
  pub bps : F
  pub status : String

pub record Topology (F : Type 0) : Type 0 where
  pub nodes : List (Node F)
  pub edges : List (Edge F)

-- `0, 1, …` up to a bound that is not among them, from `i` on
unfoldable pub numbers_from : ℕ → ℕ → List ℕ
numbers_from i zero = []
numbers_from i (suc n) = i ∷ numbers_from (suc i) n

module _ {F : Type 0} (fl : Floats F) (show : ℕ → String) where
  abbrev pub no_rate : F
  no_rate = fl.of_uint 0

  unfoldable pub healthy_node : (id kind label : String) → List (String × Stat F) → Node F
  healthy_node id kind label stats = record {
    id = id;
    kind = kind;
    label = label;
    status = "healthy";
    reason = "";
    stats = stats;
  }

  unfoldable pub healthy_edge : (id from to : String) → (pps bps : F) → Edge F
  healthy_edge id from to pps bps = record {
    id = id;
    from = from;
    to = to;
    pps = pps;
    bps = bps;
    status = "healthy";
  }

  unfoldable pub reactor_id : ℕ → String
  reactor_id i = str_append "reactor-" (show i)

  unfoldable pub route_id : Route → String
  route_id r = str_append "route-" (show r.id)

  unfoldable pub pool_id : Route → String
  unfolding route_id
  pool_id r = str_append (route_id r) "-pool"

  unfoldable pub front_nodes : Overview F → List (Node F)
  unfolding healthy_node
  front_nodes ov =
      healthy_node "clients" "client" "Clients" (("conns", int ov.conns) ∷ [])
      ∷ healthy_node "gateway" "gateway" "Mini Envoy"
          (("reactors", int (pos ov.reactors)) ∷ ("in_pps", float ov.in_pps) ∷ [])
      ∷ []

  unfoldable pub front_edges : Overview F → List (Edge F)
  unfolding healthy_edge
  front_edges ov = healthy_edge "e-client-gw" "clients" "gateway" ov.in_pps ov.in_bps ∷ []

  unfoldable pub reactor_node : Overview F → ℕ → Node F
  unfolding healthy_node reactor_id
  reactor_node ov i =
      let load =
        if ltb i (length ov.reactor_load) then get_or ov.reactor_load i no_rate else no_rate in
      healthy_node (reactor_id i) "reactor" (reactor_id i) (("load", float load) ∷ [])

  unfoldable pub reactor_edge : Overview F → ℕ → Edge F
  unfolding healthy_edge reactor_id
  reactor_edge ov i =
      healthy_edge (str_append "e-gw-" (reactor_id i)) "gateway" (reactor_id i)
        (fl.div ov.in_pps (fl.of_int (pos (max ov.reactors 1)))) no_rate

  unfoldable pub upstream_node : Endpoint → Node F
  unfolding state_name
  upstream_node ep = record {
    id = ep.id;
    kind = "upstream";
    label = ep.id;
    status = state_name ep.state;
    reason = ep.reason;
    stats = ("active", int ep.active) ∷ ("fails", uint ep.fails) ∷ ("weight", int ep.weight) ∷ [];
  }

  unfoldable pub upstream_edge : Route → Endpoint → Edge F
  unfolding pool_id state_name
  upstream_edge r ep = record {
    id = str_append "e-pool-" ep.id;
    from = pool_id r;
    to = ep.id;
    pps = no_rate;
    bps = fl.of_uint ep.out_bytes;
    status = state_name ep.state;
  }

  -- One round of the loop over the routes.
  unfoldable pub route_nodes : Store → Route → List (Node F)
  unfolding healthy_node upstream_node route_id pool_id algo_name
  route_nodes eps r =
      healthy_node (route_id r) "route"
        (str_append r.name (str_append " (#" (str_append (show r.id) ")")))
        (("algorithm", text (algo_name r.algo)) ∷ [])
      ∷ healthy_node (pool_id r) "pool" (str_append "Pool " r.name) []
      ∷ map upstream_node (deref eps r.members)

  unfoldable pub entry_edge : Route → ℕ → Edge F
  unfolding healthy_edge reactor_id route_id
  entry_edge r i =
      healthy_edge (str_append "e-r" (str_append (show i) (str_append "-" (route_id r))))
        (reactor_id i) (route_id r) no_rate no_rate

  unfoldable pub route_edges : Overview F → Store → Route → List (Edge F)
  unfolding healthy_edge entry_edge upstream_edge route_id pool_id numbers_from
  route_edges ov eps r =
      map (entry_edge r) (numbers_from 0 ov.reactors)
      ++ (healthy_edge (str_append "e-" (str_append (route_id r) "-pool")) (route_id r) (pool_id r)
            no_rate no_rate
          ∷ map (upstream_edge r) (deref eps r.members))

  unfoldable pub topology : Overview F → Runtime → Topology F
  unfolding front_nodes front_edges reactor_node reactor_edge route_nodes route_edges flatten
      numbers_from all_routes
  topology ov rt = record {
    nodes =
        front_nodes ov
        ++ (map (reactor_node ov) (numbers_from 0 ov.reactors)
            ++ flatten (map (route_nodes rt.eps) (all_routes rt.routes)));
    edges =
        front_edges ov
        ++ (map (reactor_edge ov) (numbers_from 0 ov.reactors)
            ++ flatten (map (route_edges ov rt.eps) (all_routes rt.routes)));
  }
