-- ===== src/Runtime/Views.antt =====
-- internal/app/runtime.go: what the administrator's pages show, of the types of
-- internal/metrics/types.go. The order of the routes is that of `all_routes`.
use Prim.Native.String.{String}
use mini_envoy.Base.{ℕ, List, map, some, length}
use mini_envoy.Base.Int.{ℤ}
use mini_envoy.Upstream.Endpoint.{Endpoint, state_name}
use mini_envoy.Upstream.Registry.{Store, all_of}
use mini_envoy.Routing.Table.{Route, algo_name, deref, all_routes}
use mini_envoy.Runtime.{Runtime}

pub record RouteView : Type 0 where
  pub id : ℕ
  pub name : String
  pub algorithm : String
  pub upstreams : List String

pub record UpstreamView : Type 0 where
  pub id : String
  pub host : String
  pub port : ℤ
  pub weight : ℤ
  pub state : String
  pub reason : String
  pub active : ℤ
  pub idle : ℤ
  pub queued : ℤ
  pub fails : ℕ
  pub in_bytes : ℕ
  pub out_bytes : ℕ

unfoldable pub route_view : Store → Route → RouteView
unfolding algo_name deref
route_view eps r = record {
  id = r.id;
  name = r.name;
  algorithm = algo_name r.algo;
  upstreams = map (λ (e : Endpoint). e.id) (deref eps r.members);
}

unfoldable pub route_views : Runtime → List RouteView
unfolding route_view all_routes
route_views rt = map (route_view rt.eps) (all_routes rt.routes)

unfoldable pub upstream_view : Endpoint → UpstreamView
unfolding state_name
upstream_view e = record {
  id = e.id;
  host = e.host;
  port = e.port;
  weight = e.weight;
  state = state_name e.state;
  reason = e.reason;
  active = e.active;
  idle = e.idle;
  queued = e.queued;
  fails = e.fails;
  in_bytes = e.in_bytes;
  out_bytes = e.out_bytes;
}

unfoldable pub upstream_views : Runtime → List UpstreamView
unfolding upstream_view all_of deref
upstream_views rt = map upstream_view (deref rt.eps (all_of (some rt.ups)))

-- The numbers of reactors and of upstreams.
unfoldable pub health : Runtime → List ℕ → ℕ × ℕ
unfolding all_of
health rt reactors = (length reactors, length (all_of (some rt.ups)))
