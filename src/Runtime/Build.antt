-- ===== src/Runtime/Build.antt =====
-- internal/app/runtime.go: what `Build` makes of a configuration: the endpoints, the registry, the
-- routes and the settings of the reactors. `resolve` is `config.ResolveIPv4` as it is called here,
-- and `opens` says whether `reactor.New` succeeds for a reactor. The metrics and the slab are left out.
use Prim.Native.String.{String}
use text.Mathlib.Text.{◌==◌ as str_eq}
use mini_envoy.Base.{
  ℕ, zero, suc, ◌-◌, ◌%◌, ◌^◌, ◌⊎◌, inl, inr, List, [], ◌∷◌, ◌++◌, length, Bool, true, false, ◌||◌,
}
use mini_envoy.Base.{Option, none, some, if◌then◌else◌}
use mini_envoy.Base.Int.{ℤ, pos, negsuc, pos_part}
use mini_envoy.Protocol.Errors.{text_bytes}
use mini_envoy.Config.File.{File, Upstream}
use mini_envoy.Config.File as File
use mini_envoy.Config.Defaults.{idle}
use mini_envoy.Upstream.Endpoint.{Endpoint, new_endpoint}
use mini_envoy.Upstream.Registry.{Ptr, Store, map_get, map_set, new_registry}
use mini_envoy.Routing.Table.{Route, parse_algo, new_table}
use mini_envoy.Socket.{parse_ipv4}
use mini_envoy.Runtime.{Runtime}

-- `holds_nil` is not an error of `Build`: it puts a nil pointer among the members of a route.
pub data BuildError : Type 0 where
  unresolved : String → BuildError
  bad_listen_ip : String → BuildError
  no_reactor : ℕ → BuildError
  holds_nil : ℕ → BuildError

unfoldable pub new_upstream : Upstream → List ℕ → Endpoint
unfolding new_endpoint
new_upstream u ip = record (new_endpoint u.id ip u.port u.weight) { host = u.host }

-- The pointers of a slice of endpoints that were made one after the other.
unfoldable pub pointers_from : ℕ → ℕ → List Ptr
pointers_from i zero = []
pointers_from i (suc n) = i ∷ pointers_from (suc i) n

abbrev pub both : Option Ptr → Option (List Ptr) → Option (List Ptr)
both none rest = none
both (some p) none = none
both (some p) (some ps) = some (p ∷ ps)

-- `byID[id]` for each id: `none` where one is not there, and the member is a nil pointer.
unfoldable pub members_of : List (String × Ptr) → List String → Option (List Ptr)
members_of by_id [] = some []
members_of by_id (id ∷ ids) = both (map_get id by_id) (members_of by_id ids)

unfoldable pub new_route : File.Route → List Ptr → Route
unfolding parse_algo
new_route r ms = record {
  id = r.id;
  name = r.name;
  algo = parse_algo r.algorithm;
  members = ms;
  count = 0;
  current = [];
}

-- The error or the first value, and what follows it.
abbrev pub and_then : {A B : Type 0} → BuildError ⊎ A → (A → BuildError ⊎ B) → BuildError ⊎ B
and_then (inl e) f = inl e
and_then (inr a) f = f a

abbrev pub or_error : {A : Type 0} → BuildError → Option A → BuildError ⊎ A
or_error e none = inl e
or_error e (some a) = inr a

-- The loop over the routes.
unfoldable pub build_routes : List (String × Ptr) → List File.Route → BuildError ⊎ List Route
unfolding members_of new_route
build_routes by_id [] = inr []
build_routes by_id (r ∷ rs) =
    let rest = build_routes by_id rs in
    and_then (or_error (holds_nil r.id) (members_of by_id r.upstreams))
      (λ ms. and_then rest (λ rts. inr (new_route r ms ∷ rts)))

-- What `reactor.New` is called with.
pub record ReactorConfig : Type 0 where
  pub id : ℕ
  pub listen_ip : List ℕ
  pub listen_port : ℤ
  pub backlog : ℤ
  pub high_water : ℤ
  pub low_water : ℤ
  pub max_payload : ℕ
  pub fail_n : ℕ
  pub pass_n : ℕ
  pub idle : ℤ

-- `uint64(n)` of an int
abbrev pub as_uint64 : ℤ → ℕ
as_uint64 (pos n) = n % 2 ^ 64
as_uint64 (negsuc n) = 2 ^ 64 - 1 - n % 2 ^ 64

-- The address to listen on. The fallback of the code is for a text that does not parse.
unfoldable pub listen_address : String → List ℕ × Bool → BuildError ⊎ List ℕ
listen_address s (ip, true) = inr ip
listen_address s (ip, false) =
    if str_eq s "0.0.0.0" || str_eq s "" then inr (0 ∷ 0 ∷ 0 ∷ 0 ∷ []) else inl (bad_listen_ip s)

unfoldable pub reactor_config : File → List ℕ → ℕ → ReactorConfig
unfolding idle
reactor_config cfg ip i = record {
  id = i;
  listen_ip = ip;
  listen_port = cfg.listen.port;
  backlog = cfg.listen.backlog;
  high_water = cfg.buffer.high_water;
  low_water = cfg.buffer.low_water;
  max_payload = cfg.buffer.max_payload;
  fail_n = as_uint64 cfg.health.fail_threshold;
  pass_n = as_uint64 cfg.health.pass_threshold;
  idle = idle cfg;
}

pub record Built : Type 0 where
  pub runtime : Runtime
  pub reactors : List ReactorConfig

module _ (resolve : String → Option (List ℕ)) (opens : ReactorConfig → Bool) where
  -- The loop over the upstreams, with `eps` and `byID` before it.
  unfoldable pub build_endpoints :
      List Upstream → Store → List (String × Ptr) → BuildError ⊎ (Store × List (String × Ptr))
  unfolding new_upstream
  build_endpoints [] eps by_id = inr (eps, by_id)
  build_endpoints (u ∷ us) eps by_id =
      and_then (or_error (unresolved u.id) (resolve u.host)) (λ ip.
        build_endpoints us (eps ++ (new_upstream u ip ∷ [])) (map_set u.id (length eps) by_id))

  -- The loop over the reactors, from number `i` on.
  unfoldable pub open_reactors : File → List ℕ → ℕ → ℕ → BuildError ⊎ List ReactorConfig
  unfolding reactor_config
  open_reactors cfg ip i zero = inr []
  open_reactors cfg ip i (suc n) =
      let rest = open_reactors cfg ip (suc i) n in
      if opens (reactor_config cfg ip i)
      then and_then rest (λ rxs. inr (reactor_config cfg ip i ∷ rxs))
      else inl (no_reactor i)

  unfoldable pub assemble : File → Store → List Route → Runtime
  unfolding new_table new_registry pointers_from
  assemble cfg eps rts = record {
    routes = new_table rts;
    ups = new_registry eps (pointers_from 0 (length eps));
    eps = eps;
  }

  unfoldable pub build : File → BuildError ⊎ Built
  unfolding build_endpoints build_routes listen_address open_reactors assemble parse_ipv4
  build cfg = and_then (build_endpoints cfg.upstreams [] []) (λ made.
      and_then (build_routes made.1 cfg.routes) (λ rts.
        and_then (listen_address cfg.listen.ip (parse_ipv4 (text_bytes cfg.listen.ip))) (λ ip.
          and_then (open_reactors cfg ip 0 (pos_part cfg.reactors))
            (λ rxs. inr (record { runtime = assemble cfg made.0 rts; reactors = rxs })))))
