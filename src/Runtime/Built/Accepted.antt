-- ===== src/Runtime/Built/Accepted.antt =====
-- What `Build` makes of a configuration that `Validate` accepts.
use Prim.Native.String.{String}
use mini_envoy.Base.{
  ℕ, zero, suc, ◌≡◌, inl, inr, refl, sym, ap, ◌∙◌, arith, List, [], ◌∷◌, length, true, Bool,
}
use mini_envoy.Base.{Option, some, if_true, All, Elem, Distinct}
use mini_envoy.Base.Int.{pos_part}
use mathlib.Core.Path.{subst}
use mini_envoy.Protocol.Errors.{text_bytes}
use mini_envoy.Socket.{parse_ipv4}
use mini_envoy.Config.File.{File}
use mini_envoy.Config.File as File
use mini_envoy.Config.Validate.Sound.{IsRoute, upstream_ids, route_ids}
use mini_envoy.Config.Validate.Accepted.{IsAccepted, All-weaken}
use mini_envoy.Upstream.Registry.{Store}
use mini_envoy.Routing.Table.{Route, init, lookup, new_table}
use mini_envoy.Runtime.Build.{
  ReactorConfig, Built, build, listen_address, open_reactors, and_then, assemble, reactor_config,
}
use mini_envoy.Runtime.Built.Endpoints.{IsKeyed, Resolves, build_endpoints-IsMade}
use mini_envoy.Runtime.Built.Routes.{IsRouteOf, table_ids, build_routes-IsRouted, lookup-new_table}

no_keys-IsKeyed : IsKeyed [] []
unfolding IsKeyed
no_keys-IsKeyed id p h = ground arith

module _ (resolve : String → Option (List ℕ)) (opens : ReactorConfig → Bool) where
  open_reactors_all :
      (cfg : File) (ip : List ℕ) (i n : ℕ)
      → ((c : ReactorConfig) → opens c ≡ true)
      → (rxs : List ReactorConfig) × (open_reactors resolve opens cfg ip i n ≡ inr rxs)
        × (length rxs ≡ n)
  unfolding open_reactors
  open_reactors_all cfg ip i zero all = ([], refl, refl)
  open_reactors_all cfg ip i (suc n) all =
      let (rxs, opened, counted) = open_reactors_all cfg ip (suc i) n all in
      (
        reactor_config cfg ip i ∷ rxs,
        if_true _ _ (all (reactor_config cfg ip i))
            ∙ ap (λ o. and_then o (λ rs. inr (reactor_config cfg ip i ∷ rs))) opened,
        ap suc counted,
      )

  init-IsRouteOf :
      (eps : Store) (r : File.Route) (rt : Route) → IsRouteOf eps r rt → IsRouteOf eps r (init rt)
  unfolding init
  init-IsRouteOf eps r rt w = record {
    id_eq = w.id_eq;
    name_eq = w.name_eq;
    algo_eq = w.algo_eq;
    members_eq = w.members_eq;
  }

  pub build-IsRouteOf :
      (cfg : File) (ip : List ℕ)
      → IsAccepted cfg
      → All (Resolves resolve opens) cfg.upstreams
      → listen_address cfg.listen.ip (parse_ipv4 (text_bytes cfg.listen.ip)) ≡ inr ip
      → ((c : ReactorConfig) → opens c ≡ true)
      → (b : Built) × (build resolve opens cfg ≡ inr b)
        × (length b.reactors ≡ pos_part cfg.reactors)
        × ((r : File.Route)
            → Elem r cfg.routes
            → (rt : Route) × (lookup b.runtime.routes r.id ≡ some rt)
              × IsRouteOf b.runtime.eps r rt)
  unfolding build assemble new_table
  build-IsRouteOf cfg ip ok hosts listens all =
      let ups = build_endpoints-IsMade resolve opens cfg.upstreams [] [] no_keys-IsKeyed hosts in
      let known =
        All-weaken
          (λ (r : File.Route). λ (w : IsRoute (upstream_ids cfg.upstreams) r).
            All-weaken (λ id. λ p. ups.knows id (inl p)) r.upstreams w.2)
          cfg.routes ok.routes.1 in
      let rts = build_routes-IsRouted ups.made.0 ups.made.1 cfg.routes ups.keyed known in
      let (rxs, opened, counted) = open_reactors_all cfg ip 0 (pos_part cfg.reactors) all in
      (
        record { runtime = assemble resolve opens cfg ups.made.0 rts.made; reactors = rxs },
        rw (ups.result, rts.result, listens, opened) refl,
        counted,
        λ r p. found ups.made.0 rts.made rts.ids_eq r (rts.each r p),
      )
    where
      found :
          (eps : Store) (made : List Route)
          → table_ids made ≡ route_ids cfg.routes
          → (r : File.Route) → (rt : Route) × Elem rt made × IsRouteOf eps r rt
          → (rt : Route) × (lookup (new_table made) r.id ≡ some rt) × IsRouteOf eps r rt
      found eps made e r (rt, at, is_made) = (
        init rt,
        ap (lookup (new_table made)) (sym is_made.id_eq)
            ∙ lookup-new_table made [] rt (subst Distinct (sym e) ok.distinct_routes) at,
        init-IsRouteOf eps r rt is_made,
      )
