-- ===== src/Config/Validate/Accepted.antt =====
-- What a configuration that `Validate` accepts satisfies.
use Prim.Native.String.{String}
use mini_envoy.Base.{◌≤◌, ◌<◌, ◌≡◌, ◌⊎◌, inl, inr, refl, List, [], ◌∷◌, ◌==◌}
use mini_envoy.Base.{arith, true, false, ◌||◌, not, Option-cases, Option, none, some}
use mini_envoy.Base.{length, All, Elem, Distinct, ltb}
use mini_envoy.Base.Int.{ℤ, pos, ltb_ℤ, ◌≤ℤ◌, eq_ℤ, eq_of_parts}
use mini_envoy.Protocol.Header.{max_payload_hard_cap}
use mini_envoy.Config.File.{File, Buffer, Upstream, Route}
use mini_envoy.Config.Validate.{
  ConfigError, port_out, check_upstreams, is_empty, check_routes, check_bind, parse_bind,
  check_rest, validate,
}
use mini_envoy.Config.Validate.Sound.{
  IsPort, IsUpstream, IsRoute, past_guard, port_lem, not_empty, then_check_both, upstream_ids,
  route_ids, Checked, Routed, check_upstreams-Checked, check_routes-Routed,
}

-- A buffer whose low water mark is positive and below the high one, and whose payloads the protocol
-- allows.
abbrev pub IsBuffer : Buffer → Type 0
IsBuffer b =
    (0 < b.max_payload)
    × (b.max_payload ≤ max_payload_hard_cap)
    × (pos 1 ≤ℤ b.low_water)
    × (ltb_ℤ b.low_water b.high_water ≡ true)

-- The listener, the sizes and the counts are in range; every upstream is well formed and no id stands
-- twice; every route has an id and members, all of them ids of upstreams, and no id stands twice.
pub record IsAccepted (f : File) : Type 0 where
  pub version : f.version ≡ pos 1
  pub reactors : (pos 1 ≤ℤ f.reactors) × (f.reactors ≤ℤ pos 64)
  pub port : IsPort f.listen.port
  pub buffer : IsBuffer f.buffer
  pub upstreams : (0 < length f.upstreams) × All IsUpstream f.upstreams
  pub distinct_upstreams : Distinct (upstream_ids f.upstreams)
  pub routes : (0 < length f.routes) × All (IsRoute (upstream_ids f.upstreams)) f.routes
  pub distinct_routes : Distinct (route_ids f.routes)

pub All-weaken :
    {A : Type 0} {P Q : A → Type 0} → ((a : A) → P a → Q a) → (xs : List A) → All P xs → All Q xs
All-weaken f [] h = tt
All-weaken f (x ∷ xs) h = (f x h.0, All-weaken f xs h.1)

unseen_none :
    (us : List Upstream) (s : List String)
    → Checked us [] s
    → (i : String) → Elem i s
    → Elem i (upstream_ids us)
unseen_none us s c i p = elim (c.known i p) [ inl q ↦ q | inr q ↦ elim q [ ] ]

pub route_weaken :
    (a b : List String)
    → ((i : String) → Elem i a → Elem i b)
    → (r : Route) → IsRoute a r
    → IsRoute b r
route_weaken a b sub r (nonzero, full, members, alg) =
    (nonzero, full, All-weaken sub r.upstreams members, alg)

module _ (split_host_port : String → Option (String × String)) where
  check_rest_lem :
      (f : File) (found : ConfigError ⊎ List String)
      → check_rest split_host_port f found ≡ none
      → (s : List String) × (found ≡ inr s)
        × (0 < length f.routes)
        × Routed f.routes s []
        × (check_bind split_host_port f.admin.bind ≡ none)
  unfolding check_rest
  check_rest_lem f (inl e) h = ground arith
  check_rest_lem f (inr s) h =
      let (full, h1) = past_guard (is_empty f.routes) _ _ h in
      let (routes, bind) = then_check_both (check_routes f.routes s []) _ h1 in
      (s, refl, not_empty f.routes full, check_routes-Routed f.routes s [] routes, bind)

  bind_lem :
      (bind : String)
      → check_bind split_host_port bind ≡ none
      → (hp : String × String) × (split_host_port bind ≡ some hp)
  unfolding check_bind parse_bind
  bind_lem bind h = elim (Option-cases (split_host_port bind)) [
    | inr p ↦ p
    | inl e ↦ ground (arith, e)
  ]

  -- A file that `Validate` returns a nil error for is accepted, and the address of the administrator's
  -- listener splits into a host and a port.
  pub validate-IsAccepted :
      (f : File)
      → validate split_host_port f ≡ none
      → IsAccepted f × ((hp : String × String) × (split_host_port f.admin.bind ≡ some hp))
  unfolding validate
  validate-IsAccepted f h =
      let (version, h1) = past_guard (not (eq_ℤ f.version (pos 1))) _ _ h in
      let (reactors, h2) =
        past_guard (ltb_ℤ f.reactors (pos 1) || ltb_ℤ (pos 64) f.reactors) _ _ h1 in
      let (port, h3) = past_guard (port_out f.listen.port) _ _ h2 in
      let (payload, h4) =
        past_guard (f.buffer.max_payload == 0 || ltb max_payload_hard_cap f.buffer.max_payload) _ _
          h3 in
      let (marks, h5) =
        past_guard
          (not (ltb_ℤ (pos 0) f.buffer.low_water)
            || not (ltb_ℤ f.buffer.low_water f.buffer.high_water))
          _ _ h4 in
      let (full, h6) = past_guard (is_empty f.upstreams) _ _ h5 in
      let (s, found, any, routed, bind) = check_rest_lem f (check_upstreams f.upstreams []) h6 in
      let checked = check_upstreams-Checked f.upstreams [] s found in
      (
        record {
          version = version_lem f.version version;
          reactors = range_lem f.reactors reactors;
          port = port_lem f.listen.port port;
          buffer = buffer_lem f.buffer payload marks;
          upstreams = (not_empty f.upstreams full, checked.each);
          distinct_upstreams = checked.distinct;
          routes = (
            any,
            All-weaken
                (route_weaken s (upstream_ids f.upstreams) (unseen_none f.upstreams s checked))
                f.routes routed.each,
          );
          distinct_routes = routed.distinct;
        },
        bind_lem f.admin.bind bind,
      )
    where
      version_lem : (v : ℤ) → not (eq_ℤ v (pos 1)) ≡ false → v ≡ pos 1
      version_lem v h = eq_of_parts v (pos 1) (ground arith)

      range_lem :
          (n : ℤ) → (ltb_ℤ n (pos 1) || ltb_ℤ (pos 64) n) ≡ false → (pos 1 ≤ℤ n) × (n ≤ℤ pos 64)
      range_lem n h = ground arith

      buffer_lem :
          (b : Buffer)
          → (b.max_payload == 0 || ltb max_payload_hard_cap b.max_payload) ≡ false
          → (not (ltb_ℤ (pos 0) b.low_water) || not (ltb_ℤ b.low_water b.high_water)) ≡ false
          → IsBuffer b
      buffer_lem b p m = ground arith
