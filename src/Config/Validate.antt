-- ===== src/Config/Validate.antt =====
-- internal/config/validate.go: `Validate`, `parseBind` and `IsLoopbackBind`; and `Load` of config.go
-- and `MustRemoteToken` of reload.go. An error is named by its message. The maps `seen` and `rids` are
-- the lists of their keys. `net.SplitHostPort`, `os.ReadFile` and `yaml.Unmarshal` are parameters.
pub mod Sound
pub mod Accepted
pub mod Complete
pub mod Loaded
use Prim.Native.String.{String}
use text.Mathlib.Text.{◌==◌ as str_eq}
use mini_envoy.Base.{ℕ, ◌==◌, ◌⊎◌, inl, inr, Bool, true, false, not, ◌&&◌, ◌||◌, ltb}
use mini_envoy.Base.{List, [], ◌∷◌, Option, none, some, if◌then◌else◌}
use mini_envoy.Base.Int.{ℤ, pos, ltb_ℤ, eq_ℤ}
use mini_envoy.Protocol.Header.{max_payload_hard_cap}
use mini_envoy.Config.File.{File, Upstream, Route}
use mini_envoy.Config.Defaults.{apply_defaults}

pub data ConfigError : Type 0 where
  bad_version bad_reactors bad_port bad_max_payload bad_watermarks no_upstreams : ConfigError
  upstream_missing_field duplicate_upstream : String → ConfigError
  no_routes zero_route_id : ConfigError
  duplicate_route route_without_upstreams : ℕ → ConfigError
  unknown_upstream unknown_algorithm : ℕ → String → ConfigError
  bad_bind bad_file bad_yaml : ConfigError

-- Whether a key is in a map that is kept as the list of its keys.
unfoldable pub has_key : String → List String → Bool
has_key k [] = false
has_key k (j ∷ m) = if str_eq j k then true else has_key k m

unfoldable pub has_id : ℕ → List ℕ → Bool
has_id k [] = false
has_id k (j ∷ m) = if j == k then true else has_id k m

-- `p < 1 || p > 65535`
abbrev pub port_out : ℤ → Bool
port_out p = ltb_ℤ p (pos 1) || ltb_ℤ (pos 65535) p

abbrev pub missing_field : Upstream → Bool
missing_field u = str_eq u.id "" || str_eq u.host "" || port_out u.port

-- The loop over the upstreams: the first error, or the ids seen.
unfoldable pub check_upstreams : List Upstream → List String → ConfigError ⊎ List String
unfolding has_key
check_upstreams [] seen = inr seen
check_upstreams (u ∷ us) seen =
    let rest = check_upstreams us (u.id ∷ seen) in
    if missing_field u
    then inl (upstream_missing_field u.id)
    else if has_key u.id seen
    then inl (duplicate_upstream u.id)
    else rest

-- The loop over the upstreams of a route: the first id that is not known.
unfoldable pub first_unknown : List String → List String → Option String
unfolding has_key
first_unknown [] seen = none
first_unknown (i ∷ is) seen =
    let rest = first_unknown is seen in if has_key i seen then rest else some i

unfoldable pub known_algorithm : String → Bool
known_algorithm s = str_eq s "" || str_eq s "rr" || str_eq s "swrr" || str_eq s "weighted"

abbrev pub is_empty {ℓ} : {A : Type ℓ} → List A → Bool
is_empty [] = true
is_empty (x ∷ xs) = false

-- What follows the loop over the upstreams of a route.
unfoldable pub check_algorithm : Route → Option String → Option ConfigError
unfolding known_algorithm
check_algorithm r (some i) = some (unknown_upstream r.id i)
check_algorithm r none =
    if known_algorithm r.algorithm then none else some (unknown_algorithm r.id r.algorithm)

-- One route, after its id was put among `rids`.
unfoldable pub check_route : Route → List String → Option ConfigError
unfolding first_unknown check_algorithm
check_route r seen =
    if is_empty r.upstreams
    then some (route_without_upstreams r.id)
    else check_algorithm r (first_unknown r.upstreams seen)

-- The first error of two checks.
abbrev pub then_check : Option ConfigError → Option ConfigError → Option ConfigError
then_check (some e) rest = some e
then_check none rest = rest

unfoldable pub check_routes : List Route → List String → List ℕ → Option ConfigError
unfolding check_route has_id
check_routes [] seen rids = none
check_routes (r ∷ rs) seen rids =
    let rest = check_routes rs seen (r.id ∷ rids) in
    if r.id == 0
    then some zero_route_id
    else if has_id r.id rids
    then some (duplicate_route r.id)
    else then_check (check_route r seen) rest

module _ (split_host_port : String → Option (String × String)) where
  unfoldable pub parse_bind : String → Option (String × String)
  parse_bind bind = split_host_port bind

  unfoldable pub check_bind : String → Option ConfigError
  unfolding parse_bind
  check_bind bind = elim (parse_bind bind) [ none ↦ some bad_bind | some hp ↦ none ]

  -- What follows the loop over the upstreams.
  unfoldable pub check_rest : File → ConfigError ⊎ List String → Option ConfigError
  unfolding check_routes check_bind
  check_rest f (inl e) = some e
  check_rest f (inr seen) =
      if is_empty f.routes
      then some no_routes
      else then_check (check_routes f.routes seen []) (check_bind f.admin.bind)

  -- `none` is a nil error.
  unfoldable pub validate : File → Option ConfigError
  unfolding check_upstreams check_rest
  validate f =
      if not (eq_ℤ f.version (pos 1))
      then some bad_version
      else if ltb_ℤ f.reactors (pos 1) || ltb_ℤ (pos 64) f.reactors
      then some bad_reactors
      else if port_out f.listen.port
      then some bad_port
      else if f.buffer.max_payload == 0 || ltb max_payload_hard_cap f.buffer.max_payload
      then some bad_max_payload
      else if not (ltb_ℤ (pos 0) f.buffer.low_water)
          || not (ltb_ℤ f.buffer.low_water f.buffer.high_water)
      then some bad_watermarks
      else if is_empty f.upstreams
      then some no_upstreams
      else check_rest f (check_upstreams f.upstreams [])

  abbrev pub accept : File → Option ConfigError → ConfigError ⊎ File
  accept f none = inr f
  accept f (some e) = inl e

  -- `Load` on a file that was read and parsed.
  unfoldable pub load_parsed : Option File → ConfigError ⊎ File
  unfolding apply_defaults validate
  load_parsed none = inl bad_yaml
  load_parsed (some f) = accept (apply_defaults f) (validate (apply_defaults f))

  unfoldable pub load :
      (String → Option (List ℕ)) → (List ℕ → Option File) → String → ConfigError ⊎ File
  unfolding load_parsed
  load read_file unmarshal path = elim (read_file path) [
    | none ↦ inl bad_file
    | some raw ↦ load_parsed (unmarshal raw)
  ]

  -- The host is an address for `net.ParseIP`, which says whether it is a loopback one, or a name.
  module _ (parse_ip_loopback : String → Option Bool) (equal_fold : String → String → Bool) where
    unfoldable pub is_loopback_bind : String → Bool
    unfolding parse_bind
    is_loopback_bind bind = elim (parse_bind bind) [
      | none ↦ false
      | some (host, port) ↦ elim (parse_ip_loopback host) [
        | some b ↦ b
        | none ↦ equal_fold host "localhost"
      ]
    ]

    -- `false` is the error. The token is what the environment holds.
    unfoldable pub must_remote_token : String → String → Bool
    unfolding is_loopback_bind
    must_remote_token token bind =
        if is_loopback_bind bind then true else if str_eq token "" then false else true
