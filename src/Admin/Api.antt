-- ===== src/Admin/Api.antt =====
-- internal/admin/handlers.go, json.go and sse.go: the routes of the administrator's API and the bodies
-- of its answers, before they become JSON. What the mux answers to a request that no route fits is not
-- modelled. `overview` is what `Runtime.Overview` gives; the time of the health answer is left out.
use Prim.Native.String.{String}
use text.Mathlib.Text.{◌==◌ as str_eq}
use mini_envoy.Base.{ℕ, ◌&&◌, ◌||◌, Bool, List, [], ◌∷◌, map, Option, none, some, if◌then◌else◌}
use mini_envoy.Metrics.{Floats, Overview}
use mini_envoy.Runtime.{Runtime, RuntimeError, runtime_error_text, eject_upstream, restore_upstream}
use mini_envoy.Runtime.Views.{RouteView, UpstreamView, route_views, upstream_views, health}
use mini_envoy.Runtime.Topology.{Topology, topology}
use mini_envoy.Admin.{
  Request, token_ok, contains, reason_of, status_ok, status_unauthorized, status_not_found,
  status_conflict,
}

abbrev pub status_internal : ℕ
status_internal = 500

-- The handlers; `{id}` is given.
pub data Handler : Type 0 where
  healthz overview routes upstreams topology_view events : Handler
  eject restore : String → Handler

-- The patterns of `Handler`, on the method and the segments of the path.
unfoldable pub handler_get : List String → Option Handler
handler_get (a ∷ []) = if str_eq a "healthz" then some healthz else none
handler_get (a ∷ b ∷ c ∷ []) =
    if str_eq a "api" && str_eq b "v1"
    then if str_eq c "overview"
      then some overview
      else if str_eq c "routes"
      then some routes
      else if str_eq c "upstreams"
      then some upstreams
      else if str_eq c "topology"
      then some topology_view
      else if str_eq c "events"
      then some events
      else none
    else none
handler_get _ = none

unfoldable pub handler_post : List String → Option Handler
handler_post (a ∷ b ∷ c ∷ id ∷ d ∷ []) =
    if str_eq a "api" && (str_eq b "v1" && str_eq c "upstreams")
    then if str_eq d "eject"
      then some (eject id)
      else if str_eq d "restore"
      then some (restore id)
      else none
    else none
handler_post _ = none

-- A pattern for GET takes HEAD too.
unfoldable pub handler_of : String → List String → Option Handler
unfolding handler_get handler_post
handler_of method path =
    if str_eq method "GET" || str_eq method "HEAD"
    then handler_get path
    else if str_eq method "POST"
    then handler_post path
    else none

-- One event of the stream.
pub record Snapshot (F : Type 0) : Type 0 where
  pub overview : Overview F
  pub topology : Topology F
  pub upstreams : List UpstreamView

pub data Body (F : Type 0) : Type 0 where
  health_body : (reactors upstreams : ℕ) → Body F
  overview_body : Overview F → Body F
  routes_body : List RouteView → Body F
  upstreams_body : List UpstreamView → Body F
  topology_body : Topology F → Body F
  stream_body : List (Snapshot F) → Body F
  done_body : (id state : String) → Body F
  error_body : (code message : String) → Body F

pub record Answer (F : Type 0) : Type 0 where
  pub status : ℕ
  pub body : Body F

abbrev pub ok : {F : Type 0} → Body F → Answer F
ok b = record { status = status_ok; body = b }

abbrev pub failed : {F : Type 0} → ℕ → (code message : String) → Answer F
failed status code message = record { status = status; body = error_body code message }

-- What the handlers of the operations answer: the state that a success reports, or the error.
unfoldable pub operated :
    {F : Type 0} → (id state : String) → Option RuntimeError × Runtime → Answer F × Runtime
unfolding runtime_error_text
operated id state (none, rt) = (ok (done_body id state), rt)
operated id state (some e, rt) = (
  if contains (runtime_error_text e) "not found"
      then failed status_not_found "not_found" (runtime_error_text e)
      else failed status_conflict "conflict" (runtime_error_text e),
  rt,
)

unfoldable pub unauthorized : {F : Type 0} → Answer F
unauthorized = failed status_unauthorized "unauthorized" "missing or invalid admin token"

-- `auth`
unfoldable pub auth :
    {F : Type 0} → String → Request → (Runtime → Answer F × Runtime) → Runtime → Answer F × Runtime
unfolding unauthorized
auth token r next rt = if token_ok r token then next rt else (unauthorized, rt)

module _ {F : Type 0} (fl : Floats F) (show : ℕ → String) (token : String)
    (trim : String → String) where
  unfoldable pub snapshot : Overview F × Runtime → Snapshot F
  unfolding topology upstream_views
  snapshot (ov, rt) = record {
    overview = ov;
    topology = topology fl show ov rt;
    upstreams = upstream_views rt;
  }

  -- The stream: a snapshot at once, and one at each tick until the client goes.
  unfoldable pub stream : Bool → Overview F → Runtime → List (Overview F × Runtime) → Answer F
  unfolding snapshot
  stream flushes ov rt ticks =
      if flushes
      then ok (stream_body (snapshot (ov, rt) ∷ map snapshot ticks))
      else failed status_internal "internal_error" "streaming unsupported"

  -- What a handler does once it is reached. `reactors` are those of the runtime.
  unfoldable pub run_handler :
      Handler
      → Request
      → (reactors : List ℕ) → Bool
      → Overview F
      → List (Overview F × Runtime)
      → Runtime
      → Answer F × Runtime
  unfolding health route_views upstream_views topology stream operated eject_upstream
      restore_upstream
  run_handler healthz r rs flushes ov ticks rt =
      (ok (health_body (health rt rs).0 (health rt rs).1), rt)
  run_handler overview r rs flushes ov ticks rt = (ok (overview_body ov), rt)
  run_handler routes r rs flushes ov ticks rt = (ok (routes_body (route_views rt)), rt)
  run_handler upstreams r rs flushes ov ticks rt = (ok (upstreams_body (upstream_views rt)), rt)
  run_handler topology_view r rs flushes ov ticks rt =
      (ok (topology_body (topology fl show ov rt)), rt)
  run_handler events r rs flushes ov ticks rt = (stream flushes ov rt ticks, rt)
  run_handler (eject id) r rs flushes ov ticks rt =
      operated id "ejected" (eject_upstream rt id (reason_of token trim r))
  run_handler (restore id) r rs flushes ov ticks rt = operated id "probing" (restore_upstream rt id)

  -- The handler as it was registered: all but the health check under `auth`.
  unfoldable pub registered :
      Handler
      → Request
      → (reactors : List ℕ) → Bool
      → Overview F
      → List (Overview F × Runtime)
      → Runtime
      → Answer F × Runtime
  unfolding run_handler auth
  registered healthz r rs flushes ov ticks = run_handler healthz r rs flushes ov ticks
  registered overview r rs flushes ov ticks =
      auth token r (run_handler overview r rs flushes ov ticks)
  registered routes r rs flushes ov ticks = auth token r (run_handler routes r rs flushes ov ticks)
  registered upstreams r rs flushes ov ticks =
      auth token r (run_handler upstreams r rs flushes ov ticks)
  registered topology_view r rs flushes ov ticks =
      auth token r (run_handler topology_view r rs flushes ov ticks)
  registered events r rs flushes ov ticks = auth token r (run_handler events r rs flushes ov ticks)
  registered (eject id) r rs flushes ov ticks =
      auth token r (run_handler (eject id) r rs flushes ov ticks)
  registered (restore id) r rs flushes ov ticks =
      auth token r (run_handler (restore id) r rs flushes ov ticks)

  -- `none` is a request that the mux answers itself.
  unfoldable pub serve :
      (method : String)
      → (path : List String) → Request
      → (reactors : List ℕ) → Bool
      → Overview F
      → List (Overview F × Runtime)
      → Runtime
      → Option (Answer F) × Runtime
  unfolding handler_of registered
  serve method path r rs flushes ov ticks rt = elim (handler_of method path) [
    | none ↦ (none, rt)
    | some h ↦ let out = registered h r rs flushes ov ticks rt in (some out.0, out.1)
  ]
