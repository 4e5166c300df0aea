-- ===== src/Admin/Closed.antt =====
-- What the administrator's API does for a request without the token.
use Prim.Native.String.{String}
use mini_envoy.Base.{
  ℕ, ◌≡◌, ◌≢◌, ◌⊎◌, inl, inr, refl, ap, List, Bool, false, Option, none, some, if_false,
}
use mini_envoy.Metrics.{Floats, Overview}
use mini_envoy.Runtime.{Runtime}
use mini_envoy.Admin.{Request, token_ok}
use mini_envoy.Admin.Token.{Carries, token_ok-Carries}
use mini_envoy.Admin.Api.{
  Handler, healthz, overview, routes, upstreams, topology_view, events, eject, restore, Answer,
  handler_of, unauthorized, auth, run_handler, registered, serve,
}

module _ {F : Type 0} (fl : Floats F) (show : ℕ → String) (token : String)
    (trim : String → String) where
  -- Nothing changed, and the request was not for the API or was turned away.
  unfoldable pub IsRefused : Runtime → Option (Answer F) × Runtime → Type 0
  IsRefused rt out = (out.1 ≡ rt) × ((out.0 ≡ none) ⊎ (out.0 ≡ some unauthorized))

  auth-refused :
      (h : Handler) (r : Request) (rs : List ℕ) (flushes : Bool) (ov : Overview F)
      (ticks : List (Overview F × Runtime)) (rt : Runtime)
      → token_ok r token ≡ false
      → auth token r (run_handler fl show token trim h r rs flushes ov ticks) rt
        ≡ (unauthorized, rt)
  unfolding auth
  auth-refused h r rs flushes ov ticks rt no_token = if_false _ _ no_token

  registered-refused :
      (h : Handler) (r : Request) (rs : List ℕ) (flushes : Bool) (ov : Overview F)
      (ticks : List (Overview F × Runtime)) (rt : Runtime)
      → h ≢ healthz
      → token_ok r token ≡ false
      → registered fl show token trim h r rs flushes ov ticks rt ≡ (unauthorized, rt)
  unfolding registered
  registered-refused healthz r rs flushes ov ticks rt other no_token = absurd (other refl)
  registered-refused overview r rs flushes ov ticks rt other no_token =
      auth-refused overview r rs flushes ov ticks rt no_token
  registered-refused routes r rs flushes ov ticks rt other no_token =
      auth-refused routes r rs flushes ov ticks rt no_token
  registered-refused upstreams r rs flushes ov ticks rt other no_token =
      auth-refused upstreams r rs flushes ov ticks rt no_token
  registered-refused topology_view r rs flushes ov ticks rt other no_token =
      auth-refused topology_view r rs flushes ov ticks rt no_token
  registered-refused events r rs flushes ov ticks rt other no_token =
      auth-refused events r rs flushes ov ticks rt no_token
  registered-refused (eject id) r rs flushes ov ticks rt other no_token =
      auth-refused (eject id) r rs flushes ov ticks rt no_token
  registered-refused (restore id) r rs flushes ov ticks rt other no_token =
      auth-refused (restore id) r rs flushes ov ticks rt no_token

  -- Where a token is configured, a request that does not carry it, neither in the API's own header
  -- nor, with that one empty, as a bearer token, and is for anything but the health check, changes
  -- nothing and is answered with 401 and no data, or by the mux where no route fits it.
  pub serve-IsRefused :
      (method : String) (path : List String) (r : Request) (rs : List ℕ) (flushes : Bool)
      (ov : Overview F) (ticks : List (Overview F × Runtime)) (rt : Runtime)
      → handler_of method path ≢ some healthz
      → token ≢ ""
      → (Carries r token → ⊥)
      → IsRefused rt (serve fl show token trim method path r rs flushes ov ticks rt)
  unfolding serve IsRefused
  serve-IsRefused method path r rs flushes ov ticks rt other configured without =
      by_handler (handler_of method path) other
    where
      by_handler :
          (o : Option Handler)
          → o ≢ some healthz
          → IsRefused rt (elim o [
            | none ↦ (none, rt)
            | some h ↦ (
              some (registered fl show token trim h r rs flushes ov ticks rt).0,
              (registered fl show token trim h r rs flushes ov ticks rt).1,
            )
          ])
      by_handler none other = (refl, inl refl)
      by_handler (some h) other =
          let turned_away =
            registered-refused h r rs flushes ov ticks rt (λ e. other (ap some e))
              (token_ok-Carries r token configured without) in
          (ap (λ x. x.1) turned_away, inr (ap (λ x. some x.0) turned_away))
