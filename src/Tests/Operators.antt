-- ===== src/Tests/Operators.antt =====
-- The operator's requests at concrete values.
use mathlib.Core.Path.{subst}
use mathlib.Core.Option.{some-injective}
use mini_envoy.Base.{ℕ, ◌≡◌, inl, inr, refl, sym, ◌∙◌, false, [], ◌∷◌, some}
use mini_envoy.Upstream.Registry.{get}
use mini_envoy.Routing.Table.{done, pick}
use mini_envoy.Runtime.{Runtime, eject_upstream}
use Prim.Native.String.{String}
use mini_envoy.Base.{All, if◌then◌else◌, ◌==◌}
use mini_envoy.Base.Int.{pos}
use mini_envoy.Metrics.{Overview, overview, new_registry}
use mini_envoy.Runtime.Topology.{topology}
use mini_envoy.Runtime.Topology.Joined.{IsJoined, topology-IsJoined}
use mini_envoy.Tests.Operations.{numbers}
use mini_envoy.Base.{List, true, take, map}
use mini_envoy.Poller.Kqueue.{Kevent, filter_read, filter_write, with_event, wait}
use mini_envoy.Poller.Merged.{all_bits, event_of, firsts, wait-firsts}
use mini_envoy.Runtime.Unpicked.{IsPtr, eject_upstream-unpicked}
use mini_envoy.Base.{arith}
use mini_envoy.Admin.{Request, handle_eject}
use mini_envoy.Admin.Token.{Carries}
use mathlib.Core.Bool.{true≢false}
use text.Mathlib.Text.{◌==◌ as str_eq}
use text.Mathlib.TextEquality.{eq_iff}
use mini_envoy.Admin.Api.{handler_of, healthz, serve}
use mini_envoy.Admin.Closed.{IsRefused, serve-IsRefused}
use mini_envoy.Admin.Guarded.{Answer, handle_eject-Answer}
use mini_envoy.Tests.Network.{endpoint, route}

abbrev gateway : Runtime
gateway = record {
  routes = (1, route) ∷ [];
  ups = record { by_id = ("a", 0) ∷ []; all = 0 ∷ [] };
  eps = endpoint ∷ [];
}

eject_upstream-unpicked_example :
    ¬ (pick (eject_upstream gateway "a" "drain").1.eps route ≡ done (route, some 0))
unfolding eject_upstream endpoint
eject_upstream-unpicked_example =
    eject_upstream-unpicked gateway "a" "drain" 0 route route refl refl ((_, refl), tt)

abbrev request : Request
request = record { admin_token = ""; authorization = "Bearer secret"; id = "a"; reason = "" }

handled : (handle_eject "secret" (λ s. s) request gateway).0 ≡ 200
unfolding handle_eject endpoint
handled = refl

handle_eject-Answer_example :
    Answer "secret" request gateway
      (handle_eject "secret" (λ s. s) request gateway).0
      (handle_eject "secret" (λ s. s) request gateway).1
unfolding get
handle_eject-Answer_example = handle_eject-Answer "secret" (λ s. s) request gateway refl found
  where
    found : (p : ℕ) → get (some gateway.ups) "a" ≡ some p → IsPtr gateway.eps p
    found p h = subst (IsPtr gateway.eps) (some-injective 0 p h) (endpoint, refl)

-- Two reactors; a number is shown by a text of its own.
abbrev shown : Overview ℕ
shown = overview numbers "now" (new_registry numbers (pos 2) (pos 0))

abbrev show : ℕ → String
show n = if n == 0 then "0" else "1"

topology-IsJoined_example :
    All
      (IsJoined numbers show (topology numbers show shown gateway).nodes)
      (topology numbers show shown gateway).edges
topology-IsJoined_example = topology-IsJoined numbers show shown gateway

-- Descriptor 3 wakes the poller; of 7 a read and the end of the stream come apart.
abbrev kernel : List Kevent
kernel =
    record { ident = 7; filter = filter_read; eof = false; error = false }
    ∷ record { ident = 3; filter = filter_read; eof = false; error = false }
    ∷ record { ident = 9; filter = filter_write; eof = false; error = false }
    ∷ record { ident = 7; filter = filter_write; eof = true; error = false }
    ∷ []

wait-firsts_example : wait 3 128 kernel ≡ take 128 (map (event_of kernel) (firsts 3 [] kernel))
wait-firsts_example = wait-firsts 3 128 kernel

-- With room for one event, that of descriptor 9 is lost.
crowded : wait 3 1 kernel ≡ event_of kernel 7 ∷ []
unfolding wait with_event all_bits
crowded = refl

-- A request for the topology with a wrong token.
abbrev stranger : Request
stranger = record { admin_token = "guess"; authorization = ""; id = ""; reason = "" }

abbrev page : List String
page = "api" ∷ "v1" ∷ "topology" ∷ []

guarded_page : (handler_of "GET" page ≡ some healthz) → ⊥
unfolding handler_of
guarded_page e = ground arith

guess_differs : (t : String) → str_eq "guess" t ≡ false → ("guess" ≡ t) → ⊥
guess_differs t e h = true≢false (sym ((eq_iff "guess" t).1 h) ∙ e)

secret_set : ◌≡◌ {A = String} "secret" "" → ⊥
secret_set h = true≢false (sym ((eq_iff "secret" "").1 h))

wrong_token : Carries stranger "secret" → ⊥
wrong_token (inl h) = guess_differs "secret" refl h
wrong_token (inr h) = guess_differs "" refl h.0

serve-IsRefused_example :
    IsRefused numbers show "secret"
      (λ s. s)
      gateway
      (serve numbers show "secret" (λ s. s) "GET" page stranger [] true shown [] gateway)
serve-IsRefused_example =
    serve-IsRefused numbers show "secret" (λ s. s) "GET" page stranger [] true shown [] gateway
      guarded_page secret_set wrong_token
