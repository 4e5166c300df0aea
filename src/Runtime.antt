-- ===== src/Runtime.antt =====
-- internal/app/runtime.go: the operator's operations, on the routes and the endpoints that the
-- reactors use. Logging is left out.
pub mod Unpicked
pub mod Build
pub mod Built
pub mod Views
pub mod Topology
use Prim.Native.String.{String}
use mini_envoy.Base.{Bool, true, false, List, Option, none, some, get_elem?}
use mini_envoy.Upstream.Endpoint.{Endpoint, eject, restore}
use mini_envoy.Upstream.Registry.{Ptr, Store, Registry, get}
use mini_envoy.Routing.Table.{Table}
use mini_envoy.Reactor.Conn.{change}

pub record Runtime : Type 0 where
  pub routes : Table
  pub ups : Registry
  pub eps : Store

-- The errors of `Eject` and `Restore`.
pub data RuntimeError : Type 0 where
  upstream_not_found already_ejected not_taken_out : RuntimeError

unfoldable pub runtime_error_text : RuntimeError → String
runtime_error_text upstream_not_found = "upstream not found"
runtime_error_text already_ejected = "already ejected"
runtime_error_text not_taken_out = "not in ejected/down state"

-- What an operation on an endpoint says, `refused` where it did not act.
abbrev pub settled : RuntimeError → Ptr → Endpoint × Bool → Runtime → Option RuntimeError × Runtime
settled refused p (e, done) rt =
    (elim done [ true ↦ none | false ↦ some refused ], record rt { eps = change (λ _. e) p rt.eps })

-- The operation on the endpoint that was found. A pointer of the registry leads to an endpoint; the
-- other case is not met.
abbrev pub operate :
    RuntimeError
    → (Endpoint → Endpoint × Bool)
    → Option Ptr
    → Runtime
    → Option RuntimeError × Runtime
operate refused act none rt = (some upstream_not_found, rt)
operate refused act (some p) rt = elim (get_elem? rt.eps p) [
  | none ↦ (some upstream_not_found, rt)
  | some e ↦ settled refused p (act e) rt
]

unfoldable pub eject_upstream : Runtime → String → String → Option RuntimeError × Runtime
unfolding get eject
eject_upstream rt id reason =
    operate already_ejected (λ e. eject e reason) (get (some rt.ups) id) rt

unfoldable pub restore_upstream : Runtime → String → Option RuntimeError × Runtime
unfolding get restore
restore_upstream rt id = operate not_taken_out restore (get (some rt.ups) id) rt
