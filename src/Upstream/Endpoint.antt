-- ===== src/Upstream/Endpoint.antt =====
-- internal/upstream/state.go. An `Endpoint` is shared by routes, reactors and the prober: a method
-- returns the new value of what the pointer leads to.
pub mod Health
pub mod Streaks
pub mod Race
use Prim.Native.String.{String}
use text.Mathlib.Text.{◌==◌ as str_eq}
use mini_envoy.Base.{
  ℕ, ◌+◌, ◌/◌, ◌%◌, ◌^◌, Bool, true, false, ◌&&◌, ◌||◌, not, List, leb, if◌then◌else◌,
}
use mini_envoy.Base.Int.{ℤ, pos, negsuc, ◌+ℤ◌, int64}

pub data State : Type 0 where
  healthy degraded ejected probing down : State

unfoldable pub state_name : State → String
state_name healthy = "healthy"
state_name degraded = "degraded"
state_name ejected = "ejected"
state_name probing = "probing"
state_name down = "down"

unfoldable pub parse_state : String → State
parse_state s =
    if str_eq s "degraded"
    then degraded
    else if str_eq s "ejected"
    then ejected
    else if str_eq s "probing"
    then probing
    else if str_eq s "down"
    then down
    else healthy

-- The atomic words are numbers below 2^64, and `active`, `idle` and `queued` signed ones. `ip` holds
-- four bytes.
pub record Endpoint : Type 0 where
  pub id : String
  pub ip : List ℕ
  pub port : ℤ
  pub weight : ℤ
  pub host : String
  pub state : State
  pub fails : ℕ
  pub successes : ℕ
  pub active : ℤ
  pub idle : ℤ
  pub queued : ℤ
  pub in_bytes : ℕ
  pub out_bytes : ℕ
  pub reason : String

-- `if weight <= 0 { weight = 1 }`
abbrev pub at_least_one : ℤ → ℤ
at_least_one (pos n) = if leb n 0 then pos 1 else pos n
at_least_one (negsuc _) = pos 1

unfoldable pub new_endpoint : String → List ℕ → ℤ → ℤ → Endpoint
new_endpoint id ip port weight = record {
  id = id;
  ip = ip;
  port = port;
  weight = at_least_one weight;
  host = "";
  state = healthy;
  fails = 0;
  successes = 0;
  active = pos 0;
  idle = pos 0;
  queued = pos 0;
  in_bytes = 0;
  out_bytes = 0;
  reason = "";
}

abbrev pub set_state : Endpoint → State → String → Endpoint
set_state e s reason = record e { state = s; reason = reason }

abbrev pub is_healthy : State → Bool
is_healthy healthy = true
is_healthy _ = false

abbrev pub is_degraded : State → Bool
is_degraded degraded = true
is_degraded _ = false

abbrev pub is_ejected : State → Bool
is_ejected ejected = true
is_ejected _ = false

abbrev pub is_probing : State → Bool
is_probing probing = true
is_probing _ = false

abbrev pub is_down : State → Bool
is_down down = true
is_down _ = false

unfoldable pub eligible : Endpoint → Bool
eligible e = is_healthy e.state || is_degraded e.state || is_probing e.state

unfoldable pub eject : Endpoint → String → Endpoint × Bool
eject e reason = if is_ejected e.state then (e, false) else (set_state e ejected reason, true)

unfoldable pub restore : Endpoint → Endpoint × Bool
restore e =
    if not (is_ejected e.state) && not (is_down e.state)
    then (e, false)
    else (set_state (record e { fails = 0; successes = 0 }) probing "manual restore", true)

unfoldable pub record_fail : Endpoint → ℕ → Endpoint
record_fail e threshold =
    let n = (e.fails + 1) % 2 ^ 64 in
    let e' = record e { fails = n; successes = 0 } in
    if is_ejected e'.state
    then e'
    else if leb threshold n
    then set_state e' down "passive fail threshold"
    else if leb (threshold / 2) n && leb 2 threshold
    then set_state e' degraded "passive failures"
    else e'

-- The first half of `RecordSuccess`: the counters, and the state that is loaded after them.
unfoldable pub success_count : Endpoint → Endpoint × ℕ × State
success_count e =
    let n = (e.successes + 1) % 2 ^ 64 in (record e { fails = 0; successes = n }, n, e.state)

-- The second half: what is stored, by the state that was loaded.
unfoldable pub success_store : ℕ → State → ℕ → Endpoint → Endpoint
success_store n st pass_threshold e =
    if is_ejected st
    then e
    else if is_probing st || is_down st || is_degraded st
    then if leb pass_threshold n
      then set_state e healthy ""
      else if not (is_probing st)
      then set_state e probing "recovering"
      else e
    else e

unfoldable pub record_success : Endpoint → ℕ → Endpoint
unfolding success_count success_store
record_success e pass_threshold =
    let (e', n, st) = success_count e in success_store n st pass_threshold e'

unfoldable pub add_active : Endpoint → ℤ → Endpoint
add_active e delta = record e { active = int64 (e.active +ℤ delta) }

unfoldable pub add_idle : Endpoint → ℤ → Endpoint
add_idle e delta = record e { idle = int64 (e.idle +ℤ delta) }

unfoldable pub add_queued : Endpoint → ℤ → Endpoint
add_queued e delta = record e { queued = int64 (e.queued +ℤ delta) }

unfoldable pub add_in_bytes : Endpoint → ℕ → Endpoint
add_in_bytes e n = record e { in_bytes = (e.in_bytes + n) % 2 ^ 64 }

unfoldable pub add_out_bytes : Endpoint → ℕ → Endpoint
add_out_bytes e n = record e { out_bytes = (e.out_bytes + n) % 2 ^ 64 }
