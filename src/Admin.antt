-- ===== src/Admin.antt =====
-- internal/admin/auth.go and handlers.go: the token check and the operator's two operations. The
-- routing of requests and the bodies of the answers are left out.
pub mod Guarded
pub mod Api
pub mod Token
pub mod Closed
use Prim.Native.String.{String, slice, len}
use text.Mathlib.Text.{◌==◌ as str_eq, starts_with, find?}
use mini_envoy.Base.{ℕ, ◌&&◌, Bool, true, false, Option, none, some, if◌then◌else◌}
use mini_envoy.Runtime.{Runtime, RuntimeError, runtime_error_text, eject_upstream, restore_upstream}

-- What the handlers read of a request; a header or a field that is missing is empty. `reason` is that
-- of the JSON body, `trim` is `strings.TrimSpace`.
pub record Request : Type 0 where
  pub admin_token : String
  pub authorization : String
  pub id : String
  pub reason : String

-- The status of an answer.
abbrev pub status_ok : ℕ
status_ok = 200

abbrev pub status_unauthorized : ℕ
status_unauthorized = 401

abbrev pub status_not_found : ℕ
status_not_found = 404

abbrev pub status_conflict : ℕ
status_conflict = 409

-- The token that a request carries: its own header, or else a bearer token.
abbrev pub token_of : Request → String
token_of r =
    if str_eq r.admin_token "" && starts_with r.authorization "Bearer "
    then slice r.authorization 7 (len r.authorization)
    else r.admin_token

-- `hmac.Equal` says whether the bytes are equal.
unfoldable pub token_ok : Request → String → Bool
token_ok r want = if str_eq want "" then true else str_eq (token_of r) want

-- `auth(next)` on a handler.
abbrev pub guarded : String → Request → (Runtime → ℕ × Runtime) → Runtime → ℕ × Runtime
guarded token r next rt = if token_ok r token then next rt else (status_unauthorized, rt)

-- Whether a text has another in it.
abbrev pub contains : String → String → Bool
contains s t = elim (find? s t) [ none ↦ false | some i ↦ true ]

-- The status for what an operation says.
abbrev pub answered : Option RuntimeError × Runtime → ℕ × Runtime
answered (none, rt) = (status_ok, rt)
answered (some e, rt) =
    (if contains (runtime_error_text e) "not found" then status_not_found else status_conflict, rt)

module _ (token : String) (trim : String → String) where
  -- The reason that is kept: a blank one is replaced.
  abbrev pub reason_of : Request → String
  reason_of r = if str_eq (trim r.reason) "" then "manual eject" else r.reason

  unfoldable pub handle_eject : Request → Runtime → ℕ × Runtime
  unfolding token_ok eject_upstream
  handle_eject r = guarded token r (λ rt. answered (eject_upstream rt r.id (reason_of r)))

  unfoldable pub handle_restore : Request → Runtime → ℕ × Runtime
  unfolding token_ok restore_upstream
  handle_restore r = guarded token r (λ rt. answered (restore_upstream rt r.id))
