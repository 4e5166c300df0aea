-- ===== src/Protocol/Errors.antt =====
-- internal/protocol/errors.go: the sentinel errors, and the codes that ERROR frames carry. Go's nil
-- error is `none` of `Option Error`.
use Prim.Native.String.{String, [], ◌∷◌}
use Prim.Native.Char.{code}
use mini_envoy.Base.{ℕ, List}

pub data Error : Type 0 where
  short_header bad_magic bad_version bad_flags bad_header_len bad_reserved unknown_opcode : Error
  payload_too_large truncated_frame : Error

abbrev pub code_bad_magic : ℕ
code_bad_magic = 1001

abbrev pub code_bad_version : ℕ
code_bad_version = 1002

abbrev pub code_bad_flags : ℕ
code_bad_flags = 1003

abbrev pub code_bad_header : ℕ
code_bad_header = 1004

abbrev pub code_unknown_opcode : ℕ
code_unknown_opcode = 1005

abbrev pub code_payload_too_large : ℕ
code_payload_too_large = 1006

abbrev pub code_route_not_found : ℕ
code_route_not_found = 2001

abbrev pub code_no_upstream : ℕ
code_no_upstream = 2002

abbrev pub code_upstream_fail : ℕ
code_upstream_fail = 2003

abbrev pub code_internal : ℕ
code_internal = 5000

-- The last clause is `default`.
unfoldable pub code_of : Error → ℕ
code_of bad_magic = code_bad_magic
code_of bad_version = code_bad_version
code_of bad_flags = code_bad_flags
code_of unknown_opcode = code_unknown_opcode
code_of payload_too_large = code_payload_too_large
code_of bad_header_len = code_bad_header
code_of bad_reserved = code_bad_header
code_of short_header = code_bad_header
code_of truncated_frame = code_internal

-- The bytes of a text of ASCII characters.
unfoldable pub text_bytes : String → List ℕ
text_bytes [] = List.[]
text_bytes (c ∷ s) = List.◌∷◌ (code c) (text_bytes s)

-- `err.Error()`
unfoldable pub error_text : Error → String
error_text short_header = "protocol: short header"
error_text bad_magic = "protocol: bad magic"
error_text bad_version = "protocol: unsupported version"
error_text bad_flags = "protocol: reserved flags must be zero"
error_text bad_header_len = "protocol: invalid header_len"
error_text bad_reserved = "protocol: reserved must be zero"
error_text unknown_opcode = "protocol: unknown opcode"
error_text payload_too_large = "protocol: payload exceeds limit"
error_text truncated_frame = "protocol: truncated frame"
