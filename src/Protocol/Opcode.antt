-- ===== src/Protocol/Opcode.antt =====
-- internal/protocol/opcode.go
use Prim.Native.String.{String}
use mini_envoy.Base.{ℕ, Bool, ◌&&◌, leb, ◌==◌, if◌then◌else◌}

abbrev pub op_data : ℕ
op_data = 1

abbrev pub op_ping : ℕ
op_ping = 2

abbrev pub op_pong : ℕ
op_pong = 3

abbrev pub op_close : ℕ
op_close = 4

abbrev pub op_error : ℕ
op_error = 5

unfoldable pub opcode_name : ℕ → String
opcode_name op =
    if op == op_data
    then "DATA"
    else if op == op_ping
    then "PING"
    else if op == op_pong
    then "PONG"
    else if op == op_close
    then "CLOSE"
    else if op == op_error
    then "ERROR"
    else "UNKNOWN"

unfoldable pub known_opcode : ℕ → Bool
known_opcode op = leb op_data op && leb op op_error
