-- ===== src/Commands/Menvctl.antt =====
-- cmd/menvctl/main.go: the client for operators. A connection says which writes succeed and what its
-- reads bring; `none` is a dial that fails. Deadlines are part of what the network does.
use mini_envoy.Base.{ℕ, ◌+◌, ◌%◌, ◌^◌, List, [], ◌∷◌, ◌++◌, Option, none, some}
use mini_envoy.Base.{length, drop, leb, Bool, true, false, not, ◌&&◌, ◌==◌, if◌then◌else◌, ltb}
use mini_envoy.Protocol.Opcode.{op_data, op_ping, op_pong, op_error}
use mini_envoy.Protocol.Errors.{Error}
use mini_envoy.Protocol.Bytes.{uint16}
use mini_envoy.Protocol.Header.{
  Header, header_size, empty_header, new_header, encode_header, decode_header,
}
use mini_envoy.Commands.{read_full}

pub record Conn : Type 0 where
  pub takes : List ℕ → Bool
  pub sent : List ℕ
  pub reads : List (List ℕ)

-- `w.Write(b)`: the connection after it, and whether it succeeded.
unfoldable pub write : Conn → List ℕ → Conn × Bool
write c b = if c.takes b then (record c { sent = c.sent ++ b }, true) else (c, false)

unfoldable pub write_hdr : Conn → Header → Conn × Bool
unfolding write
write_hdr c h = write c (encode_header h)

unfoldable pub then_write : Conn × Bool → List ℕ → Conn × Bool
unfolding write
then_write (c, false) p = (c, false)
then_write (c, true) p = write c p

unfoldable pub write_frame : Conn → Header → List ℕ → Conn × Bool
unfolding write_hdr then_write
write_frame c h p = then_write (write_hdr c h) p

-- The errors of `readFrame`: a read's, the header's, and the frame that reports one.
pub data ReadError : Type 0 where
  unread : ReadError
  refused : Error → ReadError
  reported : ℕ → List ℕ → ReadError

pub record Reply : Type 0 where
  pub header : Header
  pub payload : List ℕ
  pub error : Option ReadError

unfoldable pub report : Header → List ℕ → Option ReadError
report h p =
    if (h.opcode == op_error) && leb 2 (length p)
    then some (reported (uint16 p 0) (drop 2 p))
    else none

unfoldable pub with_payload : Header → Option (List ℕ × List (List ℕ)) → Reply
unfolding report
with_payload h none = record { header = h; payload = []; error = some unread }
with_payload h (some (p, left)) = record { header = h; payload = p; error = report h p }

unfoldable pub with_header : Option Error × Header → List (List ℕ) → Reply
unfolding with_payload
with_header (some e, h) reads = record { header = h; payload = []; error = some (refused e) }
with_header (none, h) reads =
    if h.payload_len == 0
    then record { header = h; payload = []; error = report h [] }
    else with_payload h (read_full h.payload_len reads)

unfoldable pub checked : Option (List ℕ × List (List ℕ)) → Reply
unfolding with_header
checked none = record { header = empty_header; payload = []; error = some unread }
checked (some (b, left)) = with_header (decode_header b empty_header) left

unfoldable pub read_frame : List (List ℕ) → Reply
unfolding checked
read_frame reads = checked (read_full header_size reads)

-- `err != nil || rh.Opcode != protocol.OpPONG`
unfoldable pub is_pong : Reply → Bool
is_pong r = no_error r.error && (r.header.opcode == op_pong)
  where
    no_error : Option ReadError → Bool
    no_error none = true
    no_error (some e) = false

unfoldable pub judge_ping : Conn × Bool → Conn × ℕ
unfolding is_pong read_frame
judge_ping (c, false) = (c, 1)
judge_ping (c, true) = (c, if is_pong (read_frame c.reads) then 0 else 1)

-- The exit code of `runPing`.
unfoldable pub run_ping : Conn → Conn × ℕ
unfolding judge_ping
run_ping c = judge_ping (write_hdr c (new_header op_ping 0 0 0 1))

-- What `runEcho` prints: the opcode and the payload's length.
abbrev pub Printed : Type 0
Printed = Option (ℕ × ℕ)

unfoldable pub echo_code : Reply → Printed × ℕ
echo_code r = by_error r.error
  where
    by_error : Option ReadError → Printed × ℕ
    by_error (some e) = (none, 1)
    by_error none =
        (some (r.header.opcode, length r.payload), if r.header.opcode == op_error then 1 else 0)

unfoldable pub print : Conn → Printed × ℕ → Conn × Printed × ℕ
print c (line, exit) = (c, line, exit)

unfoldable pub judge_echo : Conn × Bool → Conn × Printed × ℕ
unfolding echo_code read_frame print
judge_echo (c, false) = (c, none, 1)
judge_echo (c, true) = print c (echo_code (read_frame c.reads))

-- A flag's `uint` is cut to 32 bits, the length too.
unfoldable pub run_echo : Conn → (route : ℕ) → (body : List ℕ) → Conn × Printed × ℕ
unfolding judge_echo write_frame
run_echo c route body =
    judge_echo
      (write_frame c (new_header op_data (route % 2 ^ 32) 1 (length body % 2 ^ 32) 42) body)

-- Whether `once` returns no error, at a time in nanoseconds.
unfoldable pub succeeded : Reply → Bool
succeeded r = by_error r.error
  where
    by_error : Option ReadError → Bool
    by_error (some e) = false
    by_error none = not (r.header.opcode == op_error)

unfoldable pub judge_once : Conn × Bool → Conn × Bool
unfolding succeeded read_frame
judge_once (c, false) = (c, false)
judge_once (c, true) = (c, succeeded (read_frame c.reads))

unfoldable pub once : Conn → (route : ℕ) → (payload : List ℕ) → (now : ℕ) → Conn × Bool
unfolding judge_once write_frame
once c route payload now =
    judge_once
      (write_frame c (new_header op_data route 1 (length payload % 2 ^ 32) (now % 2 ^ 64)) payload)

-- The rounds of `runLoad` up to the deadline, each with its connection and its time: what is counted.
unfoldable pub load_rounds : (route : ℕ) → List ℕ → List (Option Conn × ℕ) → ℕ × ℕ → ℕ × ℕ
load_rounds route payload [] (ok, fail) = (ok, fail)
load_rounds route payload ((none, now) ∷ rounds) (ok, fail) =
    load_rounds route payload rounds (ok, (fail + 1) % 2 ^ 64)
load_rounds route payload ((some c, now) ∷ rounds) (ok, fail) =
    load_rounds route payload rounds (
      if (once c route payload now).1 then ((ok + 1) % 2 ^ 64, fail) else (ok, (fail + 1) % 2 ^ 64))

unfoldable pub load_code : ℕ × ℕ → ℕ
load_code (ok, fail) = if ltb 0 fail && (ok == 0) then 1 else 0

unfoldable pub run_load : (route : ℕ) → List ℕ → List (Option Conn × ℕ) → ℕ
unfolding load_rounds load_code
run_load route payload rounds = load_code (load_rounds (route % 2 ^ 32) payload rounds (0, 0))
