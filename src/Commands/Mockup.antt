-- ===== src/Commands/Mockup.antt =====
-- cmd/mockupstream/main.go: the upstream that the tests run behind the proxy. One connection is served
-- from its reads and from the counter of DATA frames, which all connections share. What the handler
-- passes to `Write` is modelled, since it looks at no result of a write.
use Prim.Native.String.{String}
use text.Mathlib.Text.{◌==◌ as str_eq}
use mini_envoy.Base.{ℕ, zero, suc, ◌+◌, ◌%◌, ◌^◌, List, [], ◌++◌, Option, none, some}
use mini_envoy.Base.{length, drop, leb, Bool, ◌&&◌, ◌==◌, if◌then◌else◌}
use mini_envoy.Base.Int.{ℤ, pos, pos_part, ltb_ℤ}
use mini_envoy.Protocol.Opcode.{op_data, op_ping, op_pong, op_close}
use mini_envoy.Protocol.Errors.{Error, code_upstream_fail, code_unknown_opcode, text_bytes}
use mini_envoy.Protocol.Bytes.{put_uint64}
use mini_envoy.Protocol.Header.{Header, header_size, empty_header, encode_header, decode_header}
use mini_envoy.Protocol.Frame.{encode_error}
use mini_envoy.Commands.{read_full, joined}

-- What `main` takes from the environment. The pause of `MENV_SLOW_MS` is not seen here.
pub record Settings : Type 0 where
  pub id : List ℕ
  pub mode : String
  pub fail_every : ℤ

-- `if v := os.Getenv(k); v != ""`
unfoldable pub env_or : String → String → String
env_or v def = if str_eq v "" then def else v

-- The bytes that `writeFrame` writes.
unfoldable pub write_frame : Header → List ℕ → List ℕ
write_frame h payload = encode_header h ++ payload

-- `binary.BigEndian.PutUint64(payload[:8], seq)` where there is room for it
unfoldable pub tag : ℕ → List ℕ → List ℕ
tag seq payload = if leb 8 (length payload) then put_uint64 seq ++ drop 8 payload else payload

-- `mode == "flaky" && failEvery > 0 && seq%uint64(failEvery) == 0`
unfoldable pub injects : Settings → ℕ → Bool
injects s seq =
    str_eq s.mode "flaky" && (ltb_ℤ (pos 0) s.fail_every && (seq % pos_part s.fail_every == 0))

-- What one frame leads to: the connection is closed, or bytes are written, and the counter is so much.
pub data Response : Type 0 where
  closing : Response
  reply : ℕ → List ℕ → Response

unfoldable pub answer_data : Settings → ℕ → Header → List ℕ → List ℕ
unfolding injects tag write_frame
answer_data s seq h payload =
    if injects s seq
    then encode_error [] h code_upstream_fail (s.id ++ text_bytes " injected fail")
    else write_frame h (tag seq payload)

-- The switch over the opcode. `n.Add(1)` wraps at 64 bits.
unfoldable pub respond : Settings → ℕ → Header → List ℕ → Response
unfolding answer_data
respond s n h payload =
    let seq = (n + 1) % 2 ^ 64 in
    if h.opcode == op_ping
    then reply n (write_frame (record h { opcode = op_pong }) payload)
    else if h.opcode == op_close
    then closing
    else if h.opcode == op_data
    then reply seq (answer_data s seq h payload)
    else reply n (encode_error [] h code_unknown_opcode (text_bytes "unknown"))

pub record Request : Type 0 where
  pub header : Header
  pub payload : List ℕ
  pub reads : List (List ℕ)

-- `if h.PayloadLen > 0`
unfoldable pub with_payload : Header → Option (List ℕ × List (List ℕ)) → Option Request
with_payload h none = none
with_payload h (some (p, left)) = some (record { header = h; payload = p; reads = left })

unfoldable pub with_header : Option Error × Header → List (List ℕ) → Option Request
unfolding with_payload
with_header (some e, h) reads = none
with_header (none, h) reads =
    if h.payload_len == 0
    then some (record { header = h; payload = []; reads = reads })
    else with_payload h (read_full h.payload_len reads)

unfoldable pub checked : Option (List ℕ × List (List ℕ)) → Option Request
unfolding with_header
checked none = none
checked (some (hdr, left)) = with_header (decode_header hdr empty_header) left

-- One frame off the connection; `none` where the handler returns.
unfoldable pub read_request : List (List ℕ) → Option Request
unfolding checked
read_request reads = checked (read_full header_size reads)

-- The bytes written by `handle` and the counter when it returns; `none` where the fuel is out.
pub record Served : Type 0 where
  pub written : List ℕ
  pub count : ℕ

unfoldable pub before : List ℕ → Option Served → Option Served
before bytes none = none
before bytes (some r) = some (record r { written = bytes ++ r.written })

unfoldable pub go_on : (ℕ → Option Served) → ℕ → Response → Option Served
unfolding before
go_on next n closing = some (record { written = []; count = n })
go_on next n (reply n' bytes) = before bytes (next n')

unfoldable pub serve_request :
    Settings → (List (List ℕ) → ℕ → Option Served) → ℕ → Option Request → Option Served
unfolding respond go_on
serve_request s next n none = some (record { written = []; count = n })
serve_request s next n (some r) = go_on (next r.reads) n (respond s n r.header r.payload)

-- The loop, on fuel.
unfoldable pub serve : Settings → ℕ → List (List ℕ) → ℕ → Option Served
unfolding serve_request
serve s zero reads n = none
serve s (suc fuel) reads n = serve_request s (serve s fuel) n (read_request reads)

-- A frame takes a header's bytes off the stream, so that there is a turn for each.
unfoldable pub handle : Settings → List (List ℕ) → ℕ → Option Served
handle s reads n = serve s (suc (length (joined reads))) reads n
