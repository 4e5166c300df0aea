-- ===== src/Probe.antt =====
-- internal/probe: the health probe. What the network does to one connection is a parameter: whether
-- it is opened, whether a write succeeds, and what the reads return, one after the other.
pub mod Outcome
use mini_envoy.Base.{ℕ, ◌+◌, ◌-◌, ◌%◌, ◌^◌, Bool, true, false, ◌||◌, not, ◌==◌, if◌then◌else◌}
use mini_envoy.Base.{List, [], ◌∷◌, ◌++◌, Option, none, some, length, take, leb}
use mini_envoy.Upstream.Endpoint.{Endpoint, is_ejected, record_fail, record_success}
use mini_envoy.Protocol.Opcode.{op_ping, op_pong}
use mini_envoy.Protocol.Errors.{Error}
use mini_envoy.Protocol.Header.{
  Header, header_size, new_header, empty_header, encode_header, decode_header,
}

-- The timeout bounds what the network does, and is not seen here.
pub record Config : Type 0 where
  pub fail_threshold : ℕ
  pub pass_threshold : ℕ

-- A read is `none` where it fails. Past the last one, the deadline has come and a read fails too.
pub record Network : Type 0 where
  pub dials : Bool
  pub writes : List ℕ → Bool
  pub reads : List (Option (List ℕ))

pub data PingError : Type 0 where
  dial_failed write_failed read_failed bad_pong : PingError

-- The loop that fills `resp`, with the bytes that are there: `none` where a read fails. A read gives
-- at most the bytes that there is room for.
unfoldable pub read_full : List ℕ → List (Option (List ℕ)) → Option (List ℕ)
read_full got [] = if leb header_size (length got) then some got else none
read_full got (none ∷ rest) = if leb header_size (length got) then some got else none
read_full got (some bytes ∷ rest) =
    let more = read_full (got ++ take (header_size - length got) bytes) rest in
    if leb header_size (length got) then some got else more

-- `err != nil || out.Opcode != protocol.OpPONG`
unfoldable pub is_pong : Option Error × Header → Bool
is_pong (some e, out) = false
is_pong (none, out) = out.opcode == op_pong

-- What follows the loop.
unfoldable pub judge : Endpoint → Config → Option (List ℕ) → Endpoint × Option PingError
unfolding is_pong
judge ep cfg none = (record_fail ep cfg.fail_threshold, some read_failed)
judge ep cfg (some resp) =
    if is_pong (decode_header resp empty_header)
    then (if is_ejected ep.state then ep else record_success ep cfg.pass_threshold, none)
    else (record_fail ep cfg.fail_threshold, some bad_pong)

-- The bytes of the PING at a time in nanoseconds, an int64 as a uint64.
unfoldable pub ping_bytes : ℕ → List ℕ
ping_bytes now = encode_header (new_header op_ping 0 0 0 (now % 2 ^ 64))

unfoldable pub ping : Endpoint → Config → ℕ → Network → Endpoint × Option PingError
unfolding judge
ping ep cfg now net =
    if not net.dials
    then (record_fail ep cfg.fail_threshold, some dial_failed)
    else if not (net.writes (ping_bytes now))
    then (record_fail ep cfg.fail_threshold, some write_failed)
    else judge ep cfg (read_full [] net.reads)

-- One tick of `Loop`: each endpoint with what the network does for it.
unfoldable pub probe_round : Config → ℕ → List (Endpoint × Network) → List Endpoint
unfolding ping
probe_round cfg now [] = []
probe_round cfg now ((ep, net) ∷ rest) =
    (if is_ejected ep.state then ep else (ping ep cfg now net).0) ∷ probe_round cfg now rest
