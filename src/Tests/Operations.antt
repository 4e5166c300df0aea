-- ===== src/Tests/Operations.antt =====
-- The probe and the metrics at concrete values.
use mini_envoy.Base.{
  ℕ, ◌+◌, ◌^◌, ◌<◌, ◌≡◌, refl, arith, true, List, [], ◌∷◌, some, none, if◌then◌else◌, map,
}
use mini_envoy.Base.{append-nil, ◌++◌, take, drop, take-append-drop, ◌∙◌, ap}
use mini_envoy.Base.Int.{pos}
use mini_envoy.Upstream.Endpoint.{Endpoint, new_endpoint, is_ejected, record_success}
use mini_envoy.Protocol.Opcode.{op_pong}
use mini_envoy.Protocol.Header.{Header, IsWords, encode_header, validate, max_payload_hard_cap}
use mini_envoy.Probe.{Config, Network, ping}
use mini_envoy.Probe.Outcome.{ping-pong}
use mini_envoy.Metrics.{Floats, Registry, idle_shard, new_registry, elapsed, tick}
use mini_envoy.Metrics.Rates.{traffic, read_by, tick-traffic}
use mini_envoy.Tests.Samples.{two}

abbrev a : Endpoint
unfolding new_endpoint
a = new_endpoint "a" (127 ∷ 0 ∷ 0 ∷ 1 ∷ []) (pos 9001) (pos 4)

abbrev thresholds : Config
thresholds = record { fail_threshold = 3; pass_threshold = 2 }

abbrev pong : Header
pong = record two { opcode = op_pong; payload_len = 0 }

abbrev pong_words : IsWords pong
pong_words = record {
  magic = omega arith;
  version = omega arith;
  flags = omega arith;
  opcode = omega arith;
  header_len = omega arith;
  reserved = omega arith;
  route_id = omega arith;
  stream_id = omega arith;
  payload_len = omega arith;
  request_id = omega arith;
}

pong_valid : validate pong max_payload_hard_cap ≡ none
unfolding validate
pong_valid = ground arith

-- The answer comes in two reads.
abbrev halves : List (List ℕ)
halves = take 5 (encode_header pong) ∷ drop 5 (encode_header pong) ∷ []

abbrev net : Network
net = record { dials = true; writes = λ b. true; reads = map some halves }

ping-pong_example :
    ping a thresholds 1000 net
    ≡ (if is_ejected a.state then a else record_success a thresholds.pass_threshold, none)
ping-pong_example =
    ping-pong a thresholds 1000 net halves pong refl refl refl pong_words pong_valid refl (
      ap (λ t. take 5 (encode_header pong) ++ t) (append-nil (drop 5 (encode_header pong)))
      ∙ take-append-drop 5 (encode_header pong))

-- Numbers in place of floating-point ones, with a second between two calls.
abbrev pub numbers : Floats ℕ
numbers = record {
  of_uint = λ n. n;
  of_int = λ n. 0;
  mul = λ x y. x + y;
  div = λ x y. x;
  is_le = λ x y. true;
  seconds_between = λ t u. 1;
}

-- A counter that the traffic wraps.
abbrev gauges : Registry ℕ
unfolding new_registry
gauges = record (new_registry numbers (pos 1) (pos 0)) {
  shards = record idle_shard { in_bytes = 18446744073709551615 } ∷ [];
}

little : read_by (10 ∷ []) gauges.shards < 2 ^ 64
unfolding gauges
little = omega arith

tick-traffic_example :
    let r' = tick numbers (pos 5) gauges in
    let moved = record r' { shards = traffic (10 ∷ []) r'.shards } in
    (tick numbers (pos 9) moved).in_bps
    ≡ numbers.div
        (numbers.mul (numbers.of_uint (read_by (10 ∷ []) gauges.shards)) (numbers.of_uint 8))
        (elapsed numbers (pos 9) moved)
tick-traffic_example = tick-traffic numbers (pos 5) (pos 9) (10 ∷ []) gauges little
