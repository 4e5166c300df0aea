-- ===== src/Tests/Frames.antt =====
-- Headers, frames and the parser at concrete values.
use mini_envoy.Base.{◌+◌, ◌≤◌, ◌≡◌, ◌↔◌, refl, arith, [], ◌∷◌, ◌++◌, length, take, drop}
use mini_envoy.Base.{true, false, none, some}
use mini_envoy.Buffer.Ring.{len, free, writable, advance_write, fill, extent, slice}
use mini_envoy.Protocol.Opcode.{op_error}
use mini_envoy.Protocol.Bytes.{uint16}
use mini_envoy.Protocol.Errors.{bad_version, short_header}
use mini_envoy.Protocol.Header.{
  encode_header, decode_header, empty_header, validate, max_payload_hard_cap,
}
use mini_envoy.Protocol.Header.Codec.{decode_header-encode_header}
use mini_envoy.Protocol.Header.Checks.{FirstFault, validate-FirstFault}
use mini_envoy.Protocol.Frame.{encode_error}
use mini_envoy.Protocol.Frame.Sent.{decode_header-encode_error}
use mini_envoy.Protocol.Parser.{Parser, new_parser, next, max, peek_payload, consume_payload}
use mini_envoy.Protocol.Parser.Stream.{IsParser, NextOf, pending, verdict}
use mini_envoy.Protocol.Parser.Next.{next_refines}
use mini_envoy.Protocol.Parser.Frames.{next_frame, next-receive, next-oversized}
use mini_envoy.Tests.Samples.{
  small, small_valid, two, two_words, two_hard, two_soft, large, large_valid, fresh, large_bytes,
  large_more, frame_bytes, large-pending,
}

next_refines_example : NextOf (new_parser 100) large (next (new_parser 100) large)
next_refines_example = next_refines fresh large_valid large_bytes

next_frame_example :
    let (v, p', r') = next (new_parser 100) large in
    let (a, b) = peek_payload p' r' in
    let (p'', r'') = consume_payload p' r' in
    (v ≡ (true, none))
    × (p'.hdr ≡ two)
    × (slice r' a ++ slice r' b ≡ 7 ∷ 8 ∷ [])
    × (pending p'' r'' ≡ 77 ∷ [])
next_frame_example =
    next_frame two (7 ∷ 8 ∷ []) (77 ∷ []) fresh large_valid large_bytes two_words two_hard two_soft
      refl large-pending

room : 1 ≤ extent (writable large).0
unfolding writable free len frame_bytes
room = omega arith

next-receive_example :
    (next (new_parser 100) (advance_write (fill large (writable large).0 (9 ∷ [])) 1)).0
    ≡ verdict (max (new_parser 100)) (pending (new_parser 100) large ++ (9 ∷ []))
next-receive_example = next-receive (9 ∷ []) fresh large_valid room large_more

-- A parser that waits for more than the small ring can hold.
abbrev hungry : Parser
hungry = record (new_parser 100) { have_hdr = true; hdr = record two { payload_len = 50 } }

hungry_hard : validate hungry.hdr max_payload_hard_cap ≡ none
unfolding validate
hungry_hard = ground arith

hungry_soft : validate hungry.hdr (max hungry) ≡ none
unfolding validate max
hungry_soft = ground arith

hungry_parser : IsParser hungry
hungry_parser = record {
  room = refl;
  words = λ h. record {
    magic = two_words.magic;
    version = two_words.version;
    flags = two_words.flags;
    opcode = two_words.opcode;
    header_len = two_words.header_len;
    reserved = two_words.reserved;
    route_id = two_words.route_id;
    stream_id = two_words.stream_id;
    payload_len = omega arith;
    request_id = two_words.request_id;
  };
  hard = λ h. hungry_hard;
  soft = λ h. hungry_soft;
}

next-oversized_example : next hungry small ≡ ((false, none), hungry, small)
next-oversized_example = next-oversized hungry_parser small_valid refl (omega arith)

decode_header-encode_header_example :
    decode_header (encode_header two ++ (7 ∷ 8 ∷ [])) empty_header
    ≡ (validate two max_payload_hard_cap, two)
decode_header-encode_header_example =
    decode_header-encode_header two empty_header (7 ∷ 8 ∷ []) two_words

validate-FirstFault_example :
    (validate (record two { version = 9 }) 100 ≡ some bad_version)
    ↔ FirstFault bad_version (record two { version = 9 }) 100
validate-FirstFault_example = validate-FirstFault bad_version (record two { version = 9 }) 100

cut : (decode_header (77 ∷ []) empty_header).0 ≡ some short_header
unfolding decode_header
cut = refl

decode_header-encode_error_example :
    let frame = encode_error [] two 1002 (104 ∷ 105 ∷ []) in
    let (e, h) = decode_header frame empty_header in
    (e ≡ none)
    × (h.opcode ≡ op_error)
    × (h.route_id ≡ two.route_id)
    × (h.stream_id ≡ two.stream_id)
    × (h.request_id ≡ two.request_id)
    × (length frame ≡ 32 + h.payload_len)
    × (uint16 (drop 32 frame) 0 ≡ 1002)
    × (drop 34 frame ≡ take 256 (104 ∷ 105 ∷ []))
decode_header-encode_error_example =
    decode_header-encode_error [] two 1002 (104 ∷ 105 ∷ []) empty_header two_words (omega arith)
