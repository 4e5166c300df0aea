-- ===== src/Protocol/Header.antt =====
-- internal/protocol/header.go. A field is a number; `IsWords` says that it fits its Go type.
pub mod Codec
pub mod Checks
pub mod Exact
use mini_envoy.Base.{
  ℕ, ◌*◌, ◌^◌, ◌<◌, List, [], ◌∷◌, ◌++◌, Bool, true, false, not, Option, none, some,
}
use mini_envoy.Base.{length, ltb, ◌==◌, if◌then◌else◌}
use mini_envoy.Protocol.Opcode.{known_opcode}
use mini_envoy.Protocol.Bytes.{put_uint16, put_uint32, put_uint64, byte, uint16, uint32, uint64}
use mini_envoy.Protocol.Errors.{
  Error, short_header, bad_magic, bad_version, bad_flags, bad_header_len, bad_reserved,
  unknown_opcode, payload_too_large,
}

abbrev pub magic_menv : ℕ
magic_menv = 0x4D454E56

abbrev pub version1 : ℕ
version1 = 1

abbrev pub header_size : ℕ
header_size = 32

abbrev pub max_payload_default : ℕ
max_payload_default = 2 ^ 20

abbrev pub max_payload_hard_cap : ℕ
max_payload_hard_cap = 8 * 2 ^ 20

pub record Header : Type 0 where
  pub magic : ℕ
  pub version : ℕ
  pub flags : ℕ
  pub opcode : ℕ
  pub header_len : ℕ
  pub reserved : ℕ
  pub route_id : ℕ
  pub stream_id : ℕ
  pub payload_len : ℕ
  pub request_id : ℕ

-- Each field is a value of its Go type: uint8, uint16, uint32 or uint64.
pub record IsWords (h : Header) : Type 0 where
  pub magic : h.magic < 2 ^ 32
  pub version : h.version < 2 ^ 8
  pub flags : h.flags < 2 ^ 8
  pub opcode : h.opcode < 2 ^ 16
  pub header_len : h.header_len < 2 ^ 16
  pub reserved : h.reserved < 2 ^ 16
  pub route_id : h.route_id < 2 ^ 32
  pub stream_id : h.stream_id < 2 ^ 32
  pub payload_len : h.payload_len < 2 ^ 32
  pub request_id : h.request_id < 2 ^ 64

-- The zero value, `Header{}`.
abbrev pub empty_header : Header
empty_header = record {
  magic = 0;
  version = 0;
  flags = 0;
  opcode = 0;
  header_len = 0;
  reserved = 0;
  route_id = 0;
  stream_id = 0;
  payload_len = 0;
  request_id = 0;
}

unfoldable pub validate : Header → ℕ → Option Error
unfolding known_opcode
validate h max_payload =
    if not (h.magic == magic_menv)
    then some bad_magic
    else if not (h.version == version1)
    then some bad_version
    else if not (h.flags == 0)
    then some bad_flags
    else if not (h.header_len == header_size)
    then some bad_header_len
    else if not (h.reserved == 0)
    then some bad_reserved
    else if not (known_opcode h.opcode)
    then some unknown_opcode
    else if ltb max_payload h.payload_len
    then some payload_too_large
    else none

-- The fields that `DecodeHeader` reads.
unfoldable pub read_header : List ℕ → Header
read_header b = record {
  magic = uint32 b 0;
  version = byte b 4;
  flags = byte b 5;
  opcode = uint16 b 6;
  header_len = uint16 b 8;
  reserved = uint16 b 10;
  route_id = uint32 b 12;
  stream_id = uint32 b 16;
  payload_len = uint32 b 20;
  request_id = uint64 b 24;
}

-- The error, and what `*h` holds after the call: it is overwritten also where the header is refused.
unfoldable pub decode_header : List ℕ → Header → Option Error × Header
decode_header b h =
    if ltb (length b) header_size
    then (some short_header, h)
    else (validate (read_header b) max_payload_hard_cap, read_header b)

-- The bytes that `EncodeHeader` writes: all of `b[:HeaderSize]`. Its callers pass that many.
unfoldable pub encode_header : Header → List ℕ
encode_header h =
    put_uint32 h.magic
    ++ (h.version
        ∷ h.flags
        ∷ (put_uint16 h.opcode
            ++ (put_uint16 h.header_len
                ++ (put_uint16 h.reserved
                    ++ (put_uint32 h.route_id
                        ++ (put_uint32 h.stream_id
                            ++ (put_uint32 h.payload_len ++ put_uint64 h.request_id)))))))

unfoldable pub new_header : (op route_id stream_id payload_len request_id : ℕ) → Header
new_header op route_id stream_id payload_len request_id = record {
  magic = magic_menv;
  version = version1;
  flags = 0;
  opcode = op;
  header_len = header_size;
  reserved = 0;
  route_id = route_id;
  stream_id = stream_id;
  payload_len = payload_len;
  request_id = request_id;
}
