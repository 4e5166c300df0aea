-- ===== src/Tests/Samples.antt =====
-- Concrete rings, frames and parsers.
use mini_envoy.Base.{ℕ, ◌≡◌, refl, arith, Bool, true, false, ◌&&◌, List, [], ◌∷◌, ◌++◌}
use mini_envoy.Base.{none, some, All, ltb, ltb→lt, replicate}
use mini_envoy.Base.Int.{negsuc}
use mini_envoy.Buffer.Ring.{Ring, len}
use mini_envoy.Buffer.Ring.Round.{around}
use mini_envoy.Buffer.Ring.Bounds.{IsValid}
use mini_envoy.Buffer.Ring.Fifo.{contents}
use mini_envoy.Protocol.Opcode.{op_data}
use mini_envoy.Protocol.Bytes.{IsByte}
use mini_envoy.Protocol.Header.{
  Header, IsWords, encode_header, magic_menv, version1, validate, max_payload_hard_cap,
}
use mini_envoy.Protocol.Parser.{new_parser, max}
use mini_envoy.Protocol.Parser.Stream.{IsParser, pending}

-- Six bytes that go round the end of a buffer of eight.
abbrev pub small : Ring
small = record {
  buf = some (30 ∷ 40 ∷ 50 ∷ 60 ∷ 70 ∷ 80 ∷ 10 ∷ 20 ∷ []);
  mask = 7;
  r = 6;
  w = 4;
  slab = false;
  slot = negsuc 0;
}

abbrev pub small_valid : IsValid small
small_valid = record {
  bytes = 30 ∷ 40 ∷ 50 ∷ 60 ∷ 70 ∷ 80 ∷ 10 ∷ 20 ∷ [];
  has = refl;
  log = 3;
  log_small = omega arith;
  pow = refl;
  sized = refl;
  r_in = omega arith;
  w_in = omega arith;
}

-- A DATA frame of two bytes.
abbrev pub two : Header
two = record {
  magic = magic_menv;
  version = version1;
  flags = 0;
  opcode = op_data;
  header_len = 32;
  reserved = 0;
  route_id = 1;
  stream_id = 2;
  payload_len = 2;
  request_id = 3;
}

abbrev pub two_words : IsWords two
two_words = record {
  magic = omega arith;
  version = omega arith;
  flags = omega arith;
  opcode = omega arith;
  header_len = omega arith;
  reserved = omega arith;
  route_id = omega arith;
  stream_id = omega arith;
  payload_len = omega arith;
  request_id = omega arith;
}

pub two_hard : validate two max_payload_hard_cap ≡ none
unfolding validate
two_hard = ground arith

pub two_soft : validate two (max (new_parser 100)) ≡ none
unfolding validate max
two_soft = ground arith

-- The bytes of the frame, one byte of the next one, and the rest of a buffer of 64.
unfoldable pub frame_bytes : List ℕ
unfolding encode_header
frame_bytes = encode_header two ++ (7 ∷ 8 ∷ 77 ∷ replicate 29 0)

abbrev pub large : Ring
large = record { buf = some frame_bytes; mask = 63; r = 0; w = 35; slab = false; slot = negsuc 0 }

abbrev pub large_valid : IsValid large
unfolding frame_bytes
large_valid = record {
  bytes = frame_bytes;
  has = refl;
  log = 6;
  log_small = omega arith;
  pow = refl;
  sized = refl;
  r_in = omega arith;
  w_in = omega arith;
}

abbrev pub fresh : IsParser (new_parser 100)
fresh = record {
  room = refl;
  words = λ h. ground arith;
  hard = λ h. ground arith;
  soft = λ h. ground arith;
}

abbrev all_bytes : List ℕ → Bool
all_bytes [] = true
all_bytes (x ∷ xs) = ltb x 256 && all_bytes xs

and_true : (a b : Bool) → (a && b) ≡ true → (a ≡ true) × (b ≡ true)
and_true true b h = (refl, h)
and_true false b h = ground arith

pub all_bytes-All : (xs : List ℕ) → all_bytes xs ≡ true → All IsByte xs
all_bytes-All [] h = tt
all_bytes-All (x ∷ xs) h =
    let (a, b) = and_true (ltb x 256) (all_bytes xs) h in (ltb→lt x 256 a, all_bytes-All xs b)

pub large_bytes : All IsByte (contents large)
unfolding contents around len frame_bytes encode_header
large_bytes = all_bytes-All (contents large) refl

pub large_more : All IsByte (contents large ++ (9 ∷ []))
unfolding contents around len frame_bytes encode_header
large_more = all_bytes-All (contents large ++ (9 ∷ [])) refl

pub large-pending :
    pending (new_parser 100) large ≡ encode_header two ++ ((7 ∷ 8 ∷ []) ++ (77 ∷ []))
unfolding contents around len frame_bytes encode_header
large-pending = refl
