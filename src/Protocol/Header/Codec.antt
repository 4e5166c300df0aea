-- ===== src/Protocol/Header/Codec.antt =====
-- EncodeHeader and DecodeHeader undo one another.
use mini_envoy.Base.{
  ℕ, zero, suc, ◌+◌, ◌*◌, ◌/◌, ◌%◌, ◌^◌, ◌≤◌, ◌<◌, ◌≡◌, refl, sym, ap, ◌∙◌, arith,
}
use mini_envoy.Base.{List, [], ◌∷◌, ◌++◌, length, get_or, drop, All, append-nil, ap₂}
use mini_envoy.Base.{drop_all, append_assoc, ltb, false, length-append}
use mini_envoy.Protocol.Bytes.{
  put_uint16, put_uint32, put_uint64, byte, uint16, uint32, uint64, IsByte,
}
use mini_envoy.Protocol.Header.{
  Header, IsWords, read_header, validate, decode_header, encode_header, max_payload_hard_cap,
}

not-ltb : (a b : ℕ) → b ≤ a → ltb a b ≡ false
not-ltb a b h = ground arith

-- The bytes of a word make up the word.
split_uint16 : (v : ℕ) → v < 2 ^ 16 → v / 2 ^ 8 % 256 * 2 ^ 8 + v % 256 ≡ v
split_uint16 v h = omega arith

split_uint32 :
    (v : ℕ)
    → v < 2 ^ 32
    → v / 2 ^ 24 % 256 * 2 ^ 24 + v / 2 ^ 16 % 256 * 2 ^ 16 + v / 2 ^ 8 % 256 * 2 ^ 8 + v % 256 ≡ v
split_uint32 v h = omega arith

pub length-encode_header : (h : Header) → length (encode_header h) ≡ 32
unfolding encode_header
length-encode_header h = refl

record_path :
    (h k : Header)
    → h.magic ≡ k.magic
    → h.version ≡ k.version
    → h.flags ≡ k.flags
    → h.opcode ≡ k.opcode
    → h.header_len ≡ k.header_len
    → h.reserved ≡ k.reserved
    → h.route_id ≡ k.route_id
    → h.stream_id ≡ k.stream_id
    → h.payload_len ≡ k.payload_len
    → h.request_id ≡ k.request_id
    → h ≡ k
record_path h k a b c d e f g i j l = λ t. record {
  magic = a t;
  version = b t;
  flags = c t;
  opcode = d t;
  header_len = e t;
  reserved = f t;
  route_id = g t;
  stream_id = i t;
  payload_len = j t;
  request_id = l t;
}

-- Reading back what was written, whatever follows it.
pub read_header-encode_header :
    (h : Header) (rest : List ℕ) → IsWords h → read_header (encode_header h ++ rest) ≡ h
unfolding encode_header read_header
read_header-encode_header h rest w =
    record_path (read_header (encode_header h ++ rest)) h (split_uint32 h.magic w.magic) refl refl
      (split_uint16 h.opcode w.opcode) (split_uint16 h.header_len w.header_len)
      (split_uint16 h.reserved w.reserved) (split_uint32 h.route_id w.route_id)
      (split_uint32 h.stream_id w.stream_id) (split_uint32 h.payload_len w.payload_len)
      (ap₂ (λ a b. a * 2 ^ 32 + b)
          (split_uint32 (h.request_id / 2 ^ 32) (omega (arith, w.request_id)))
          (split_uint32 (h.request_id % 2 ^ 32) (omega arith))
        ∙ omega arith)

pub decode_header_long :
    (b : List ℕ) (before : Header)
    → 32 ≤ length b
    → decode_header b before ≡ (validate (read_header b) max_payload_hard_cap, read_header b)
unfolding decode_header
decode_header_long b before h = rw (not-ltb (length b) 32 h)

-- Decoding an encoded header, whatever bytes follow, gives the header back, with the verdict of
-- `Validate` at the hard cap.
pub decode_header-encode_header :
    (h before : Header) (rest : List ℕ)
    → IsWords h
    → decode_header (encode_header h ++ rest) before ≡ (validate h max_payload_hard_cap, h)
decode_header-encode_header h before rest w =
    decode_header_long (encode_header h ++ rest) before
      (omega (arith, length-append (encode_header h) rest, length-encode_header h))
    ∙ ap (λ k. (validate k max_payload_hard_cap, k)) (read_header-encode_header h rest w)

cons_at : (i j : ℕ) (b : List ℕ) → j ≡ i + 1 → i < length b → get_or b i 0 ∷ drop j b ≡ drop i b
cons_at i j [] e h = elim h [ ]
cons_at zero j (x ∷ b) e h = ap (λ t. x ∷ drop t (x ∷ b)) e
cons_at (suc i) zero (x ∷ b) e h = absurd (omega arith)
cons_at (suc i) (suc j) (x ∷ b) e h = cons_at i j b (omega arith) (omega arith)

All-get_or : (b : List ℕ) (i : ℕ) → All IsByte b → get_or b i 0 < 256
All-get_or [] i a = omega arith
All-get_or (x ∷ b) zero a = a.0
All-get_or (x ∷ b) (suc i) a = All-get_or b i a.1

module _ (b : List ℕ) (a : All IsByte b) where
  put_uint16-uint16 :
      (i : ℕ) → i + 2 ≤ length b → put_uint16 (uint16 b i) ++ drop (i + 2) b ≡ drop i b
  put_uint16-uint16 i h =
      ap₂ (λ s t. s ∷ t ∷ drop (i + 2) b) (omega (arith, All-get_or b (i + 1) a, All-get_or b i a))
        (omega (arith, All-get_or b (i + 1) a))
      ∙ ap (◌∷◌ (byte b i)) (cons_at (i + 1) (i + 2) b (omega arith) (omega arith))
      ∙ cons_at i (i + 1) b refl (omega arith)

  bytes_of_uint32 :
      (i : ℕ)
      → put_uint32 (uint32 b i) ≡ byte b i ∷ byte b (i + 1) ∷ byte b (i + 2) ∷ byte b (i + 3) ∷ []
  bytes_of_uint32 i =
      let h0 : byte b i < 256 = All-get_or b i a in
      let h1 : byte b (i + 1) < 256 = All-get_or b (i + 1) a in
      let h2 : byte b (i + 2) < 256 = All-get_or b (i + 2) a in
      let h3 : byte b (i + 3) < 256 = All-get_or b (i + 3) a in
      ap₂ (λ s t. s ∷ t) (omega arith)
        (ap₂ (λ s t. s ∷ t) (omega arith) (ap₂ (λ s t. s ∷ t ∷ []) (omega arith) (omega arith)))

  four_bytes :
      (i : ℕ)
      → i + 4 ≤ length b
      → byte b i ∷ byte b (i + 1) ∷ byte b (i + 2) ∷ byte b (i + 3) ∷ drop (i + 4) b ≡ drop i b
  four_bytes i h =
      ap (◌∷◌ (byte b i)) (
        ap (◌∷◌ (byte b (i + 1))) (
          ap (◌∷◌ (byte b (i + 2))) (cons_at (i + 3) (i + 4) b (omega arith) (omega arith))
          ∙ cons_at (i + 2) (i + 3) b (omega arith) (omega arith))
        ∙ cons_at (i + 1) (i + 2) b (omega arith) (omega arith))
      ∙ cons_at i (i + 1) b refl (omega arith)

  put_uint32-uint32 :
      (i : ℕ) → i + 4 ≤ length b → put_uint32 (uint32 b i) ++ drop (i + 4) b ≡ drop i b
  put_uint32-uint32 i h = ap (λ t. t ++ drop (i + 4) b) (bytes_of_uint32 i) ∙ four_bytes i h

  uint32-lt : (i : ℕ) → uint32 b i < 2 ^ 32
  uint32-lt i = omega (
    arith,
    All-get_or b i a,
    All-get_or b (i + 1) a,
    All-get_or b (i + 2) a,
    All-get_or b (i + 3) a,
  )

  put_uint64-uint64 :
      (i : ℕ) → i + 8 ≤ length b → put_uint64 (uint64 b i) ++ drop (i + 8) b ≡ drop i b
  put_uint64-uint64 i h =
      ap (λ t. t ++ drop (i + 8) b)
        (ap₂ (λ s t. put_uint32 s ++ put_uint32 t) (omega (arith, uint32-lt (i + 4)))
          (omega (arith, uint32-lt (i + 4))))
      ∙ append_assoc (put_uint32 (uint32 b i)) (put_uint32 (uint32 b (i + 4))) (drop (i + 8) b)
      ∙ ap (◌++◌ (put_uint32 (uint32 b i))) (
          ap (λ t. put_uint32 (uint32 b (i + 4)) ++ drop t b) (omega arith)
          ∙ put_uint32-uint32 (i + 4) (omega arith))
      ∙ put_uint32-uint32 i (omega arith)

  tail-read_header : length b ≡ 32 → put_uint64 (uint64 b 24) ≡ drop 24 b
  tail-read_header e =
      sym (append-nil (put_uint64 (uint64 b 24)))
      ∙ ap (◌++◌ (put_uint64 (uint64 b 24))) (sym (drop_all 32 b (omega arith)))
      ∙ put_uint64-uint64 24 (omega arith)

  ids-read_header :
      length b ≡ 32
      → put_uint32 (uint32 b 12)
          ++ (put_uint32 (uint32 b 16) ++ (put_uint32 (uint32 b 20) ++ put_uint64 (uint64 b 24)))
        ≡ drop 12 b
  ids-read_header e =
      ap (◌++◌ (put_uint32 (uint32 b 12))) (
        ap (◌++◌ (put_uint32 (uint32 b 16))) (
          ap (◌++◌ (put_uint32 (uint32 b 20))) (tail-read_header e)
          ∙ put_uint32-uint32 20 (omega arith))
        ∙ put_uint32-uint32 16 (omega arith))
      ∙ put_uint32-uint32 12 (omega arith)

  -- Encoding a header that was read gives back the 32 bytes that it was read from, valid or not: no
  -- bit of the header is lost.
  pub encode_header-read_header : length b ≡ 32 → encode_header (read_header b) ≡ b
  unfolding encode_header read_header
  encode_header-read_header e =
      ap (◌++◌ (put_uint32 (uint32 b 0))) (
        ap (λ t. byte b 4 ∷ byte b 5 ∷ t)
          (ap (◌++◌ (put_uint16 (uint16 b 6))) (
              ap (◌++◌ (put_uint16 (uint16 b 8))) (
                ap (◌++◌ (put_uint16 (uint16 b 10))) (ids-read_header e)
                ∙ put_uint16-uint16 10 (omega arith))
              ∙ put_uint16-uint16 8 (omega arith))
            ∙ put_uint16-uint16 6 (omega arith))
        ∙ ap (◌∷◌ (byte b 4)) (cons_at 5 6 b refl (omega arith))
        ∙ cons_at 4 5 b refl (omega arith))
      ∙ put_uint32-uint32 0 (omega arith)

-- What is read from bytes fits the fields.
pub read_header-IsWords : (b : List ℕ) → All IsByte b → IsWords (read_header b)
unfolding read_header
read_header-IsWords b a = record {
  magic = uint32-lt b a 0;
  version = All-get_or b 4 a;
  flags = All-get_or b 5 a;
  opcode = omega (arith, All-get_or b 6 a, All-get_or b 7 a);
  header_len = omega (arith, All-get_or b 8 a, All-get_or b 9 a);
  reserved = omega (arith, All-get_or b 10 a, All-get_or b 11 a);
  route_id = uint32-lt b a 12;
  stream_id = uint32-lt b a 16;
  payload_len = uint32-lt b a 20;
  request_id = omega (arith, uint32-lt b a 24, uint32-lt b a 28);
}
