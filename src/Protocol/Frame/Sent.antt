-- ===== src/Protocol/Frame/Sent.antt =====
-- The bytes of the frames that the proxy writes, and how a peer reads them.
use mini_envoy.Base.{ℕ, ◌+◌, ◌-◌, ◌/◌, ◌%◌, ◌^◌, ◌≤◌, ◌<◌, ◌≡◌, refl, sym, ap, ap₂, ◌∙◌, arith}
use mini_envoy.Base.{List, ◌∷◌, ◌++◌, none, length, take, drop, replicate, ltb, if◌then◌else◌}
use mini_envoy.Base.{
  length-take, length-drop, drop-append_ge, length-replicate, length-append, take_all,
}
use mini_envoy.Base.{take-append_length, drop-append_length, Bool-cases, inl, inr}
use mini_envoy.Buffer.Ring.{copied}
use mini_envoy.Buffer.Ring.Copy.{copied_all}
use mini_envoy.Protocol.Opcode.{op_error}
use mini_envoy.Protocol.Bytes.{uint16}
use mini_envoy.Protocol.Header.{Header, IsWords, encode_header, decode_header, new_header}
use mini_envoy.Protocol.Header.{validate, max_payload_hard_cap}
use mini_envoy.Protocol.Header.Codec.{length-encode_header, decode_header-encode_header}
use mini_envoy.Protocol.Header.Checks.{validate-IsWellFormed}
use mini_envoy.Protocol.Frame.{with_header, append_frame, encode_error}

take_header : (h : Header) (b : List ℕ) → take 32 (encode_header h ++ b) ≡ encode_header h
take_header h b =
    ap (λ t. take t (encode_header h ++ b)) (sym (length-encode_header h))
    ∙ take-append_length (encode_header h) b

pub drop_header : (h : Header) (b : List ℕ) → drop 32 (encode_header h ++ b) ≡ b
drop_header h b =
    ap (λ t. drop t (encode_header h ++ b)) (sym (length-encode_header h))
    ∙ drop-append_length (encode_header h) b

framed :
    (h : Header) (b payload : List ℕ)
    → length b ≡ 32 + length payload
    → take 32 (with_header h b) ++ copied (drop 32 (with_header h b)) payload
      ≡ encode_header h ++ payload
framed h b payload e = ap₂ ◌++◌ (take_header h (drop 32 b)) (
    ap (λ t. copied t payload) (drop_header h (drop 32 b))
    ∙ copied_all (drop 32 b) payload (omega (arith, length-drop 32 b)))

-- `AppendFrame` returns the header's bytes and the payload's, whether `dst` has room or not.
pub append_frame_lem :
    (dst : List ℕ) (h : Header) (payload : List ℕ)
    → append_frame dst h payload ≡ encode_header h ++ payload
unfolding append_frame
append_frame_lem dst h payload = elim (Bool-cases (ltb (length dst) (32 + length payload))) [
  | inl e ↦ rw e (
      framed h (replicate (32 + length payload) 0) payload
        (length-replicate (32 + length payload) 0))
  | inr e ↦ rw e (
      framed h (take (32 + length payload) dst) payload
        (ground (arith, length-take (32 + length payload) dst)))
]

-- The header of an ERROR frame that answers `req` with `n` bytes of text.
abbrev pub error_header : Header → ℕ → Header
error_header req n =
    new_header op_error req.route_id req.stream_id ((2 + n) % 2 ^ 32) req.request_id

clamp_msg : (msg : List ℕ) → (if ltb 256 (length msg) then take 256 msg else msg) ≡ take 256 msg
clamp_msg msg = elim (Bool-cases (ltb 256 (length msg))) [
  | inl e ↦ rw e
  | inr e ↦ rw e (sym (take_all 256 msg (ground arith)))
]

room_length :
    (dst : List ℕ) (need : ℕ)
    → length (if ltb (length dst) need then replicate need 0 else take need dst) ≡ need
room_length dst need = elim (Bool-cases (ltb (length dst) need)) [
  | inl e ↦ rw e (length-replicate need 0)
  | inr e ↦ rw e (ground (arith, length-take need dst))
]

body_length :
    (h : Header) (room : List ℕ) (n : ℕ)
    → length room ≡ 34 + n
    → length (drop 2 (drop 32 (with_header h room))) ≡ n
body_length h room n e =
    ap (λ t. length (drop 2 t)) (drop_header h (drop 32 room))
    ∙ omega (arith, length-drop 2 (drop 32 room), length-drop 32 room)

-- `EncodeError` returns the header, the code in network order and at most 256 bytes of the text,
-- whether `dst` has room or not.
pub encode_error_lem :
    (dst : List ℕ) (req : Header) (code : ℕ) (msg : List ℕ)
    → encode_error dst req code msg
      ≡ encode_header (error_header req (length (take 256 msg)))
        ++ ((code / 2 ^ 8 % 256) ∷ (code % 256) ∷ take 256 msg)
unfolding encode_error
encode_error_lem dst req code msg = rw (clamp_msg msg) (
    ap (λ t. encode_header h ++ ((code / 2 ^ 8 % 256) ∷ (code % 256) ∷ t))
      (copied_all (drop 2 (drop 32 (with_header h room))) (take 256 msg) (sym sized)))
  where
    n : ℕ
    n = length (take 256 msg)

    h : Header
    h = error_header req n

    room : List ℕ
    room = if ltb (length dst) (32 + 2 + n) then replicate (32 + 2 + n) 0 else take (32 + 2 + n) dst

    sized : length (drop 2 (drop 32 (with_header h room))) ≡ n
    sized = body_length h room n (room_length dst (32 + 2 + n))

pub error_header_checked :
    (req : Header) (n : ℕ) → n ≤ 256 → validate (error_header req n) max_payload_hard_cap ≡ none
unfolding new_header
error_header_checked req n h =
    (validate-IsWellFormed (error_header req n) max_payload_hard_cap).1 (record {
      magic = refl;
      version = refl;
      flags = refl;
      header_len = refl;
      reserved = refl;
      opcode_ge = omega arith;
      opcode_le = omega arith;
      payload = omega arith;
    })

pub error_header-IsWords : (req : Header) (n : ℕ) → IsWords req → IsWords (error_header req n)
unfolding new_header
error_header-IsWords req n w = omega (arith, w.route_id, w.stream_id, w.request_id)

-- How a peer sees an ERROR frame: `DecodeHeader` accepts its header, which is an ERROR header with
-- the ids of the request, its payload length is the number of bytes that follow, and these are the
-- code, in network order, and at most 256 bytes of the text.
pub decode_header-encode_error :
    (dst : List ℕ) (req : Header) (code : ℕ) (msg : List ℕ) (before : Header)
    → IsWords req
    → code < 2 ^ 16
    → let frame = encode_error dst req code msg in
      let (e, h) = decode_header frame before in
      (e ≡ none)
      × (h.opcode ≡ op_error)
      × (h.route_id ≡ req.route_id)
      × (h.stream_id ≡ req.stream_id)
      × (h.request_id ≡ req.request_id)
      × (length frame ≡ 32 + h.payload_len)
      × (uint16 (drop 32 frame) 0 ≡ code)
      × (drop 34 frame ≡ take 256 msg)
unfolding new_header
decode_header-encode_error dst req code msg before w hc = rw (encode_error_lem dst req code msg) (
    rw (decode_header-encode_header h before body (error_header-IsWords req n w)) (
      error_header_checked req n (omega (arith, length-take 256 msg)),
      refl,
      refl,
      refl,
      refl,
      omega (
        arith,
        length-append (encode_header h) body,
        length-encode_header h,
        length-take 256 msg,
      ),
      rw (drop_header h body) (omega arith),
      drop-append_ge 34 (encode_header h) body (omega (arith, length-encode_header h))
          ∙ ap (λ t. drop (34 - t) body) (length-encode_header h),
    ))
  where
    n : ℕ
    n = length (take 256 msg)

    h : Header
    h = error_header req n

    body : List ℕ
    body = (code / 2 ^ 8 % 256) ∷ (code % 256) ∷ take 256 msg
