-- ===== src/Protocol/Frame.antt =====
-- internal/protocol/codec.go, and EncodeError of parser.go. A Go slice `dst` is given by the bytes
-- that its capacity holds; the result is the slice that is returned.
pub mod Sent
use mini_envoy.Base.{ℕ, ◌+◌, ◌/◌, ◌%◌, ◌^◌, List, [], ◌∷◌, ◌++◌, length, take, drop, replicate}
use mini_envoy.Base.{ltb, if◌then◌else◌}
use mini_envoy.Buffer.Ring.{copied}
use mini_envoy.Protocol.Opcode.{op_error}
use mini_envoy.Protocol.Header.{Header, header_size, encode_header, new_header}

-- `EncodeHeader(&h, b[:HeaderSize])` on a slice of at least that many bytes
abbrev pub with_header : Header → List ℕ → List ℕ
with_header h b = encode_header h ++ drop header_size b

unfoldable pub append_frame : List ℕ → Header → List ℕ → List ℕ
append_frame dst h payload =
    let need = header_size + length payload in
    let fresh = with_header h (replicate need 0) in
    let reused = with_header h (take need dst) in
    if ltb (length dst) need
    then take header_size fresh ++ copied (drop header_size fresh) payload
    else take header_size reused ++ copied (drop header_size reused) payload

-- `msg` is the bytes of the string. `req` gives the ids that the frame echoes.
unfoldable pub encode_error : List ℕ → Header → ℕ → List ℕ → List ℕ
encode_error dst req code msg =
    let msg' = if ltb 256 (length msg) then take 256 msg else msg in
    let need = header_size + 2 + length msg' in
    let room = if ltb (length dst) need then replicate need 0 else take need dst in
    let h =
      new_header op_error req.route_id req.stream_id ((2 + length msg') % 2 ^ 32) req.request_id in
    let body = drop header_size (with_header h room) in
    encode_header h ++ ((code / 2 ^ 8 % 256) ∷ (code % 256) ∷ copied (drop 2 body) msg')
