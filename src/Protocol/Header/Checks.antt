-- ===== src/Protocol/Header/Checks.antt =====
-- What `Validate` and `DecodeHeader` accept, and the codes of what they refuse.
use mini_envoy.Base.{ℕ, ◌≤◌, ◌<◌, ◌≡◌, ◌≢◌, ◌↔◌, ◌⊎◌, arith, List, none, some}
use mini_envoy.Protocol.Opcode.{op_data, op_error}
use mini_envoy.Protocol.Errors.{
  Error, short_header, bad_magic, bad_version, bad_flags, bad_header_len, bad_reserved,
  unknown_opcode, payload_too_large, truncated_frame, code_of, code_bad_magic,
  code_payload_too_large,
}
use mini_envoy.Protocol.Header.{Header, validate, decode_header, magic_menv, version1, header_size}

-- A header that may go through, at a payload limit.
pub record IsWellFormed (h : Header) (max_payload : ℕ) : Type 0 where
  pub magic : h.magic ≡ magic_menv
  pub version : h.version ≡ version1
  pub flags : h.flags ≡ 0
  pub header_len : h.header_len ≡ header_size
  pub reserved : h.reserved ≡ 0
  pub opcode_ge : op_data ≤ h.opcode
  pub opcode_le : h.opcode ≤ op_error
  pub payload : h.payload_len ≤ max_payload

-- The first thing that is wrong with a header, in the order of the protocol's checks.
abbrev pub FirstFault : Error → Header → ℕ → Type 0
FirstFault short_header h m = ⊥
FirstFault bad_magic h m = h.magic ≢ magic_menv
FirstFault bad_version h m = (h.magic ≡ magic_menv) × (h.version ≢ version1)
FirstFault bad_flags h m = (h.magic ≡ magic_menv) × (h.version ≡ version1) × (h.flags ≢ 0)
FirstFault bad_header_len h m =
    (h.magic ≡ magic_menv) × (h.version ≡ version1) × (h.flags ≡ 0) × (h.header_len ≢ header_size)
FirstFault bad_reserved h m =
    (h.magic ≡ magic_menv)
    × (h.version ≡ version1)
    × (h.flags ≡ 0)
    × (h.header_len ≡ header_size)
    × (h.reserved ≢ 0)
FirstFault unknown_opcode h m =
    (h.magic ≡ magic_menv)
    × (h.version ≡ version1)
    × (h.flags ≡ 0)
    × (h.header_len ≡ header_size)
    × (h.reserved ≡ 0)
    × ((h.opcode < op_data) ⊎ (op_error < h.opcode))
FirstFault payload_too_large h m =
    (h.magic ≡ magic_menv)
    × (h.version ≡ version1)
    × (h.flags ≡ 0)
    × (h.header_len ≡ header_size)
    × (h.reserved ≡ 0)
    × (op_data ≤ h.opcode)
    × (h.opcode ≤ op_error)
    × (m < h.payload_len)
FirstFault truncated_frame h m = ⊥

-- `Validate` passes exactly the well-formed headers.
pub validate-IsWellFormed : (h : Header) (m : ℕ) → (validate h m ≡ none) ↔ IsWellFormed h m
unfolding validate
validate-IsWellFormed h m = ((λ e. ground arith), (λ w. ground arith))

validate_fault : (e : Error) (h : Header) (m : ℕ) → validate h m ≡ some e → FirstFault e h m
unfolding validate
validate_fault short_header h m p = ground arith
validate_fault _ h m p = ground arith

fault_validate : (e : Error) (h : Header) (m : ℕ) → FirstFault e h m → validate h m ≡ some e
unfolding validate
fault_validate short_header h m p = absurd p
fault_validate truncated_frame h m p = absurd p
fault_validate _ h m p = ground arith

-- `Validate` refuses a header with an error exactly if that is its first fault.
pub validate-FirstFault :
    (e : Error) (h : Header) (m : ℕ) → (validate h m ≡ some e) ↔ FirstFault e h m
validate-FirstFault e h m = (validate_fault e h m, fault_validate e h m)

-- Whatever `DecodeHeader` refuses goes to the peer as one of the protocol's codes, 1001 to 1006,
-- and never as an internal error.
pub code_of-decode_header :
    (b : List ℕ) (before : Header) (e : Error)
    → (decode_header b before).0 ≡ some e
    → (code_bad_magic ≤ code_of e) × (code_of e ≤ code_payload_too_large)
unfolding decode_header validate code_of
code_of-decode_header b before e p = ground arith
