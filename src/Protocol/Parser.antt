-- ===== src/Protocol/Parser.antt =====
-- internal/protocol/parser.go: frames taken from a ring one by one.
pub mod Stream
pub mod Next
pub mod Frames
use mini_envoy.Base.{ℕ, Bool, true, false, Option, none, some, List, ltb, ◌==◌, not, if◌then◌else◌}
use mini_envoy.Base.{replicate}
use mini_envoy.Buffer.Ring.{Ring, Span, len, copy_out, peek, advance_read}
use mini_envoy.Protocol.Errors.{Error}
use mini_envoy.Protocol.Header.{
  Header, empty_header, header_size, max_payload_default, max_payload_hard_cap, decode_header,
  validate,
}

pub record Parser : Type 0 where
  pub max_payload : ℕ
  pub have_hdr : Bool
  pub hdr : Header
  pub scratch : List ℕ

-- The zero value with the limit set: the scratch array holds `HeaderSize` bytes.
abbrev pub new_parser : ℕ → Parser
new_parser max_payload = record {
  max_payload = max_payload;
  have_hdr = false;
  hdr = empty_header;
  scratch = replicate header_size 0;
}

unfoldable pub reset : Parser → Parser
reset p = record p { have_hdr = false; hdr = empty_header }

unfoldable pub max : Parser → ℕ
max p =
    if p.max_payload == 0
    then max_payload_default
    else if ltb max_payload_hard_cap p.max_payload
    then max_payload_hard_cap
    else p.max_payload

-- Go's `(bool, error)`.
abbrev pub Verdict : Type 0
Verdict = Bool × Option Error

-- The rest of `Next` once the header is there.
pub await_payload : Parser → Ring → Verdict × Parser × Ring
await_payload p r = ((not (ltb (len r) p.hdr.payload_len), none), p, r)

-- The second check, at the parser's limit: a header that passes is taken out of the ring.
pub limited : Option Error → Parser → Ring → Verdict × Parser × Ring
limited (some x) p r = ((false, some x), p, r)
limited none p r = await_payload (record p { have_hdr = true }) (advance_read r header_size)

-- What comes of the header that was decoded: it is kept in `p.hdr` also where it is refused.
pub decoded : Option Error × Header → Parser → Ring → Verdict × Parser × Ring
decoded (some x, h) p r = ((false, some x), record p { hdr = h }, r)
decoded (none, h) p r = let p' = record p { hdr = h } in limited (validate p'.hdr (max p')) p' r

unfoldable pub next : Parser → Ring → Verdict × Parser × Ring
unfolding await_payload limited decoded
next p r =
    if p.have_hdr
    then await_payload p r
    else if ltb (len r) header_size
    then ((false, none), p, r)
    else let p' = record p { scratch = (copy_out r p.scratch).1 } in
      decoded (decode_header p'.scratch p'.hdr) p' r

unfoldable pub peek_payload : Parser → Ring → Span × Span
peek_payload p r = peek r p.hdr.payload_len

unfoldable pub consume_payload : Parser → Ring → Parser × Ring
consume_payload p r = (record p { have_hdr = false }, advance_read r p.hdr.payload_len)
