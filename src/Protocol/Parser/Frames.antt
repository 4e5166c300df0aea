-- ===== src/Protocol/Parser/Frames.antt =====
-- Whole frames through `Next`, `PeekPayload` and `ConsumePayload`.
use mini_envoy.Base.{ℕ, ◌+◌, ◌≤◌, ◌<◌, ◌≡◌, sym, ap, ap₂, ◌∙◌, arith, true, false, List, ◌++◌, none}
use mini_envoy.Base.{length, take, drop, All, ltb, not, length-append, take-append_length}
use mini_envoy.Base.{drop-append_length, Bool, Bool-cases, inl, inr, append_assoc, lt→ltb}
use mathlib.Core.Path.{subst}
use mini_envoy.Protocol.Frame.Sent.{drop_header}
use mini_envoy.Buffer.Ring.{Ring, len, slice, writable, extent, fill, advance_write}
use mini_envoy.Buffer.Ring.Bounds.{IsValid, advance_write-IsValid, len-le-mask}
use mini_envoy.Buffer.Ring.Fifo.{
  contents, peek_lem, contents-advance_read, receive_lem, fill-IsValid,
}
use mini_envoy.Protocol.Bytes.{IsByte}
use mini_envoy.Protocol.Header.{
  Header, IsWords, max_payload_hard_cap, encode_header, validate, read_header,
}
use mini_envoy.Protocol.Header.Codec.{length-encode_header, read_header-encode_header}
use mini_envoy.Protocol.Parser.{Parser, max, next, await_payload, peek_payload, consume_payload}
use mini_envoy.Protocol.Parser.Stream.{
  IsParser, pending, verdict, NextOf, verdict_both, pending_header, pending_none, not-ltb,
}
use mini_envoy.Protocol.Parser.Next.{next_refines, next_kept}

pending-receive :
    (p : Parser) {r : Ring} (bs : List ℕ)
    → IsValid r
    → length bs ≤ extent (writable r).0
    → pending p (advance_write (fill r (writable r).0 bs) (length bs)) ≡ pending p r ++ bs
pending-receive p {r} bs v h = elim (Bool-cases p.have_hdr) [
  | inl kept ↦
      pending_header p _ kept
      ∙ ap (◌++◌ (encode_header p.hdr)) (receive_lem bs v h)
      ∙ sym (append_assoc (encode_header p.hdr) (contents r) bs)
      ∙ ap (λ t. t ++ bs) (sym (pending_header p r kept))
  | inr fresh ↦
      pending_none p _ fresh ∙ receive_lem bs v h ∙ ap (λ t. t ++ bs) (sym (pending_none p r fresh))
]

-- After bytes have arrived, `Next` says what it would say had they been there from the start: the
-- bytes pending before, and these.
pub next-receive :
    {p : Parser} {r : Ring} (bs : List ℕ)
    → IsParser p
    → IsValid r
    → length bs ≤ extent (writable r).0
    → All IsByte (contents r ++ bs)
    → (next p (advance_write (fill r (writable r).0 bs) (length bs))).0
      ≡ verdict (max p) (pending p r ++ bs)
next-receive {p} {r} bs ip v h bytes =
    (next_refines ip (advance_write-IsValid (length bs) (fill-IsValid (writable r).0 bs v))
      (subst (All IsByte) (sym (receive_lem bs v h)) bytes)).says
    ∙ ap (verdict (max p)) (pending-receive p bs v h)

-- A parser that waits for a payload longer than the ring can hold never reports a frame or an error,
-- whatever arrives: the ring keeps one byte back, and `mask` is what it can hold.
pub next-oversized :
    {p : Parser} {r : Ring}
    → IsParser p
    → IsValid r
    → p.have_hdr ≡ true
    → r.mask < p.hdr.payload_len
    → next p r ≡ ((false, none), p, r)
next-oversized {p} {r} ip v h big =
    next_kept p r h ∙ (unfold await_payload in ap (λ t. ((not t, none), p, r)) short)
  where
    short : ltb (len r) p.hdr.payload_len ≡ true
    short = lt→ltb (len r) p.hdr.payload_len (omega (arith, len-le-mask v))

-- A frame at the front of the pending bytes comes out whole: `Next` reports it, `Header` is its
-- header, `PeekPayload` its payload, and after `ConsumePayload` the bytes behind it are pending.
pub next_frame :
    {p : Parser} {r : Ring} (h : Header) (payload rest : List ℕ)
    → IsParser p
    → IsValid r
    → All IsByte (contents r)
    → IsWords h
    → validate h max_payload_hard_cap ≡ none
    → validate h (max p) ≡ none
    → length payload ≡ h.payload_len
    → pending p r ≡ encode_header h ++ (payload ++ rest)
    → let (v, p', r') = next p r in
      let (a, b) = peek_payload p' r' in
      let (p'', r'') = consume_payload p' r' in
      (v ≡ (true, none))
      × (p'.hdr ≡ h)
      × (slice r' a ++ slice r' b ≡ payload)
      × (pending p'' r'' ≡ rest)
next_frame {p} {r} h payload rest ip v bytes w hard soft size e = (says, hdr, peeked, left)
  where
    p' : Parser
    p' = (next p r).1

    r' : Ring
    r' = (next p r).2

    n : NextOf p r (next p r)
    n = next_refines ip v bytes

    tail : List ℕ
    tail = payload ++ rest

    sized : length tail ≡ length payload + length rest
    sized = length-append payload rest

    again : read_header (encode_header h ++ tail) ≡ h
    again = read_header-encode_header h tail w

    says : (next p r).0 ≡ (true, none)
    says =
        n.says
        ∙ ap (verdict (max p)) e
        ∙ verdict_both (max p) (length tail) (encode_header h ++ tail)
            (omega (arith, length-append (encode_header h) tail, length-encode_header h))
            (ap (λ k. validate k max_payload_hard_cap) again ∙ hard)
            (ap (λ k. validate k (max p)) again ∙ soft)
        ∙ ap (λ (t : Bool). (not t, none))
            (ap (λ k. ltb (length tail) k.payload_len) again
              ∙ not-ltb (length tail) h.payload_len (omega (arith, sized)))

    ready : (p'.have_hdr ≡ true) × (p'.hdr.payload_len ≤ len r')
    ready = n.ready (ap (λ t. t.0) says)

    stream : encode_header p'.hdr ++ contents r' ≡ encode_header h ++ tail
    stream = sym (pending_header p' r' ready.0) ∙ n.keeps (ap (λ t. t.1) says) ∙ e

    hdr : p'.hdr ≡ h
    hdr =
        sym (read_header-encode_header p'.hdr (contents r') (n.parser.words ready.0))
        ∙ ap read_header stream
        ∙ again

    body : contents r' ≡ tail
    body = sym (drop_header p'.hdr (contents r')) ∙ ap (drop 32) stream ∙ drop_header h tail

    size' : p'.hdr.payload_len ≡ length payload
    size' = ap (λ k. k.payload_len) hdr ∙ sym size

    peeked : slice r' (peek_payload p' r').0 ++ slice r' (peek_payload p' r').1 ≡ payload
    peeked =
        unfold peek_payload in
        peek_lem p'.hdr.payload_len n.ring ∙ ap₂ take size' body ∙ take-append_length payload rest

    left : pending (consume_payload p' r').0 (consume_payload p' r').1 ≡ rest
    left =
        unfold consume_payload in
        contents-advance_read p'.hdr.payload_len n.ring ready.1
        ∙ ap₂ drop size' body
        ∙ drop-append_length payload rest
