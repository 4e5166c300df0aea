-- ===== src/Protocol/Parser/Next.antt =====
-- `Next` keeps to the stream, case by case.
use mini_envoy.Base.{ℕ, zero, suc, ◌≤◌, ◌<◌, ◌≡◌, refl, sym, ap, ap₂, ◌∙◌, arith, Bool, true, false}
use mini_envoy.Base.{
  not, List, [], ◌∷◌, ◌++◌, Option, none, some, length, take, drop, ltb, lt→ltb, ltb→lt, if_true,
  if_false,
}
use mathlib.Core.Path.{subst}
use mini_envoy.Base.{All, Bool-cases, Option-cases, inl, inr, length-take, length-append}
use mini_envoy.Base.{take-append-drop}
use mini_envoy.Buffer.Ring.{Ring, len, copy_out, advance_read}
use mini_envoy.Buffer.Ring.Bounds.{IsValid, advance_read-IsValid}
use mini_envoy.Buffer.Ring.Fifo.{contents, length-contents, contents-advance_read}
use mini_envoy.Buffer.Ring.Copy.{copy_out_lem}
use mini_envoy.Protocol.Bytes.{IsByte}
use mini_envoy.Protocol.Errors.{Error}
use mini_envoy.Protocol.Header.{
  Header, max_payload_hard_cap, decode_header, encode_header, validate, read_header,
}
use mini_envoy.Protocol.Header.Codec.{
  length-encode_header, decode_header_long, read_header-encode_header, encode_header-read_header,
  read_header-IsWords,
}
use mini_envoy.Protocol.Parser.{Parser, Verdict, max, await_payload, limited, decoded, next}
use mini_envoy.Protocol.Parser.Stream.{
  IsParser, pending, verdict, NextOf, not-ltb, verdict_short, verdict_hard, verdict_soft,
  verdict_both, pending_header, pending_none,
}

-- With the header at hand nothing changes, and the verdict is on the payload alone.
next_waiting :
    {p : Parser} {r : Ring}
    → IsParser p
    → IsValid r
    → p.have_hdr ≡ true
    → NextOf p r (await_payload p r)
unfolding await_payload
next_waiting {p} {r} ip v h = record {
  says =
      ap (λ k. (not (ltb (len r) k.payload_len), none)) (sym again)
      ∙ sym (
          verdict_both (max p) (len r) s
            (omega (
              arith,
              length-append (encode_header p.hdr) (contents r),
              length-encode_header p.hdr,
              length-contents v,
            ))
            (ap (λ k. validate k max_payload_hard_cap) again ∙ ip.hard h)
            (ap (λ k. validate k (max p)) again ∙ ip.soft h))
      ∙ ap (verdict (max p)) (sym (pending_header p r h));
  keeps = λ _. refl;
  parser = ip;
  ring = v;
  limit = refl;
  ready = λ e. (h, ground arith);
}
  where
    s : List ℕ
    s = encode_header p.hdr ++ contents r

    again : read_header s ≡ p.hdr
    again = read_header-encode_header p.hdr (contents r) (ip.words h)

with_header_max :
    (p : Parser) (h : Header) (b : List ℕ) (have : Bool)
    → max (record p { hdr = h; scratch = b; have_hdr = have }) ≡ max p
unfolding max
with_header_max p h b have = refl

-- The scratch bytes are the first 32 of the ring.
next_fresh :
    {p : Parser} {r : Ring}
    → IsParser p
    → IsValid r
    → p.have_hdr ≡ false
    → 32 ≤ len r
    → let b = take 32 (contents r) in
      let p' = record p { scratch = b } in
      next p r ≡ decoded (validate (read_header b) max_payload_hard_cap, read_header b) p' r
unfolding next
next_fresh {p} {r} ip v h long =
    if_false _ _ h
    ∙ if_false _ _ (not-ltb (len r) 32 long)
    ∙ ap (λ b. decoded (decode_header b p.hdr) (record p { scratch = b }) r) scratch
    ∙ ap (λ d. decoded d (record p { scratch = take 32 (contents r) }) r)
        (decode_header_long (take 32 (contents r)) p.hdr
          (omega (arith, length-take 32 (contents r), length-contents v)))
  where
    scratch : (copy_out r p.scratch).1 ≡ take 32 (contents r)
    scratch =
        ap (λ (t : ℕ × List ℕ). t.1) (copy_out_lem p.scratch v (omega (arith, ip.room)))
        ∙ ap (λ t. take t (contents r)) ip.room

All-take : (n : ℕ) (s : List ℕ) → All IsByte s → All IsByte (take n s)
All-take zero s a = tt
All-take (suc n) [] a = tt
All-take (suc n) (x ∷ s) a = (a.0, All-take n s a.1)

header_bytes :
    (s : List ℕ)
    → 32 ≤ length s
    → All IsByte s
    → encode_header (read_header (take 32 s)) ≡ take 32 s
header_bytes s h a =
    encode_header-read_header (take 32 s) (All-take 32 s a) (omega (arith, length-take 32 s))

read_header-take :
    (s : List ℕ) → 32 ≤ length s → All IsByte s → read_header (take 32 s) ≡ read_header s
read_header-take s h a =
    sym (
      read_header-encode_header (read_header (take 32 s)) (drop 32 s)
        (read_header-IsWords (take 32 s) (All-take 32 s a)))
    ∙ ap read_header (ap (λ t. t ++ drop 32 s) (header_bytes s h a) ∙ take-append-drop 32 s)

-- The same promise about a state with the same bytes pending.
NextOf-of :
    {p q : Parser} {r u : Ring} {out : Verdict × Parser × Ring}
    → max q ≡ max p
    → pending q u ≡ pending p r
    → NextOf q u out
    → NextOf p r out
NextOf-of limit same n = record {
  says = n.says ∙ ap₂ verdict limit same;
  keeps = λ e. n.keeps e ∙ same;
  parser = n.parser;
  ring = n.ring;
  limit = n.limit ∙ limit;
  ready = n.ready;
}

refused :
    {p : Parser} {r : Ring} (x : Error) (h : Header) (b : List ℕ)
    → IsValid r
    → p.have_hdr ≡ false
    → length b ≡ 32
    → verdict (max p) (contents r) ≡ (false, some x)
    → NextOf p r ((false, some x), record p { hdr = h; scratch = b }, r)
refused {p} {r} x h b v fresh size e = record {
  says = sym e ∙ ap (verdict (max p)) (sym (pending_none p r fresh));
  keeps = λ w. cc;
  parser = record { room = size; words = λ w. cc; hard = λ w. cc; soft = λ w. cc };
  ring = v;
  limit = with_header_max p h b p.have_hdr;
  ready = λ w. cc;
}

module _ {p : Parser} {r : Ring} (ip : IsParser p) (v : IsValid r) (fresh : p.have_hdr ≡ false)
    (long : 32 ≤ len r) (bytes : All IsByte (contents r)) where
  enough : 32 ≤ length (contents r)
  enough = omega (arith, length-contents v)

  room : length (take 32 (contents r)) ≡ 32
  room = omega (arith, length-take 32 (contents r), enough)

  same_header : read_header (take 32 (contents r)) ≡ read_header (contents r)
  same_header = read_header-take (contents r) enough bytes

  -- `next` with the first check's answer put in
  answered :
      (a : Option Error)
      → validate (read_header (contents r)) max_payload_hard_cap ≡ a
      → next p r
        ≡ decoded
            (a, read_header (take 32 (contents r)))
            (record p { scratch = take 32 (contents r) })
            r
  answered a e =
      next_fresh ip v fresh long
      ∙ ap
          (λ k.
            decoded (k, read_header (take 32 (contents r)))
              (record p { scratch = take 32 (contents r) }) r)
          (ap (λ k. validate k max_payload_hard_cap) same_header ∙ e)

  next_hard :
      (x : Error)
      → validate (read_header (contents r)) max_payload_hard_cap ≡ some x
      → NextOf p r (next p r)
  unfolding decoded
  next_hard x e = subst (NextOf p r) (sym (answered (some x) e)) (
      refused x (read_header (take 32 (contents r))) (take 32 (contents r)) v fresh room
        (verdict_hard (max p) (contents r) x enough e))

  next_soft :
      (x : Error)
      → validate (read_header (contents r)) max_payload_hard_cap ≡ none
      → validate (read_header (contents r)) (max p) ≡ some x
      → NextOf p r (next p r)
  unfolding decoded limited
  next_soft x e f = subst (NextOf p r) (sym (answered none e ∙ second)) (
      refused x (read_header (take 32 (contents r))) (take 32 (contents r)) v fresh room
        (verdict_soft (max p) (contents r) x enough e f))
    where
      p' : Parser
      p' = record p { hdr = read_header (take 32 (contents r)); scratch = take 32 (contents r) }

      second : limited (validate p'.hdr (max p')) p' r ≡ ((false, some x), p', r)
      second =
          ap (λ k. limited k p' r)
            (ap₂ validate same_header (with_header_max p p'.hdr p'.scratch p.have_hdr) ∙ f)

  next_both :
      validate (read_header (contents r)) max_payload_hard_cap ≡ none
      → validate (read_header (contents r)) (max p) ≡ none
      → NextOf p r (next p r)
  unfolding decoded limited
  next_both e f = subst (NextOf p r) (sym (answered none e ∙ second)) (
      NextOf-of (with_header_max p p'.hdr p'.scratch true) same
        (next_waiting kept (advance_read-IsValid 32 v) refl))
    where
      p' : Parser
      p' = record p { hdr = read_header (take 32 (contents r)); scratch = take 32 (contents r) }

      q : Parser
      q = record p' { have_hdr = true }

      second : limited (validate p'.hdr (max p')) p' r ≡ await_payload q (advance_read r 32)
      second =
          ap (λ k. limited k p' r)
            (ap₂ validate same_header (with_header_max p p'.hdr p'.scratch p.have_hdr) ∙ f)

      kept : IsParser q
      kept = record {
        room = room;
        words = λ w. read_header-IsWords (take 32 (contents r)) (All-take 32 (contents r) bytes);
        hard = λ w. ap (λ k. validate k max_payload_hard_cap) same_header ∙ e;
        soft = λ w. ap₂ validate same_header (with_header_max p p'.hdr p'.scratch true) ∙ f;
      }

      same : pending q (advance_read r 32) ≡ pending p r
      same =
          ap₂ ◌++◌ (header_bytes (contents r) enough bytes) (contents-advance_read 32 v long)
          ∙ take-append-drop 32 (contents r)
          ∙ sym (pending_none p r fresh)

next_short :
    {p : Parser} {r : Ring}
    → IsParser p
    → IsValid r
    → p.have_hdr ≡ false
    → len r < 32
    → NextOf p r (next p r)
next_short {p} {r} ip v fresh short = subst (NextOf p r) (sym idle) (record {
  says =
      sym (verdict_short (max p) (contents r) (omega (arith, length-contents v)))
      ∙ ap (verdict (max p)) (sym (pending_none p r fresh));
  keeps = λ w. refl;
  parser = ip;
  ring = v;
  limit = refl;
  ready = λ w. cc;
})
  where
    idle : next p r ≡ ((false, none), p, r)
    idle = unfold next in if_false _ _ fresh ∙ if_true _ _ (lt→ltb (len r) 32 short)

pub next_kept : (p : Parser) (r : Ring) → p.have_hdr ≡ true → next p r ≡ await_payload p r
unfolding next
next_kept p r h = if_true _ _ h

-- `Next` says of the ring and the header taken from it what `verdict` says of the bytes pending, so
-- that how they arrived does not matter. Where it reports no error it neither loses nor adds a byte,
-- a frame that it reports has its whole payload in the ring, and ring and parser stay well formed.
pub next_refines :
    {p : Parser} {r : Ring}
    → IsParser p
    → IsValid r
    → All IsByte (contents r)
    → NextOf p r (next p r)
next_refines {p} {r} ip v bytes = elim (Bool-cases p.have_hdr) [
  | inl kept ↦ subst (NextOf p r) (sym (next_kept p r kept)) (next_waiting ip v kept)
  | inr fresh ↦ elim (Bool-cases (ltb (len r) 32)) [
    | inl short ↦ next_short ip v fresh (ltb→lt (len r) 32 short)
    | inr long ↦ read fresh (ground arith)
  ]
]
  where
    read : p.have_hdr ≡ false → 32 ≤ len r → NextOf p r (next p r)
    read fresh long =
        elim (Option-cases (validate (read_header (contents r)) max_payload_hard_cap)) [
          | inr (x, e) ↦ next_hard ip v fresh long bytes x e
          | inl e ↦ elim (Option-cases (validate (read_header (contents r)) (max p))) [
            | inr (x, f) ↦ next_soft ip v fresh long bytes x e f
            | inl f ↦ next_both ip v fresh long bytes e f
          ]
        ]
