-- ===== src/Buffer/Ring/Fifo.antt =====
-- A valid ring is a queue of the bytes between its cursors: what its operations do to that queue.
use mini_envoy.Base.{ℕ, zero, suc, ◌+◌, ◌-◌, ◌%◌, ◌≤◌, ◌<◌, ◌≡◌, ◌⊎◌, inl, inr, refl, sym, ap, ap₂}
use mini_envoy.Base.{◌∙◌, arith, List, [], ◌∷◌, ◌++◌, none, some, length, take, drop, leb, ltb}
use mini_envoy.Base.{
  if◌then◌else◌, Bool-cases, take-append_length, take_all, leb→le, append-nil, ◌≢◌,
  drop-append_length,
}
use mini_envoy.Buffer.Ring.{Ring, len, free, writable, peek, slice, fill}
use mini_envoy.Buffer.Ring.{
  write_at, advance_write, advance_read, extent, wrap_span, Span, span, no_bytes,
}
use mini_envoy.Buffer.Ring.Bounds.{
  IsValid, step, len_lem, len-le-mask, free-add-len, advance_write_frame, advance_read_frame,
  advance_read-r, len-advance_read, len-advance_write, writable-extent, mod-step,
}
use mini_envoy.Buffer.Ring.Round.{
  around, length-around, around-add, around-mod, slice-around, slices-around, around-write_at,
  around-write_at_other, length-write_at, write_at-nil,
}

-- The queue that a ring stands for, the oldest byte first. A released ring has none.
unfoldable pub contents : Ring → List ℕ
contents r = elim r.buf [ none ↦ [] | some b ↦ around b r.r (len r) ]

contents_of : (r : Ring) (b : List ℕ) → r.buf ≡ some b → contents r ≡ around b r.r (len r)
unfolding contents
contents_of r b h = ground arith

pub contents_lem : {r : Ring} (v : IsValid r) → contents r ≡ around v.bytes r.r (len r)
contents_lem {r} v = contents_of r v.bytes v.has

pub length-contents : {r : Ring} → IsValid r → length (contents r) ≡ len r
length-contents {r} v = ap length (contents_lem v) ∙ length-around v.bytes r.r (len r)

around-step :
    (b : List ℕ) (i n k : ℕ)
    → i < length b
    → n ≤ length b
    → around b (step (length b) i n) k ≡ around b (i + n) k
around-step b i n k hi hn =
    ap (λ t. around b t k) (sym (mod-step (length b) i n hi hn)) ∙ around-mod b (i + n) k

-- The readable bytes split at any point.
contents_split :
    {r : Ring} (v : IsValid r) (n : ℕ)
    → n ≤ len r
    → contents r ≡ around v.bytes r.r n ++ around v.bytes (r.r + n) (len r - n)
contents_split {r} v n h =
    contents_lem v
    ∙ ap (around v.bytes r.r) {y = n + (len r - n)} (omega arith)
    ∙ around-add v.bytes r.r n (len r - n)

take-contents :
    {r : Ring} (v : IsValid r) (n : ℕ) → n ≤ len r → take n (contents r) ≡ around v.bytes r.r n
take-contents {r} v n h =
    ap₂ take (sym (length-around v.bytes r.r n)) (contents_split v n h)
    ∙ take-append_length (around v.bytes r.r n) (around v.bytes (r.r + n) (len r - n))

drop-contents :
    {r : Ring} (v : IsValid r) (n : ℕ)
    → n ≤ len r
    → drop n (contents r) ≡ around v.bytes (r.r + n) (len r - n)
drop-contents {r} v n h =
    ap₂ drop (sym (length-around v.bytes r.r n)) (contents_split v n h)
    ∙ drop-append_length (around v.bytes r.r n) (around v.bytes (r.r + n) (len r - n))

-- `AdvanceRead(n)` of readable bytes drops the `n` oldest ones.
pub contents-advance_read :
    {r : Ring} (n : ℕ) → IsValid r → n ≤ len r → contents (advance_read r n) ≡ drop n (contents r)
contents-advance_read {r} n v h =
    contents_of (advance_read r n) v.bytes ((advance_read_frame r n).0 ∙ v.has)
    ∙ ap₂ (around v.bytes)
        (advance_read-r n v (omega (arith, len-le-mask v)) ∙ ap (λ t. step t r.r n) (sym v.sized))
        left
    ∙ around-step v.bytes r.r n (len r - n) (omega arith) (omega (arith, len-le-mask v))
    ∙ sym (drop-contents v n h)
  where
    left : len (advance_read r n) ≡ len r - n
    left = omega (arith, len-advance_read n v h)

slice_of :
    (r : Ring) (b : List ℕ) (a : Span) → r.buf ≡ some b → slice r a ≡ take (extent a) (drop a.lo b)
unfolding slice
slice_of r b a h = ground arith

wrap_span_lem :
    {r : Ring} (v : IsValid r) (off n : ℕ)
    → off ≤ r.mask
    → n ≤ r.mask + 1
    → let (a, b) = wrap_span (length v.bytes) off n in slice r a ++ slice r b ≡ around v.bytes off n
wrap_span_lem {r} v off n h hn = elim (Bool-cases (leb (off + n) (length v.bytes))) [
  | inl e ↦ rw e (
      rw (slice_of r v.bytes (span off (off + n)) v.has, slice_of r v.bytes no_bytes v.has)
        (append-nil _
          ∙ ap (λ t. take t (drop off v.bytes)) (omega arith)
          ∙ slice-around v.bytes off n (leb→le _ _ e)))
  | inr e ↦ rw e (
      ap₂ ◌++◌ (slice_of r v.bytes (span off (length v.bytes)) v.has)
        (slice_of r v.bytes (span 0 (off + n - length v.bytes)) v.has)
      ∙ ap (λ t. take (length v.bytes - off) (drop off v.bytes) ++ take t v.bytes) (omega arith)
      ∙ slices-around v.bytes off n (omega arith) (ground arith) (omega arith))
]

peek_span :
    {r : Ring} (n : ℕ) (v : IsValid r)
    → n ≢ 0
    → peek r n ≡ wrap_span (length v.bytes) r.r (if ltb (len r) n then len r else n)
unfolding peek
peek_span n v h = ground arith

peek_zero : (r : Ring) → peek r 0 ≡ (no_bytes, no_bytes)
unfolding peek
peek_zero r = ground arith

take-clamp :
    {r : Ring} (n : ℕ) (v : IsValid r)
    → around v.bytes r.r (if ltb (len r) n then len r else n) ≡ take n (contents r)
take-clamp {r} n v = elim (Bool-cases (ltb (len r) n)) [
  | inl e ↦
      rw e
        (sym (contents_lem v) ∙ sym (take_all n (contents r) (ground (arith, length-contents v))))
  | inr e ↦ rw e (sym (take-contents v n (ground arith)))
]

-- `Peek(n)` is the oldest `n` bytes, or all of them where there are fewer, in one slice or in two.
pub peek_lem :
    {r : Ring} (n : ℕ)
    → IsValid r
    → slice r (peek r n).0 ++ slice r (peek r n).1 ≡ take n (contents r)
peek_lem {r} zero v = rw (peek_zero r, slice_of r v.bytes no_bytes v.has) refl
peek_lem {r} (suc n) v =
    ap (λ (t : Span × Span). slice r t.0 ++ slice r t.1) (peek_span (suc n) v (omega arith))
    ∙ wrap_span_lem v r.r (if ltb (len r) (suc n) then len r else suc n) v.r_in
        (ground (arith, len-le-mask v))
    ∙ take-clamp (suc n) v

fill_frame :
    {r : Ring} (a : Span) (bs : List ℕ) (v : IsValid r)
    → let r' = fill r a bs in
      (r'.buf ≡ some (write_at v.bytes a.lo bs)) × (r'.mask ≡ r.mask) × (r'.r ≡ r.r) × (r'.w ≡ r.w)
unfolding fill
fill_frame {r} a bs v = ground arith

-- Bytes that arrive in a slice leave the cursors alone.
pub fill-IsValid : {r : Ring} (a : Span) (bs : List ℕ) → IsValid r → IsValid (fill r a bs)
fill-IsValid {r} a bs v = record {
  bytes = write_at v.bytes a.lo bs;
  has = (fill_frame a bs v).0;
  log = v.log;
  log_small = v.log_small;
  pow = omega (arith, fill_frame a bs v, v.pow);
  sized = omega (arith, fill_frame a bs v, v.sized, length-write_at v.bytes a.lo bs);
  r_in = omega (arith, fill_frame a bs v, v.r_in);
  w_in = omega (arith, fill_frame a bs v, v.w_in);
}

pub len-fill : {r : Ring} (a : Span) (bs : List ℕ) → IsValid r → len (fill r a bs) ≡ len r
len-fill a bs v = ground (arith, len_lem v, len_lem (fill-IsValid a bs v), fill_frame a bs v)

-- Where a byte can be written, the first slice to write begins at the write cursor.
writable_lo : {r : Ring} → IsValid r → 0 < extent (writable r).0 → (writable r).0.lo ≡ r.w
unfolding writable
writable_lo v h = ground arith

-- A write of `n` free bytes at the write cursor does not meet the readable ones.
write_apart :
    {r : Ring} (v : IsValid r) (n k : ℕ)
    → n ≤ free r
    → r.w + n ≤ length v.bytes
    → k < len r
    → ((r.r + k) % length v.bytes < r.w) ⊎ (r.w + n ≤ (r.r + k) % length v.bytes)
write_apart {r} v n k hn hw hk = ground (
  arith,
  len_lem v,
  free-add-len v,
  mod-step (length v.bytes) r.r k (omega arith) (omega (arith, len-le-mask v)),
)

-- The write cursor is where the readable bytes end.
read_end : {r : Ring} (v : IsValid r) → (r.r + len r) % length v.bytes ≡ r.w
read_end {r} v = ground (
  arith,
  len_lem v,
  mod-step (length v.bytes) r.r (len r) (omega arith) (omega (arith, len-le-mask v)),
)

write_end :
    {r : Ring} (v : IsValid r) (bs : List ℕ)
    → length bs ≤ free r
    → r.w + length bs ≤ length v.bytes
    → around (write_at v.bytes r.w bs) r.r (len r + length bs) ≡ contents r ++ bs
write_end {r} v bs hf hw =
    around-add b' r.r (len r) (length bs)
    ∙ ap₂ ◌++◌
        (around-write_at_other v.bytes r.w bs r.r (len r)
            (λ k hk. write_apart v (length bs) k hf hw hk)
          ∙ sym (contents_lem v))
        (sym (around-mod b' (r.r + len r) (length bs))
          ∙ ap (λ t. around b' ((r.r + len r) % t) (length bs)) (length-write_at v.bytes r.w bs)
          ∙ ap (λ t. around b' t (length bs)) (read_end v)
          ∙ around-write_at v.bytes r.w bs hw)
  where
    b' : List ℕ
    b' = write_at v.bytes r.w bs

advance_write_zero : (r : Ring) → advance_write r 0 ≡ r
unfolding advance_write
advance_write_zero r = refl

-- Bytes received into the first slice of `Writable()`, and accounted for by `AdvanceWrite`, join the
-- end of the queue.
pub receive_lem :
    {r : Ring} (bs : List ℕ)
    → IsValid r
    → length bs ≤ extent (writable r).0
    → contents (advance_write (fill r (writable r).0 bs) (length bs)) ≡ contents r ++ bs
receive_lem {r} [] v h = rw (advance_write_zero (fill r (writable r).0 [])) (
    contents_of (fill r (writable r).0 []) (write_at v.bytes (writable r).0.lo []) filled.0
    ∙ ap₂ (around (write_at v.bytes (writable r).0.lo [])) filled.2 (len-fill (writable r).0 [] v)
    ∙ ap (λ t. around t r.r (len r)) (write_at-nil v.bytes (writable r).0.lo)
    ∙ sym (contents_lem v)
    ∙ sym (append-nil (contents r)))
  where
    filled :
        let r' = fill r (writable r).0 [] in
        (r'.buf ≡ some (write_at v.bytes (writable r).0.lo []))
        × (r'.mask ≡ r.mask)
        × (r'.r ≡ r.r)
        × (r'.w ≡ r.w)
    filled = fill_frame (writable r).0 [] v
receive_lem {r} (x ∷ bs) v h =
    contents_of (advance_write r' n) b' ((advance_write_frame r' n).0 ∙ filled.0)
    ∙ ap₂ (around b') (omega (arith, advance_write_frame r' n, filled)) longer
    ∙ ap (λ t. around (write_at v.bytes t (x ∷ bs)) r.r (len r + n)) lo
    ∙ write_end v (x ∷ bs) (omega (arith, writable-extent v)) (omega (arith, writable-extent v, lo))
  where
    n : ℕ
    n = suc (length bs)

    a : Span
    a = (writable r).0

    r' : Ring
    r' = fill r a (x ∷ bs)

    b' : List ℕ
    b' = write_at v.bytes a.lo (x ∷ bs)

    filled : (r'.buf ≡ some b') × (r'.mask ≡ r.mask) × (r'.r ≡ r.r) × (r'.w ≡ r.w)
    filled = fill_frame a (x ∷ bs) v

    valid : IsValid r'
    valid = fill-IsValid a (x ∷ bs) v

    lo : a.lo ≡ r.w
    lo = writable_lo v (omega arith)

    room : n ≤ free r'
    room = omega (
      arith,
      free-add-len valid,
      free-add-len v,
      len-fill a (x ∷ bs) v,
      filled,
      writable-extent v,
    )

    longer : len (advance_write r' n) ≡ len r + n
    longer = omega (arith, len-advance_write n valid room, len-fill a (x ∷ bs) v)
