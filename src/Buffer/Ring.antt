-- ===== src/Buffer/Ring.antt =====
-- internal/buffer/ring.go and iovec.go. A Go `int` is 64 bits wide and `&` is taken on its two's
-- complement pattern. Counts and indices are never negative here.
pub mod Bounds
pub mod Round
pub mod Fifo
pub mod Copy
pub mod Lifecycle
pub mod Pool
pub mod Shared
use mini_envoy.Base.{ℕ, zero, suc, ◌+◌, ◌-◌, ◌%◌, ◌^◌, bit_and, min, List, [], ◌∷◌, ◌++◌}
use mini_envoy.Base.{Bool, true, false, Option, none, some, ltb, leb, ◌==◌, if◌then◌else◌}
use mini_envoy.Base.{length, set, take, drop, replicate}
use mini_envoy.Base.Int.{ℤ, pos, negsuc}
use mini_envoy.Buffer.NextPow2.{next_pow2}
use mini_envoy.Buffer.Slab.{Slab, get, put, store_chunk}

-- `buf` is `none` after `Release`. `slab` says whether the pointer is set: a process has one slab,
-- which is passed beside the ring.
pub record Ring : Type 0 where
  pub buf : Option (List ℕ)
  pub mask : ℕ
  pub r : ℕ
  pub w : ℕ
  pub slab : Bool
  pub slot : ℤ

abbrev pub word : ℕ
word = 2 ^ 64

unfoldable pub new_ring : ℕ → Ring
unfolding next_pow2
new_ring n =
    let p = next_pow2 n in
    let size = if ltb p 64 then 64 else p in
    record {
      buf = some (replicate size 0);
      mask = size - 1;
      r = 0;
      w = 0;
      slab = false;
      slot = negsuc 0;
    }

unfoldable pub attach_ring : Slab → Slab × Ring
unfolding get
attach_ring s =
    let (s', bytes, i) = get s in
    (
      s',
      record { buf = some bytes; mask = length bytes - 1; r = 0; w = 0; slab = true; slot = pos i },
    )

abbrev bytes_of : Option (List ℕ) → List ℕ
bytes_of none = []
bytes_of (some b) = b

-- The ring's bytes are the chunk, so they are what the chunk holds from here on.
pub release_slot : ℤ → Ring → Slab → Ring × Slab
release_slot (pos i) r s =
    (record r { slot = negsuc 0; buf = none }, put (store_chunk s i (bytes_of r.buf)) (pos i))
release_slot (negsuc _) r s = (r, s)

unfoldable pub release : Ring → Slab → Ring × Slab
unfolding release_slot put store_chunk
release r s = if r.slab then release_slot r.slot r s else (r, s)

unfoldable pub cap : Ring → ℕ
cap r = length (bytes_of r.buf)

unfoldable pub len : Ring → ℕ
len r = elim r.buf [ none ↦ 0 | some _ ↦ bit_and ((r.w + word - r.r) % word) r.mask ]

unfoldable pub free : Ring → ℕ
free r = elim r.buf [ none ↦ 0 | some _ ↦ r.mask - len r ]

unfoldable pub reset : Ring → Ring
reset r = record r { r = 0; w = 0 }

-- A slice `buf[lo:hi]` of the ring's bytes; a nil slice is empty too.
pub record Span : Type 0 where
  pub lo : ℕ
  pub hi : ℕ

abbrev pub span : ℕ → ℕ → Span
span lo hi = record { lo = lo; hi = hi }

abbrev pub no_bytes : Span
no_bytes = span 0 0

abbrev pub extent : Span → ℕ
extent a = a.hi - a.lo

-- `n` bytes of a buffer of `size` from `off` on, in one slice or two
abbrev pub wrap_span : ℕ → ℕ → ℕ → Span × Span
wrap_span size off n =
    if leb (off + n) size
    then (span off (off + n), no_bytes)
    else (span off size, span 0 (off + n - size))

unfoldable pub writable : Ring → Span × Span
writable r = elim r.buf [
  | none ↦ (no_bytes, no_bytes)
  | some b ↦ if free r == 0 then (no_bytes, no_bytes) else wrap_span (length b) r.w (free r)
]

unfoldable pub advance_write : Ring → ℕ → Ring
advance_write r n = if n == 0 then r else record r { w = bit_and ((r.w + n) % word) r.mask }

unfoldable pub peek : Ring → ℕ → Span × Span
peek r n = elim r.buf [
  | none ↦ (no_bytes, no_bytes)
  | some b ↦
      if n == 0
      then (no_bytes, no_bytes)
      else wrap_span (length b) r.r (if ltb (len r) n then len r else n)
]

unfoldable pub readable : Ring → Span × Span
readable r = peek r (len r)

unfoldable pub advance_read : Ring → ℕ → Ring
advance_read r n = if n == 0 then r else record r { r = bit_and ((r.r + n) % word) r.mask }

-- The bytes of a slice.
unfoldable pub slice : Ring → Span → List ℕ
slice r a = take (extent a) (drop a.lo (bytes_of r.buf))

-- The builtin `copy(dst, src)`: the bytes of `dst` after it.
abbrev pub copied : List ℕ → List ℕ → List ℕ
copied dst src = take (length dst) src ++ drop (length src) dst

-- The number of bytes copied from two slices, and `dst` after it.
unfoldable pub copy_two : List ℕ → List ℕ → List ℕ → ℕ × List ℕ
copy_two dst a b =
    let n = min (length dst) (length a) in
    let dst' = copied dst a in
    if ltb n (length dst)
    then (n + min (length (drop n dst')) (length b), take n dst' ++ copied (drop n dst') b)
    else (n, dst')

unfoldable pub copy_out : Ring → List ℕ → ℕ × List ℕ
copy_out r dst = let (a, b) = peek r (length dst) in copy_two dst (slice r a) (slice r b)

-- iovec.go: the slices that are not empty.
unfoldable pub gather : List ℕ → List ℕ → List (List ℕ)
gather a b =
    let tail = if ltb 0 (length b) then b ∷ [] else [] in
    if ltb 0 (length a) then a ∷ tail else tail

-- What `recvfrom` does to the memory of the slice that it is handed: its first bytes are `bs`.
unfoldable pub write_at : List ℕ → ℕ → List ℕ → List ℕ
write_at b i [] = b
write_at b i (x ∷ xs) = write_at (set b i x) (i + 1) xs

unfoldable pub fill : Ring → Span → List ℕ → Ring
unfolding write_at
fill r a bs = elim r.buf [ none ↦ r | some b ↦ record r { buf = some (write_at b a.lo bs) } ]
