-- ===== src/Buffer/Ring/Bounds.antt =====
-- The representation invariant of a ring, and its indices without the bit operations.
use native.Mathlib.Nat.{
  mul-add-mod_self_right, mod-eq_of_lt, mod-lt, mod-eq-sub-mod, pow-le-pow_right,
}
use native.Mathlib.Decide.{dec_lt}
use mini_envoy.Base.{
  ℕ, zero, suc, ◌+◌, ◌-◌, ◌*◌, ◌%◌, ◌^◌, ◌≤◌, ◌<◌, bit_and, ◌≡◌, sym, ap, ap₂, ◌∙◌,
}
use mini_envoy.Base.{arith, List, some, leb, if◌then◌else◌, length, ◌==◌, Bool-cases, inl, inr}
use mini_envoy.Base.Words.{bit_and-mask, pow_pos, pow-add}
use mini_envoy.Buffer.Ring.{Ring, word, len, free, writable, advance_write, advance_read}
use mini_envoy.Buffer.Ring.{extent}

-- A ring that is not released: its size is a power of two, and both cursors lie in it.
pub record IsValid (r : Ring) : Type 0 where
  pub bytes : List ℕ
  pub has : r.buf ≡ some bytes
  pub log : ℕ
  pub log_small : log ≤ 62
  pub pow : r.mask + 1 ≡ 2 ^ log
  pub sized : length bytes ≡ r.mask + 1
  pub r_in : r.r ≤ r.mask
  pub w_in : r.w ≤ r.mask

-- From one cursor to the other, forwards round a buffer of `size`.
abbrev pub gap : ℕ → ℕ → ℕ → ℕ
gap size from to = if leb from to then to - from else to + size - from

abbrev pub step : ℕ → ℕ → ℕ → ℕ
step size i n = if leb size (i + n) then i + n - size else i + n

pow-le_max : (k : ℕ) → k ≤ 62 → 2 ^ k ≤ 2 ^ 62
pow-le_max k h = pow-le-pow_right (omega arith) h

pub mod-step : (size i n : ℕ) → i < size → n ≤ size → (i + n) % size ≡ step size i n
mod-step size i n hi hn = elim (dec_lt (i + n) size) [
  | yes p ↦ ground (arith, mod-eq_of_lt p)
  | no p ↦ ground (
    arith,
    mod-eq-sub-mod {n = i + n} {m = size} (omega arith),
    mod-eq_of_lt {n = i + n - size} {m = size} (omega arith),
  )
]

-- Below the word size nothing wraps, and the mask of a power of two is a remainder by it.
pub mask-step :
    (k m i n : ℕ)
    → k ≤ 62
    → m + 1 ≡ 2 ^ k
    → i ≤ m
    → n ≤ m + 1
    → bit_and ((i + n) % word) m ≡ step (m + 1) i n
mask-step k m i n hk hm hi hn =
    bit_and-mask k ((i + n) % word) m hm
    ∙ ap₂ ◌%◌ (omega (arith, pow-le_max k hk)) (sym hm)
    ∙ mod-step (m + 1) i n (omega arith) hn

-- The word size is a multiple of the ring's size.
word-multiple : (k : ℕ) → k ≤ 62 → word ≡ 2 ^ (64 - k) * 2 ^ k
word-multiple k h = ap (λ t. 2 ^ t) {x = 64} (omega arith) ∙ pow-add (64 - k) k

behind-mod : (size q i j : ℕ) → j < i → i < size → 0 < q → (j + q * size - i) % size ≡ j + size - i
behind-mod size (suc q) i j h hi hq =
    ap (λ t. t % size) (grind arith)
    ∙ mul-add-mod_self_right q size (j + size - i)
    ∙ mod-eq_of_lt (omega arith)
behind-mod size zero i j h hi hq = absurd (omega arith)

behind-word :
    (k m i j : ℕ)
    → k ≤ 62
    → m + 1 ≡ 2 ^ k
    → i ≤ m
    → j < i
    → (j + word - i) % word % 2 ^ k ≡ j + (m + 1) - i
behind-word k m i j hk hm hi p =
    ap (λ t. t % 2 ^ k) (omega (arith, pow-le_max k hk) ∙ ap (λ t. j + t - i) multiple)
    ∙ ap (λ t. (j + 2 ^ (64 - k) * t - i) % t) (sym hm)
    ∙ behind-mod (m + 1) (2 ^ (64 - k)) i j p (omega arith) (pow_pos (64 - k))
  where
    multiple : word ≡ 2 ^ (64 - k) * 2 ^ k
    multiple = word-multiple k hk

-- A difference of cursors under the mask, negative or not, is the way from one to the other.
pub mask-gap :
    (k m i j : ℕ)
    → k ≤ 62
    → m + 1 ≡ 2 ^ k
    → i ≤ m
    → j ≤ m
    → bit_and ((j + word - i) % word) m ≡ gap (m + 1) i j
mask-gap k m i j hk hm hi hj = bit_and-mask k ((j + word - i) % word) m hm ∙ elim (dec_lt j i) [
  | yes p ↦ ground (arith, behind-word k m i j hk hm hi p)
  | no p ↦ ground (
    arith,
    pow-le_max k hk,
    mod-eq_of_lt {n = (j + word - i) % word} {m = 2 ^ k} (omega (arith, pow-le_max k hk)),
  )
]

-- The number of readable bytes is the way from the read to the write cursor.
pub len_lem : {r : Ring} → IsValid r → len r ≡ gap (r.mask + 1) r.r r.w
unfolding len
len_lem {r} v = rw v.has (mask-gap v.log r.mask r.r r.w v.log_small v.pow v.r_in v.w_in)

-- One byte is always kept back.
pub len-le-mask : {r : Ring} → IsValid r → len r ≤ r.mask
len-le-mask v = ground (arith, len_lem v)

pub free-add-len : {r : Ring} → IsValid r → free r + len r ≡ r.mask
unfolding free
free-add-len v = ground (arith, len-le-mask v)

mask_lt : (k m x : ℕ) → m + 1 ≡ 2 ^ k → bit_and x m ≤ m
mask_lt k m x h = omega (arith, bit_and-mask k x m h, mod-lt x (pow_pos k))

-- Both cursors move within the buffer, however far.
pub advance_write-IsValid : {r : Ring} (n : ℕ) → IsValid r → IsValid (advance_write r n)
unfolding advance_write
advance_write-IsValid {r} n v = elim (Bool-cases (n == 0)) [
  | inl e ↦ rw e v
  | inr e ↦ rw e (record {
    bytes = v.bytes;
    has = v.has;
    log = v.log;
    log_small = v.log_small;
    pow = v.pow;
    sized = v.sized;
    r_in = v.r_in;
    w_in = mask_lt v.log r.mask ((r.w + n) % word) v.pow;
  })
]

pub advance_read-IsValid : {r : Ring} (n : ℕ) → IsValid r → IsValid (advance_read r n)
unfolding advance_read
advance_read-IsValid {r} n v = elim (Bool-cases (n == 0)) [
  | inl e ↦ rw e v
  | inr e ↦ rw e (record {
    bytes = v.bytes;
    has = v.has;
    log = v.log;
    log_small = v.log_small;
    pow = v.pow;
    sized = v.sized;
    r_in = mask_lt v.log r.mask ((r.r + n) % word) v.pow;
    w_in = v.w_in;
  })
]

-- A cursor that moves by at most the buffer's size goes round it at most once.
pub advance_write-w :
    {r : Ring} (n : ℕ)
    → IsValid r
    → n ≤ r.mask + 1
    → (advance_write r n).w ≡ step (r.mask + 1) r.w n
unfolding advance_write
advance_write-w {r} n v h =
    ground (arith, mask-step v.log r.mask r.w n v.log_small v.pow v.w_in h, v.w_in)

pub advance_read-r :
    {r : Ring} (n : ℕ) → IsValid r → n ≤ r.mask + 1 → (advance_read r n).r ≡ step (r.mask + 1) r.r n
unfolding advance_read
advance_read-r {r} n v h =
    ground (arith, mask-step v.log r.mask r.r n v.log_small v.pow v.r_in h, v.r_in)

-- What the moves leave alone.
pub advance_read_frame :
    (r : Ring) (n : ℕ)
    → let r' = advance_read r n in (r'.buf ≡ r.buf) × (r'.mask ≡ r.mask) × (r'.w ≡ r.w)
unfolding advance_read
advance_read_frame r n = ground arith

pub advance_write_frame :
    (r : Ring) (n : ℕ)
    → let r' = advance_write r n in (r'.buf ≡ r.buf) × (r'.mask ≡ r.mask) × (r'.r ≡ r.r)
unfolding advance_write
advance_write_frame r n = ground arith

-- Reading `n` readable bytes frees them, and writing `n` free bytes uses them up.
pub len-advance_read :
    {r : Ring} (n : ℕ) → IsValid r → n ≤ len r → len (advance_read r n) + n ≡ len r
len-advance_read {r} n v h = ground (
  arith,
  len_lem v,
  len_lem (advance_read-IsValid n v),
  advance_read-r n v (omega (arith, len-le-mask v)),
  advance_read_frame r n,
)

pub len-advance_write :
    {r : Ring} (n : ℕ) → IsValid r → n ≤ free r → len (advance_write r n) ≡ len r + n
len-advance_write {r} n v h = ground (
  arith,
  len_lem v,
  free-add-len v,
  len_lem (advance_write-IsValid n v),
  advance_write-w n v (omega (arith, free-add-len v)),
  advance_write_frame r n,
)

pub writable-extent :
    {r : Ring}
    → IsValid r
    → let (a, b) = writable r in (extent a + extent b ≡ free r) × (a.hi ≤ r.mask + 1) × (b.hi ≤ r.r)
unfolding writable
writable-extent {r} v = ground (arith, len_lem v, free-add-len v)
