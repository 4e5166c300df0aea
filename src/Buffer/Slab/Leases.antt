-- ===== src/Buffer/Slab/Leases.antt =====
-- Who holds which chunk of a slab: every chunk is free or held by one ring.
use mini_envoy.Base.{ℕ, zero, suc, ◌+◌, ◌<◌, ◌≡◌, refl, ap, arith, ltb, ◌==◌}
use mini_envoy.Base.{if◌then◌else◌, List, [], ◌∷◌, ◌++◌, length, All, get_or, set, length-append}
use mini_envoy.Base.{length-set, length-replicate}
use mini_envoy.Base.Int.{pos}
use mini_envoy.Buffer.Slab.{
  Slab, make_bytes, prealloc_loop, new_slab, take_free, get, put, store_chunk,
}
use mini_envoy.Buffer.Slab.{in_use}

-- How often a slot is listed.
abbrev pub count : ℕ → List ℕ → ℕ
count i [] = 0
count i (x ∷ xs) = if x == i then suc (count i xs) else count i xs

-- The list with the first mention of a slot taken out.
abbrev pub erase : ℕ → List ℕ → List ℕ
erase i [] = []
erase i (x ∷ xs) = if x == i then xs else x ∷ erase i xs

abbrev pub once : ℕ → ℕ → ℕ
once i n = if ltb i n then 1 else 0

-- The slots that rings hold, beside the slab: each chunk of the slab's size is in one place, once.
pub record IsLeased (s : Slab) (held : List ℕ) : Type 0 where
  pub sized : All (λ (c : List ℕ). length c ≡ s.size) s.chunks
  pub total : length s.free + length held ≡ length s.chunks
  pub owned : (i : ℕ) → count i s.free + count i held ≡ once i (length s.chunks)

count-erase :
    (i j : ℕ) (xs : List ℕ)
    → 0 < count i xs
    → count j (erase i xs) + (if i == j then 1 else 0) ≡ count j xs
count-erase i j [] h = elim h [ ]
count-erase i j (x ∷ xs) h = ground (arith, count-erase i j xs)

length-erase : (i : ℕ) (xs : List ℕ) → 0 < count i xs → suc (length (erase i xs)) ≡ length xs
length-erase i [] h = elim h [ ]
length-erase i (x ∷ xs) h = ground (arith, length-erase i xs)

All-get_or :
    (n : ℕ) (cs : List (List ℕ)) (i : ℕ)
    → All (λ (c : List ℕ). length c ≡ n) cs
    → i < length cs
    → length (get_or cs i []) ≡ n
All-get_or n [] i a h = elim h [ ]
All-get_or n (c ∷ cs) zero a h = a.0
All-get_or n (c ∷ cs) (suc i) a h = All-get_or n cs i a.1 (omega arith)

All-set :
    (n : ℕ) (cs : List (List ℕ)) (i : ℕ) (c : List ℕ)
    → All (λ (c : List ℕ). length c ≡ n) cs
    → length c ≡ n
    → All (λ (c : List ℕ). length c ≡ n) (set cs i c)
All-set n [] i c a h = a
All-set n (x ∷ cs) zero c a h = (h, a.1)
All-set n (x ∷ cs) (suc i) c a h = (a.0, All-set n cs i c a.1 h)

All-snoc :
    (n : ℕ) (cs : List (List ℕ)) (c : List ℕ)
    → All (λ (c : List ℕ). length c ≡ n) cs
    → length c ≡ n
    → All (λ (c : List ℕ). length c ≡ n) (cs ++ (c ∷ []))
All-snoc n [] c a h = (h, tt)
All-snoc n (x ∷ cs) c a h = (a.0, All-snoc n cs c a.1 h)

take_free-IsLeased :
    (free : List ℕ) (s : Slab) (held : List ℕ)
    → free ≡ s.free
    → IsLeased s held
    → let (s', bytes, i) = take_free free s in
      IsLeased s' (i ∷ held) × (count i held ≡ 0) × (i < length s'.chunks) × (length bytes ≡ s.size)
unfolding take_free
take_free-IsLeased [] s held e v = (
  record {
    sized = All-snoc s.size s.chunks (make_bytes s.size) v.sized (length-replicate s.size 0);
    total = omega (arith, v.total, grown);
    owned = λ j. ground (arith, v.owned j, grown);
  },
  ground (arith, v.owned (length s.chunks), ap (count (length s.chunks)) e),
  omega (arith, grown),
  length-replicate s.size 0,
)
  where
    grown : length (s.chunks ++ (make_bytes s.size ∷ [])) ≡ length s.chunks + 1
    grown = length-append s.chunks (make_bytes s.size ∷ [])
take_free-IsLeased (i ∷ rest) s held e v = (
  record {
    sized = v.sized;
    total = omega (arith, v.total, ap length e);
    owned = λ j. ground (arith, v.owned j, ap (count j) e);
  },
  ground (arith, v.owned i, ap (count i) e),
  there,
  All-get_or s.size s.chunks i v.sized there,
)
  where
    there : i < length s.chunks
    there = ground (arith, v.owned i, ap (count i) e)

-- `Get` hands out a chunk that no ring holds, of the slab's size, whether it is taken from the free
-- list or new.
pub get-IsLeased :
    (s : Slab) (held : List ℕ)
    → IsLeased s held
    → let (s', bytes, i) = get s in
      IsLeased s' (i ∷ held) × (count i held ≡ 0) × (i < length s'.chunks) × (length bytes ≡ s.size)
unfolding get
get-IsLeased s held v = take_free-IsLeased s.free s held refl v

take_free_size : (free : List ℕ) (s : Slab) → (take_free free s).0.size ≡ s.size
unfolding take_free
take_free_size [] s = refl
take_free_size (i ∷ rest) s = refl

pub get_size : (s : Slab) → (get s).0.size ≡ s.size
unfolding get
get_size s = take_free_size s.free s

-- A ring that holds a chunk may give it back, with any bytes of the same number in it.
pub put-IsLeased :
    (s : Slab) (held : List ℕ) (i : ℕ) (bytes : List ℕ)
    → IsLeased s held
    → 0 < count i held
    → length bytes ≡ s.size
    → IsLeased (put (store_chunk s i bytes) (pos i)) (erase i held)
unfolding put store_chunk
put-IsLeased s held i bytes v h hb = record {
  sized = All-set s.size s.chunks i bytes v.sized hb;
  total = omega (arith, v.total, length-set s.chunks i bytes, length-erase i held h);
  owned = λ j. ground (arith, v.owned j, length-set s.chunks i bytes, count-erase i j held h);
}

-- `InUse` is the number of chunks that rings hold.
pub in_use_lem : (s : Slab) (held : List ℕ) → IsLeased s held → in_use s ≡ pos (length held)
unfolding in_use
in_use_lem s held v = ground (arith, v.total)

-- The loop of `NewSlab` frees each chunk that it makes.
prealloc_loop-IsLeased :
    (n i : ℕ) (s : Slab) → i ≡ length s.chunks → IsLeased s [] → IsLeased (prealloc_loop n i s) []
unfolding prealloc_loop
prealloc_loop-IsLeased zero i s e v = v
prealloc_loop-IsLeased (suc n) i s e v =
    prealloc_loop-IsLeased n (i + 1)
      (record s { chunks = s.chunks ++ (make_bytes s.size ∷ []); free = i ∷ s.free })
      (omega (arith, grown))
      (record {
        sized = All-snoc s.size s.chunks (make_bytes s.size) v.sized (length-replicate s.size 0);
        total = omega (arith, v.total, grown);
        owned = λ j. ground (arith, v.owned j, grown);
      })
  where
    grown : length (s.chunks ++ (make_bytes s.size ∷ [])) ≡ length s.chunks + 1
    grown = length-append s.chunks (make_bytes s.size ∷ [])

pub new_slab-IsLeased : (chunk_size prealloc : ℕ) → IsLeased (new_slab chunk_size prealloc) []
unfolding new_slab
new_slab-IsLeased chunk_size prealloc =
    prealloc_loop-IsLeased prealloc 0 _ refl
      (record { sized = tt; total = refl; owned = λ j. ground arith })
