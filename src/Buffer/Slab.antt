-- ===== src/Buffer/Slab.antt =====
-- internal/buffer/slab.go. Each method runs under the slab's mutex, so it is one step; a method
-- that changes the slab returns the new one.
pub mod Leases
use mini_envoy.Base.{ℕ, zero, suc, ◌+◌, ◌*◌, List, [], ◌∷◌, ◌++◌, ltb}
use mini_envoy.Base.{if◌then◌else◌, length, get_or, set, replicate}
use mini_envoy.Base.Int.{ℤ, pos, negsuc, sub_ℕ}
use mini_envoy.Buffer.NextPow2.{next_pow2}

-- `free` holds the Go slice backwards: its head is the slice's last element, which `Get` takes.
pub record Slab : Type 0 where
  pub size : ℕ
  pub chunks : List (List ℕ)
  pub free : List ℕ

-- `make([]byte, n)`
abbrev pub make_bytes : ℕ → List ℕ
make_bytes n = replicate n 0

-- The loop of `NewSlab`: `i` chunks are there, `n` are still to come.
pub prealloc_loop : ℕ → ℕ → Slab → Slab
prealloc_loop zero i s = s
prealloc_loop (suc n) i s =
    prealloc_loop n (i + 1)
      (record s { chunks = s.chunks ++ (make_bytes s.size ∷ []); free = i ∷ s.free })

unfoldable pub new_slab : ℕ → ℕ → Slab
unfolding prealloc_loop next_pow2
new_slab chunk_size prealloc =
    let size = next_pow2 chunk_size in
    prealloc_loop prealloc 0
      (record { size = if ltb size 4096 then 4096 else size; chunks = []; free = [] })

-- An empty free list grows the slab. `IsValid` below rules the default of `get_or` out.
pub take_free : List ℕ → Slab → Slab × List ℕ × ℕ
take_free (i ∷ rest) s = (record s { free = rest }, get_or s.chunks i [], i)
take_free [] s =
    (record s { chunks = s.chunks ++ (make_bytes s.size ∷ []) }, make_bytes s.size, length s.chunks)

unfoldable pub get : Slab → Slab × List ℕ × ℕ
unfolding take_free
get s = take_free s.free s

unfoldable pub put : Slab → ℤ → Slab
put s (pos i) = record s { free = i ∷ s.free }
put s (negsuc _) = s

-- A chunk is the memory that the ring on it reads and writes: what the ring leaves there.
unfoldable pub store_chunk : Slab → ℕ → List ℕ → Slab
store_chunk s i bytes = record s { chunks = set s.chunks i bytes }

unfoldable pub in_use : Slab → ℤ
in_use s = sub_ℕ (length s.chunks) (length s.free)

unfoldable pub capacity : Slab → ℕ
capacity s = length s.chunks * s.size
