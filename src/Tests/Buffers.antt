-- ===== src/Tests/Buffers.antt =====
-- Rings and slabs at concrete values.
use mini_envoy.Base.{ℕ, ◌+◌, ◌^◌, ◌≤◌, ◌≡◌, refl, arith, [], ◌∷◌, ◌++◌, length}
use mini_envoy.Base.Int.{pos}
use mini_envoy.Buffer.Slab.{new_slab, in_use}
use mini_envoy.Buffer.NextPow2.{next_pow2}
use mini_envoy.Buffer.NextPow2.Smeared.{next_pow2-least}
use mini_envoy.Buffer.Slab.Leases.{count}
use mini_envoy.Base.{All}
use mini_envoy.Buffer.Ring.{
  Ring, len, free, writable, advance_write, fill, extent, attach_ring, release,
}
use mini_envoy.Buffer.Ring.Fifo.{contents, receive_lem}
use mini_envoy.Buffer.Ring.Lifecycle.{
  Pool, attach, give_back, work, writes, Reach, here, next, slots, IsWhole,
}
use mini_envoy.Buffer.Ring.Shared.{fresh_pool, Reach-exclusive}
use mini_envoy.Tests.Samples.{small, small_valid}

room : 1 ≤ extent (writable small).0
unfolding writable free len
room = omega arith

receive_lem_example :
    contents (advance_write (fill small (writable small).0 (99 ∷ [])) 1)
    ≡ contents small ++ (99 ∷ [])
receive_lem_example = receive_lem (99 ∷ []) small_valid room

four : 4 ≤ len small
unfolding len
four = omega arith

-- A ring takes the chunk that is there, is written to and is released twice, and another ring takes
-- the chunk again.
abbrev one_ring : Pool
one_ring = record {
  slab = (attach_ring (new_slab 4096 1)).0;
  rings = (attach_ring (new_slab 4096 1)).1 ∷ [];
}

abbrev used : Ring
used = advance_write (attach_ring (new_slab 4096 1)).1 5

abbrev after_work : Pool
after_work = record one_ring { rings = used ∷ [] }

abbrev given_once : Pool
given_once = record {
  slab = (release used one_ring.slab).1;
  rings = (release used one_ring.slab).0 ∷ [];
}

abbrev given_twice : Pool
given_twice = record {
  slab = (release (release used one_ring.slab).0 given_once.slab).1;
  rings = (release (release used one_ring.slab).0 given_once.slab).0 ∷ [];
}

abbrev taken_again : Pool
taken_again = record {
  slab = (attach_ring given_twice.slab).0;
  rings = (attach_ring given_twice.slab).1 ∷ given_twice.rings;
}

given_once-Reach : Reach (fresh_pool 4096 1) given_once
given_once-Reach =
    next {q = after_work}
      (next {q = one_ring} (next here (attach refl))
        (work [] [] (attach_ring (new_slab 4096 1)).1 used refl (writes 5 refl) refl))
      (give_back [] [] used refl refl)

taken_again-Reach : Reach (fresh_pool 4096 1) taken_again
taken_again-Reach =
    next {q = given_twice}
      (next {q = given_once} given_once-Reach
        (give_back [] [] (release used one_ring.slab).0 refl refl))
      (attach refl)

Reach-exclusive_example :
    All (IsWhole taken_again.slab.size) taken_again.rings
    × ((i : ℕ) → count i taken_again.slab.free + count i (slots taken_again.rings) ≤ 1)
    × (in_use taken_again.slab ≡ pos (length (slots taken_again.rings)))
Reach-exclusive_example = Reach-exclusive 4096 1 taken_again-Reach

small_slab_size : (new_slab 4096 0).size ≡ 2 ^ 12
unfolding new_slab next_pow2
small_slab_size = refl

next_pow2-least_example : next_pow2 5000 ≡ 2 ^ 13
next_pow2-least_example = next_pow2-least 12 5000 (omega arith) (omega arith) (omega arith)
