-- ===== src/Buffer/Ring/Shared.antt =====
-- Rings that share one slab, however the calls of the reactors interleave.
use mini_envoy.Base.{
  ℕ, ◌+◌, ◌≤◌, ◌≡◌, refl, sym, ◌∙◌, arith, List, [], ◌∷◌, ◌++◌, length, All, true, none, some,
  if_true,
}
use mathlib.Core.Path.{subst}
use mini_envoy.Base.{==_iff}
use mini_envoy.Base.Int.{pos, negsuc}
use mini_envoy.Buffer.Slab.{Slab, get, put, store_chunk, new_slab, in_use}
use mini_envoy.Buffer.Slab.Leases.{
  IsLeased, count, erase, get-IsLeased, get_size, put-IsLeased, in_use_lem, new_slab-IsLeased,
}
use mini_envoy.Buffer.Ring.{Ring, attach_ring, release}
use mini_envoy.Buffer.Ring.Lifecycle.{
  Pool, Turn, attach, give_back, work, Reach, here, next, Work, slot_of, slots, IsWhole, holding,
  released,
}
use mini_envoy.Buffer.Ring.Pool.{
  All-out, All-in, IsLeased-out, IsLeased-in, Work-slot, Work-IsWhole,
}

-- Each chunk of the slab is free or in one ring, and each ring is whole.
abbrev IsShared : Slab → List Ring → Type 0
IsShared s rs = IsLeased s (slots rs) × All (IsWhole s.size) rs

IsShared-out :
    (s : Slab) (before after : List Ring) (r : Ring)
    → IsShared s (before ++ (r ∷ after))
    → IsShared s (r ∷ (before ++ after))
IsShared-out s before after r (v, w) =
    (IsLeased-out s before after r v, All-out (IsWhole s.size) before after r w)

IsShared-in :
    (s : Slab) (before after : List Ring) (r : Ring)
    → IsShared s (r ∷ (before ++ after))
    → IsShared s (before ++ (r ∷ after))
IsShared-in s before after r (v, w) =
    (IsLeased-in s before after r v, All-in (IsWhole s.size) before after r w)

attached :
    (s : Slab) (rs : List Ring)
    → IsShared s rs
    → IsShared (attach_ring s).0 ((attach_ring s).1 ∷ rs)
unfolding attach_ring
attached s rs (v, w) =
    let got = get-IsLeased s (slots rs) v in
    let size = get_size s in
    (
      got.0,
      (
        holding (get s).2 (get s).1 refl refl refl (got.3 ∙ sym size),
        subst (λ n. All (IsWhole n) rs) (sym size) w,
      ),
    )

freed :
    (s : Slab) (rest : List ℕ) (i : ℕ) (bytes : List ℕ)
    → IsLeased s (i ∷ rest)
    → length bytes ≡ s.size
    → IsLeased (put (store_chunk s i bytes) (pos i)) rest
freed s rest i bytes v l =
    subst (IsLeased (put (store_chunk s i bytes) (pos i)))
      (if_true rest (i ∷ erase i rest) ((==_iff i i).1 refl))
      (put-IsLeased s (i ∷ rest) i bytes v (ground arith) l)

release_held :
    (r : Ring) (s : Slab) (i : ℕ) (bytes : List ℕ)
    → r.slab ≡ true
    → r.slot ≡ pos i
    → r.buf ≡ some bytes
    → release r s ≡ (record r { slot = negsuc 0; buf = none }, put (store_chunk s i bytes) (pos i))
unfolding release
release_held r s i bytes a at b = ground arith

release_again :
    (r : Ring) (s : Slab) (n : ℕ) → r.slab ≡ true → r.slot ≡ negsuc n → release r s ≡ (r, s)
unfolding release
release_again r s n a at = ground arith

-- Releasing a ring that holds a chunk, and one that was released before.
given_back :
    (s : Slab) (rs : List Ring) (r : Ring)
    → IsShared s (r ∷ rs)
    → IsShared (release r s).1 ((release r s).0 ∷ rs)
unfolding put store_chunk
given_back s rs r (v, (holding i bytes a at b l, w)) =
    subst (λ x. IsShared x.1 (x.0 ∷ rs)) (sym (release_held r s i bytes a at b))
      (
        freed s (slots rs) i bytes (subst (λ z. IsLeased s (slot_of z ++ slots rs)) at v) l,
        (released a 0 refl refl, w),
      )
given_back s rs r (v, (released a n at b, w)) =
    subst (λ x. IsShared x.1 (x.0 ∷ rs)) (sym (release_again r s n a at))
      (v, (released a n at b, w))

worked :
    (s : Slab) (rs : List Ring) (r u : Ring) → Work r u → IsShared s (r ∷ rs) → IsShared s (u ∷ rs)
worked s rs r u step (v, (whole, w)) = (rw (Work-slot step) v, (Work-IsWhole s.size step whole, w))

Turn-IsShared : {p q : Pool} → IsShared p.slab p.rings → Turn p q → IsShared q.slab q.rings
Turn-IsShared {p} h (attach e) = rw e (attached p.slab p.rings h)
Turn-IsShared {p} h (give_back before after r at e) = rw e (
    IsShared-in (release r p.slab).1 before after (release r p.slab).0 (
      given_back p.slab (before ++ after) r
        (IsShared-out p.slab before after r (subst (IsShared p.slab) at h))))
Turn-IsShared {p} h (work before after r u at step e) = rw e (
    IsShared-in p.slab before after u (
      worked p.slab (before ++ after) r u step
        (IsShared-out p.slab before after r (subst (IsShared p.slab) at h))))

Reach-IsShared : {p q : Pool} → IsShared p.slab p.rings → Reach p q → IsShared q.slab q.rings
Reach-IsShared h here = h
Reach-IsShared h (next reach turn) = Turn-IsShared (Reach-IsShared h reach) turn

abbrev pub fresh_pool : ℕ → ℕ → Pool
fresh_pool chunk_size prealloc = record { slab = new_slab chunk_size prealloc; rings = [] }

-- However the reactors attach rings, read and write them and release them, a ring twice included, each
-- ring has a chunk's slot and that many bytes, or, once released, neither; no slot is in two rings, the
-- slot of a ring is not free, and `InUse` is the number of rings that hold one.
pub Reach-exclusive :
    (chunk_size prealloc : ℕ) {p : Pool}
    → Reach (fresh_pool chunk_size prealloc) p
    → All (IsWhole p.slab.size) p.rings
      × ((i : ℕ) → count i p.slab.free + count i (slots p.rings) ≤ 1)
      × (in_use p.slab ≡ pos (length (slots p.rings)))
Reach-exclusive chunk_size prealloc {p} reach =
    (v.1, λ i. ground (arith, v.0.owned i), in_use_lem p.slab (slots p.rings) v.0)
  where
    v : IsShared p.slab p.rings
    v = Reach-IsShared (new_slab-IsLeased chunk_size prealloc, tt) reach
