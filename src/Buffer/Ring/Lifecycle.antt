-- ===== src/Buffer/Ring/Lifecycle.antt =====
-- AttachRing, the operations of a ring and Release on one slab, called by the reactors in any order.
use mini_envoy.Base.{ℕ, ◌^◌, ◌≤◌, ◌≡◌, refl, arith, List, [], ◌∷◌, ◌++◌, length}
use mini_envoy.Base.{true, none, some}
use mini_envoy.Base.Int.{ℤ, pos, negsuc}
use mini_envoy.Buffer.Slab.{Slab, get}
use mini_envoy.Buffer.Slab.Leases.{IsLeased, get-IsLeased}
use mini_envoy.Buffer.Ring.{
  Ring, Span, attach_ring, release, len, reset, advance_write, advance_read, fill,
}
use mini_envoy.Base.Words.{pow_pos}
use mini_envoy.Buffer.Ring.Bounds.{IsValid, len_lem}

-- A ring on a fresh chunk is valid, where the slab's size is a power of two, and it is empty.
pub attach_ring-IsValid :
    (s : Slab) (held : List ℕ) (log : ℕ)
    → IsLeased s held
    → log ≤ 62
    → s.size ≡ 2 ^ log
    → IsValid (attach_ring s).1 × (len (attach_ring s).1 ≡ 0)
unfolding attach_ring
attach_ring-IsValid s held log v h e = (valid, omega (arith, len_lem valid))
  where
    bytes : List ℕ
    bytes = (get s).1

    size : length bytes ≡ s.size
    size = (get-IsLeased s held v).3

    valid : IsValid (attach_ring s).1
    valid = record {
      bytes = bytes;
      has = refl;
      log = log;
      log_small = h;
      pow = omega (arith, size, e, pow_pos log);
      sized = omega (arith, size, e, pow_pos log);
      r_in = omega arith;
      w_in = omega arith;
    }

-- A slab and all rings that were made on it, the released ones among them.
pub record Pool : Type 0 where
  pub slab : Slab
  pub rings : List Ring

-- What a reactor does with a ring between attaching and releasing it.
pub data Work (r u : Ring) : Type 0 where
  reads : (n : ℕ) → u ≡ advance_read r n → Work r u
  writes : (n : ℕ) → u ≡ advance_write r n → Work r u
  fills : (a : Span) (bs : List ℕ) → u ≡ fill r a bs → Work r u
  restarts : u ≡ reset r → Work r u

-- One call of a reactor. The mutex makes each call on the slab one step. Any ring may be released,
-- also one that was released before.
pub data Turn (p q : Pool) : Type 0 where
  attach :
      q ≡ record { slab = (attach_ring p.slab).0; rings = (attach_ring p.slab).1 ∷ p.rings }
      → Turn p q
  give_back :
      (before after : List Ring) (r : Ring)
      → p.rings ≡ before ++ (r ∷ after)
      → q ≡ record { slab = (release r p.slab).1; rings = before ++ ((release r p.slab).0 ∷ after) }
      → Turn p q
  work :
      (before after : List Ring) (r u : Ring)
      → p.rings ≡ before ++ (r ∷ after)
      → Work r u
      → q ≡ record p { rings = before ++ (u ∷ after) }
      → Turn p q

pub data Reach (p : Pool) : Pool → Type 0 where
  here : Reach p p
  next : {q u : Pool} → Reach p q → Turn q u → Reach p u

-- The slots that the rings name.
abbrev pub slot_of : ℤ → List ℕ
slot_of (pos i) = i ∷ []
slot_of (negsuc _) = []

abbrev pub slots : List Ring → List ℕ
slots [] = []
slots (r ∷ rs) = slot_of r.slot ++ slots rs

-- A ring of the slab has a slot and the bytes of a chunk, or neither.
pub data IsWhole (size : ℕ) (r : Ring) : Type 0 where
  holding :
      (i : ℕ) (bytes : List ℕ)
      → r.slab ≡ true
      → r.slot ≡ pos i
      → r.buf ≡ some bytes
      → length bytes ≡ size
      → IsWhole size r
  released : r.slab ≡ true → (n : ℕ) → r.slot ≡ negsuc n → r.buf ≡ none → IsWhole size r
