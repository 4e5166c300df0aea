-- ===== src/Buffer/Ring/Pool.antt =====
-- The slots and the rings of a pool over a change of one of its rings.
use mini_envoy.Base.{
  ℕ, suc, ◌≡◌, refl, sym, ap, ◌∙◌, arith, List, [], ◌∷◌, ◌++◌, length, All, none, some,
}
use mini_envoy.Base.Int.{ℤ, pos, negsuc}
use mini_envoy.Buffer.Slab.{Slab}
use mini_envoy.Buffer.Slab.Leases.{IsLeased, count}
use mini_envoy.Buffer.Ring.{Ring, reset, advance_write, advance_read, fill}
use mini_envoy.Buffer.Ring.Round.{length-write_at}
use mini_envoy.Buffer.Ring.Lifecycle.{
  Work, reads, writes, fills, restarts, slot_of, slots, IsWhole, holding, released,
}

-- A ring in the middle may be counted first.
pub count-middle :
    (j : ℕ) (before after : List Ring) (r : Ring)
    → count j (slots (before ++ (r ∷ after))) ≡ count j (slots (r ∷ (before ++ after)))
count-middle j [] after r = refl
count-middle j (x ∷ before) after r = moved x.slot r.slot (count-middle j before after r)
  where
    moved :
        (a b : ℤ)
        → count j (slots (before ++ (r ∷ after))) ≡ count j (slot_of b ++ slots (before ++ after))
        → count j (slot_of a ++ slots (before ++ (r ∷ after)))
          ≡ count j (slot_of b ++ (slot_of a ++ slots (before ++ after)))
    moved (pos a) (pos b) h = ground arith
    moved (pos a) (negsuc b) h = ground arith
    moved (negsuc a) (pos b) h = h
    moved (negsuc a) (negsuc b) h = h

pub length-middle :
    (before after : List Ring) (r : Ring)
    → length (slots (before ++ (r ∷ after))) ≡ length (slots (r ∷ (before ++ after)))
length-middle [] after r = refl
length-middle (x ∷ before) after r = moved x.slot r.slot (length-middle before after r)
  where
    moved :
        (a b : ℤ)
        → length (slots (before ++ (r ∷ after))) ≡ length (slot_of b ++ slots (before ++ after))
        → length (slot_of a ++ slots (before ++ (r ∷ after)))
          ≡ length (slot_of b ++ (slot_of a ++ slots (before ++ after)))
    moved (pos a) (pos b) h = ap suc h
    moved (pos a) (negsuc b) h = ap suc h
    moved (negsuc a) (pos b) h = h
    moved (negsuc a) (negsuc b) h = h

module _ (P : Ring → Type 0) where
  pub All-out :
      (before after : List Ring) (r : Ring)
      → All P (before ++ (r ∷ after))
      → All P (r ∷ (before ++ after))
  All-out [] after r h = h
  All-out (x ∷ before) after r (p, h) = let (q, rest) = All-out before after r h in (q, (p, rest))

  pub All-in :
      (before after : List Ring) (r : Ring)
      → All P (r ∷ (before ++ after))
      → All P (before ++ (r ∷ after))
  All-in [] after r h = h
  All-in (x ∷ before) after r (q, (p, rest)) = (p, All-in before after r (q, rest))

-- The order of the slots does not matter.
pub IsLeased-same :
    (s : Slab) (held other : List ℕ)
    → IsLeased s held
    → length other ≡ length held
    → ((i : ℕ) → count i other ≡ count i held)
    → IsLeased s other
IsLeased-same s held other v l c = record {
  sized = v.sized;
  total = omega (arith, v.total, l);
  owned = λ i. omega (arith, v.owned i, c i);
}

pub IsLeased-out :
    (s : Slab) (before after : List Ring) (r : Ring)
    → IsLeased s (slots (before ++ (r ∷ after)))
    → IsLeased s (slots (r ∷ (before ++ after)))
IsLeased-out s before after r v =
    IsLeased-same s _ _ v (sym (length-middle before after r))
      (λ i. sym (count-middle i before after r))

pub IsLeased-in :
    (s : Slab) (before after : List Ring) (r : Ring)
    → IsLeased s (slots (r ∷ (before ++ after)))
    → IsLeased s (slots (before ++ (r ∷ after)))
IsLeased-in s before after r v =
    IsLeased-same s _ _ v (length-middle before after r) (λ i. count-middle i before after r)

-- Reading and writing keep the slot and the number of bytes.
pub Work-slot : {r u : Ring} → Work r u → u.slot ≡ r.slot
unfolding advance_read advance_write fill reset
Work-slot {r} (reads n e) = ground arith
Work-slot {r} (writes n e) = ground arith
Work-slot {r} (fills a bs e) = ground arith
Work-slot {r} (restarts e) = ground arith

Work-slab : {r u : Ring} → Work r u → u.slab ≡ r.slab
unfolding advance_read advance_write fill reset
Work-slab {r} (reads n e) = ground arith
Work-slab {r} (writes n e) = ground arith
Work-slab {r} (fills a bs e) = ground arith
Work-slab {r} (restarts e) = ground arith

Work-none : {r u : Ring} → Work r u → r.buf ≡ none → u.buf ≡ none
unfolding advance_read advance_write fill reset
Work-none {r} (reads n e) h = ground arith
Work-none {r} (writes n e) h = ground arith
Work-none {r} (fills a bs e) h = ground arith
Work-none {r} (restarts e) h = ground arith

-- The bytes are as many as before.
abbrev Sized : ℕ → Ring → Type 0
Sized n r = (b : List ℕ) × (r.buf ≡ some b) × (length b ≡ n)

Work-Sized : {r u : Ring} (n : ℕ) → Work r u → Sized n r → Sized n u
unfolding advance_read advance_write fill reset
Work-Sized {r} n (reads k e) (b, h, l) = (b, ground arith, l)
Work-Sized {r} n (writes k e) (b, h, l) = (b, ground arith, l)
Work-Sized {r} n (fills a bs e) (b, h, l) =
    (_, ap (λ x. x.buf) e ∙ rw h refl, length-write_at b a.lo bs ∙ l)
Work-Sized {r} n (restarts e) (b, h, l) = (b, ground arith, l)

pub Work-IsWhole : {r u : Ring} (n : ℕ) → Work r u → IsWhole n r → IsWhole n u
Work-IsWhole n w (holding i b a s h l) =
    let (b', h', l') = Work-Sized n w (b, h, l) in
    holding i b' (Work-slab w ∙ a) (Work-slot w ∙ s) h' l'
Work-IsWhole n w (released a k s h) = released (Work-slab w ∙ a) k (Work-slot w ∙ s) (Work-none w h)
