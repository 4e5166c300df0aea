-- ===== src/Reactor/Exec/Rules.antt =====
-- How to reason about the methods of a reactor: what a run that returns leaves behind.
use mini_envoy.Base.{Bool, true, false}
use mini_envoy.Base.{Option, none, some, get_elem?, if◌then◌else◌}
use mini_envoy.Upstream.Registry.{Ptr}
use mini_envoy.Base.{◌≡◌, refl}
use mini_envoy.Reactor.Conn.{Conn}
use mini_envoy.Reactor.Exec.{
  Reactor, Outcome, returned, panicked, out_of_fuel, Exec, pure, panic, no_fuel, gets, continue,
  ◌>>=◌, or_panic, load, load_ep, skip,
}

-- A run that returns leaves a result and a state that satisfy `Q`. One that panics has no state.
abbrev pub Post : {W A : Type 0} → (A → Reactor W → Type 0) → Outcome (A × Reactor W) → Type 0
Post Q (returned (a, s)) = Q a s
Post Q panicked = Unit
Post Q out_of_fuel = Unit

module _ {W A B : Type 0} where
  Post-continue :
      (Q : B → Reactor W → Type 0) (o : Outcome (A × Reactor W)) (f : A → Exec W B)
      → Post (λ a s. Post Q (f a s)) o
      → Post Q (continue o f)
  Post-continue Q (returned (a, s)) f h = h
  Post-continue Q panicked f h = tt
  Post-continue Q out_of_fuel f h = tt

  pub Post-bind :
      (Q : B → Reactor W → Type 0) (m : Exec W A) (f : A → Exec W B) (s : Reactor W)
      → Post (λ a s'. Post Q (f a s')) (m s)
      → Post Q ((m >>= f) s)
  unfolding ◌>>=◌
  Post-bind Q m f s h = Post-continue Q (m s) f h

module _ {W A : Type 0} where
  pub Post-weaken :
      {P Q : A → Reactor W → Type 0} (o : Outcome (A × Reactor W))
      → ((a : A) (s : Reactor W) → P a s → Q a s)
      → Post P o
      → Post Q o
  Post-weaken (returned (a, s)) f h = f a s h
  Post-weaken panicked f h = tt
  Post-weaken out_of_fuel f h = tt

-- Whatever state with `P` an action starts from, the state that it leaves has `P`.
pub record Keeps {W A : Type 0} (P : Reactor W → Type 0) (m : Exec W A) : Type 0 where
  pub at : (s : Reactor W) → P s → Post (λ a s'. P s') (m s)

module _ {W A : Type 0} {P : Reactor W → Type 0} where
  pub Keeps-pure : (a : A) → Keeps P (pure a)
  unfolding pure
  Keeps-pure a = record { at = λ s h. h }

  pub Keeps-panic : Keeps P (panic {A = A})
  unfolding panic
  Keeps-panic = record { at = λ s h. tt }

  pub Keeps-no_fuel : Keeps P (no_fuel {A = A})
  unfolding no_fuel
  Keeps-no_fuel = record { at = λ s h. tt }

  pub Keeps-gets : (f : Reactor W → A) → Keeps P (gets f)
  unfolding gets
  Keeps-gets f = record { at = λ s h. h }

  pub Keeps-or_panic : (o : Option A) → Keeps P (or_panic o)
  unfolding or_panic
  Keeps-or_panic none = record { at = λ s h. tt }
  Keeps-or_panic (some a) = record { at = λ s h. h }

  pub Keeps-if : (b : Bool) (m n : Exec W A) → Keeps P m → Keeps P n → Keeps P (if b then m else n)
  Keeps-if true m n km kn = km
  Keeps-if false m n km kn = kn

module _ {W A B : Type 0} {P : Reactor W → Type 0} where
  pub Keeps-bind :
      (m : Exec W A) (f : A → Exec W B) → Keeps P m → ((a : A) → Keeps P (f a)) → Keeps P (m >>= f)
  Keeps-bind m f km kf = record {
    at = λ s h.
        Post-bind (λ b s'. P s') m f s (Post-weaken (m s) (λ a s' p. (kf a).at s' p) (km.at s h));
  }

module _ {W : Type 0} {P : Reactor W → Type 0} where
  pub Keeps-skip : Keeps P (skip {W = W})
  unfolding skip
  Keeps-skip = record { at = λ s h. h }

  pub Keeps-load : (p : Ptr) → Keeps P (load {W = W} p)
  unfolding load
  Keeps-load p = Keeps-bind (gets (λ s. get_elem? s.conns p)) or_panic (Keeps-gets _) Keeps-or_panic

  pub Keeps-load_ep : (p : Ptr) → Keeps P (load_ep {W = W} p)
  unfolding load_ep
  Keeps-load_ep p =
      Keeps-bind (gets (λ s. get_elem? s.eps p)) or_panic (Keeps-gets _) Keeps-or_panic

pub ruleset keeps_rules = (
  Keeps-pure, Keeps-panic, Keeps-no_fuel, Keeps-gets, Keeps-or_panic, Keeps-if, Keeps-bind,
  Keeps-skip, Keeps-load, Keeps-load_ep,
)

-- Whatever state with `P` an action starts from, the state that it leaves has `Q`.
pub record Turns {W A : Type 0} (P Q : Reactor W → Type 0) (m : Exec W A) : Type 0 where
  pub at : (s : Reactor W) → P s → Post (λ a s'. Q s') (m s)

module _ {W A B : Type 0} {P Q R : Reactor W → Type 0} where
  pub Turns-bind :
      (m : Exec W A) (f : A → Exec W B)
      → Turns P Q m
      → ((a : A) → Turns Q R (f a))
      → Turns P R (m >>= f)
  Turns-bind m f h k = record {
    at = λ s p.
        Post-bind (λ b s'. R s') m f s (Post-weaken (m s) (λ a s' q. (k a).at s' q) (h.at s p));
  }

module _ {W A : Type 0} {P Q : Reactor W → Type 0} where
  pub Turns-kept : (m : Exec W A) → Keeps P m → ((s : Reactor W) → P s → Q s) → Turns P Q m
  Turns-kept m h f = record { at = λ s p. Post-weaken (m s) (λ a s' q. f s' q) (h.at s p) }

  pub Turns-if :
      (b : Bool) (m n : Exec W A)
      → (b ≡ true → Turns P Q m)
      → (b ≡ false → Turns P Q n)
      → Turns P Q (if b then m else n)
  Turns-if true m n h k = h refl
  Turns-if false m n h k = k refl

  -- What is loaded is what the state holds.
  pub Turns-load :
      (c : Ptr) (f : Conn → Exec W A)
      → ((k : Conn) → Turns (λ s. P s × (get_elem? s.conns c ≡ some k)) Q (f k))
      → Turns P Q (load c >>= f)
  unfolding load gets or_panic pure panic ◌>>=◌
  Turns-load c f h = record { at = λ s p. found s p (get_elem? s.conns c) refl }
    where
      found :
          (s : Reactor W)
          → P s
          → (o : Option Conn) → get_elem? s.conns c ≡ o
          → Post (λ a s'. Q s') (continue (or_panic o s) f)
      found s p none e = tt
      found s p (some k) e = (h k).at s (p, e)
