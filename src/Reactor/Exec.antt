-- ===== src/Reactor/Exec.antt =====
-- The methods of a reactor: actions on its state, which return, or panic as Go does on a nil pointer
-- or a slice out of range, or run out of the model's fuel.
pub mod Rules
use mini_envoy.Base.{
  ℕ, zero, suc, ◌+◌, ◌%◌, ◌^◌, Bool, List, [], ◌∷◌, ◌++◌, Option, none, some, set, get_elem?,
}
use mini_envoy.Base.{length, if◌then◌else◌}
use mini_envoy.Base.Int.{ℤ}
use mini_envoy.Buffer.Slab.{Slab}
use mini_envoy.Metrics.{Shard}
use mini_envoy.Upstream.Endpoint.{Endpoint}
use mini_envoy.Upstream.Registry.{Ptr, Store}
use mini_envoy.Routing.Table.{Table}
use mini_envoy.Reactor.Conn.{Conn, FdTable, change}

-- `routes`, `slab` and `eps` are what the reactor reaches through its pointers. `os` is the state of
-- the outside world.
pub record Reactor (W : Type 0) : Type 0 where
  pub tab : FdTable
  pub conns : List Conn
  pub listen : ℕ
  pub routes : Table
  pub slab : Slab
  pub shard : Option Shard
  pub eps : Store
  pub high : ℤ
  pub low : ℤ
  pub max_payload : ℕ
  pub fail_n : ℕ
  pub pass_n : ℕ
  pub idle : ℤ
  pub os : W

pub data Outcome (A : Type 0) : Type 0 where
  returned : A → Outcome A
  panicked : Outcome A
  out_of_fuel : Outcome A

abbrev pub Exec : Type 0 → Type 0 → Type 0
Exec W A = Reactor W → Outcome (A × Reactor W)

-- The counters of the shard, where there is one.
abbrev pub in_shard : (Shard → Shard) → Option Shard → Option Shard
in_shard f none = none
in_shard f (some sh) = some (f sh)

module _ {W A : Type 0} where
  unfoldable pub pure : A → Exec W A
  pure a s = returned (a, s)

  unfoldable pub panic : Exec W A
  panic s = panicked

  unfoldable pub no_fuel : Exec W A
  no_fuel s = out_of_fuel

  unfoldable pub gets : (Reactor W → A) → Exec W A
  gets f s = returned (f s, s)

  -- A call of the operating system with a result.
  unfoldable pub ask : (W → W × A) → Exec W A
  ask f s = let (w, a) = f s.os in returned (a, record s { os = w })

module _ {W : Type 0} where
  unfoldable pub modify : (Reactor W → Reactor W) → Exec W (Unit {0})
  modify f s = returned (tt, f s)

  -- One whose result is not looked at.
  unfoldable pub tell : (W → W) → Exec W (Unit {0})
  tell f s = returned (tt, record s { os = f s.os })

module _ {W A B : Type 0} where
  abbrev pub continue : Outcome (A × Reactor W) → (A → Exec W B) → Outcome (B × Reactor W)
  continue (returned (a, s)) f = f a s
  continue panicked f = panicked
  continue out_of_fuel f = out_of_fuel

  infixl 10 ◌>>=◌ ◌>>◌
  unfoldable pub ◌>>=◌ : Exec W A → (A → Exec W B) → Exec W B
  ◌>>=◌ m f s = continue (m s) f

  abbrev pub ◌>>◌ : Exec W A → Exec W B → Exec W B
  m >> n = m >>= λ _. n

module _ {W A : Type 0} where
  -- A pointer that is nil is dereferenced.
  unfoldable pub or_panic : Option A → Exec W A
  unfolding pure panic
  or_panic none = panic
  or_panic (some a) = pure a

module _ {W : Type 0} where
  -- The connection at a pointer. A pointer leads to a connection of the store; the other case is not
  -- met.
  unfoldable pub load : Ptr → Exec W Conn
  unfolding ◌>>=◌ gets or_panic
  load p = do found ← gets (λ s. get_elem? s.conns p); or_panic found

  unfoldable pub modify_conn : Ptr → (Conn → Conn) → Exec W (Unit {0})
  unfolding modify
  modify_conn p f = modify (λ s. record s { conns = change f p s.conns })

  unfoldable pub count : (Shard → Shard) → Exec W (Unit {0})
  unfolding modify
  count f = modify (λ s. record s { shard = in_shard f s.shard })

  -- A method of the endpoint, where the pointer is not nil.
  unfoldable pub modify_ep : Option Ptr → (Endpoint → Endpoint) → Exec W (Unit {0})
  unfolding modify pure
  modify_ep none f = pure tt
  modify_ep (some p) f = modify (λ s. record s { eps = change f p s.eps })

  unfoldable pub load_ep : Ptr → Exec W Endpoint
  unfolding ◌>>=◌ gets or_panic
  load_ep p = do found ← gets (λ s. get_elem? s.eps p); or_panic found

  unfoldable pub skip : Exec W (Unit {0})
  unfolding pure
  skip = pure tt
