-- ===== src/Reactor/Conn.antt =====
-- internal/reactor/conn.go and fdtable.go, and internal/proxy/backpressure.go. A connection is an
-- object that others point to: a pointer is an index into the store of all connections.
pub mod Lookup
use mini_envoy.Base.{
  ℕ, zero, suc, Bool, true, false, not, List, [], ◌∷◌, Option, none, some, ◌==◌, length,
}
use mini_envoy.Base.{if◌then◌else◌, map, replicate}
use mini_envoy.Base.Int.{ℤ, pos, ltb_ℤ}
use mini_envoy.Buffer.Ring.{Ring, len}
use mini_envoy.Protocol.Header.{Header, empty_header, header_size}
use mini_envoy.Protocol.Parser.{Parser, new_parser}
use mini_envoy.Upstream.Registry.{Ptr}

pub data Role : Type 0 where
  listening down up connecting : Role

-- `ring`, `ep` and `peer` are pointers that may be nil. A ring belongs to one connection.
pub record Conn : Type 0 where
  pub fd : ℕ
  pub role : Role
  pub ring : Option Ring
  pub parser : Parser
  pub ep : Option Ptr
  pub peer : Option Ptr
  pub pending : Header
  pub has_pending : Bool
  pub write_remain : List ℕ
  pub last : ℤ
  pub paused : Bool
  pub hdr : List ℕ

-- `&Conn{FD: …, Role: …, Ring: …, EP: …, Last: …}`, with the parser's limit set
unfoldable pub new_conn : ℕ → Role → Option Ring → Option Ptr → ℤ → ℕ → Conn
new_conn fd role ring ep now max_payload = record {
  fd = fd;
  role = role;
  ring = ring;
  parser = new_parser max_payload;
  ep = ep;
  peer = none;
  pending = empty_header;
  has_pending = false;
  write_remain = [];
  last = now;
  paused = false;
  hdr = replicate header_size 0;
}

unfoldable pub used : Conn → ℕ
used c = elim c.ring [ none ↦ 0 | some r ↦ len r ]

abbrev pub is_connecting : Role → Bool
is_connecting connecting = true
is_connecting _ = false

abbrev pub is_down : Role → Bool
is_down down = true
is_down _ = false

abbrev pub is_up : Role → Bool
is_up up = true
is_up _ = false

abbrev pub is_listening : Role → Bool
is_listening listening = true
is_listening _ = false

-- The table of descriptors: a Go map, as an association list.
abbrev pub FdTable : Type 0
FdTable = List (ℕ × Ptr)

unfoldable pub get : FdTable → ℕ → Option Ptr
get [] fd = none
get ((i, p) ∷ t) fd = if i == fd then some p else get t fd

unfoldable pub put : FdTable → ℕ → Ptr → FdTable
put [] fd p = (fd, p) ∷ []
put ((i, q) ∷ t) fd p = if i == fd then (fd, p) ∷ t else (i, q) ∷ put t fd p

unfoldable pub del : FdTable → ℕ → FdTable
del [] fd = []
del ((i, q) ∷ t) fd = if i == fd then del t fd else (i, q) ∷ del t fd

unfoldable pub all : FdTable → List Ptr
all t = map (λ (e : ℕ × Ptr). e.1) t

-- The object at an index of a store, changed.
abbrev pub change : {A : Type 0} → (A → A) → Ptr → List A → List A
change f p [] = []
change f zero (x ∷ xs) = f x ∷ xs
change f (suc p) (x ∷ xs) = x ∷ change f p xs

-- backpressure.go
unfoldable pub should_pause : ℤ → ℤ → Bool
should_pause used high = not (ltb_ℤ used high)

unfoldable pub should_resume : ℤ → ℤ → Bool
should_resume used low = not (ltb_ℤ low used)
