-- ===== src/Poller/Kqueue.antt =====
-- internal/platform/kqueue_darwin.go: the changes that the kernel is asked for, and what `Wait` makes
-- of the events that it reports. `Wake` and `Close` only call the kernel.
use mini_envoy.Base.{
  ℕ, ◌==◌, Bool, true, false, ◌||◌, List, [], ◌∷◌, ◌++◌, map, Option, none, some, if◌then◌else◌,
  take,
}
use mini_envoy.Reactor.Platform.{EventBits, Event, read_write}
use mini_envoy.Poller.{no_bits, or_bits}

pub data Filter : Type 0 where
  filter_read filter_write filter_other : Filter

-- An event of the kernel, of its flags `EV_EOF` and `EV_ERROR`.
pub record Kevent : Type 0 where
  pub ident : ℕ
  pub filter : Filter
  pub eof : Bool
  pub error : Bool

-- `EV_ADD` or `EV_DELETE`; `EV_CLEAR` is set beside it.
pub data Flag : Type 0 where
  add delete : Flag

abbrev pub is_delete : Flag → Bool
is_delete add = false
is_delete delete = true

-- The changes that one call of `change` hands to the kernel.
unfoldable pub changes : ℕ → EventBits → Flag → List (ℕ × Filter × Flag)
changes fd bits flag =
    (if bits.ev_read || is_delete flag then (fd, filter_read, flag) ∷ [] else [])
    ++ (if bits.ev_write || is_delete flag then (fd, filter_write, flag) ∷ [] else [])

-- The changes of `Mod`, of both its calls.
unfoldable pub mod_changes : ℕ → EventBits → List (ℕ × Filter × Flag)
unfolding changes
mod_changes fd bits = changes fd read_write delete ++ changes fd bits add

-- The map `merged` and the list `order`.
pub record Merging : Type 0 where
  pub merged : ℕ → Option EventBits
  pub order : List ℕ

-- `bits |= …` of one event
unfoldable pub with_event : EventBits → Kevent → EventBits
with_event bits e = or_bits bits (record {
  ev_read = is_read e.filter;
  ev_write = is_write e.filter;
  ev_error = e.error;
  ev_hangup = e.eof;
})
  where
    is_read : Filter → Bool
    is_read filter_read = true
    is_read _ = false

    is_write : Filter → Bool
    is_write filter_write = true
    is_write _ = false

abbrev pub bits_or_zero : Option EventBits → EventBits
bits_or_zero none = no_bits
bits_or_zero (some b) = b

abbrev pub with_new : Option EventBits → ℕ → List ℕ → List ℕ
with_new none fd order = order ++ (fd ∷ [])
with_new (some b) fd order = order

-- `merged[fd] = bits`
abbrev pub put_bits : ℕ → EventBits → (ℕ → Option EventBits) → ℕ → Option EventBits
put_bits fd b m x = if fd == x then some b else m x

unfoldable pub merge_one : Merging → Kevent → Merging
unfolding with_event
merge_one s e = record {
  merged = put_bits e.ident (with_event (bits_or_zero (s.merged e.ident)) e) s.merged;
  order = with_new (s.merged e.ident) e.ident s.order;
}

-- The loop over the events; those of the descriptor that wakes the poller are passed over.
unfoldable pub merge : (wake : ℕ) → List Kevent → Merging → Merging
unfolding merge_one
merge wake [] s = s
merge wake (e ∷ es) s =
    let skipped = merge wake es s in
    let taken = merge wake es (merge_one s e) in if e.ident == wake then skipped else taken

abbrev pub nothing_merged : Merging
nothing_merged = record { merged = λ fd. none; order = [] }

-- `Wait` with room for so many events.
unfoldable pub wait : (wake : ℕ) → ℕ → List Kevent → List Event
unfolding merge
wait wake room es =
    let s = merge wake es nothing_merged in
    take room (map (λ fd. record { fd = fd; bits = bits_or_zero (s.merged fd) }) s.order)
