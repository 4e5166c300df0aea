-- ===== src/Poller/Merged.antt =====
-- What `Wait` of the kqueue poller reports.
use mini_envoy.Base.{
  ℕ, ◌==◌, ==_iff, ◌≡◌, refl, sym, ap, ap₂, ◌∙◌, arith, inl, inr, Bool, true, false, ◌||◌,
  Bool-cases,
}
use mini_envoy.Base.{
  List, [], ◌∷◌, ◌++◌, map, append-nil, append_assoc, Option, none, some, if◌then◌else◌, if_true,
  if_false, take, All,
}
use mini_envoy.Reactor.Platform.{EventBits, Event}
use mini_envoy.Poller.{no_bits, or_bits}
use mini_envoy.Poller.Kqueue.{
  Filter, filter_read, filter_write, filter_other, Kevent, Merging, with_event, bits_or_zero,
  with_new, put_bits, merge_one, merge, nothing_merged, wait,
}

abbrev is_some : Option EventBits → Bool
is_some none = false
is_some (some b) = true

unfoldable pub seen : ℕ → List ℕ → Bool
seen fd [] = false
seen fd (i ∷ is) = if i == fd then true else seen fd is

-- The descriptors of the events, each where it comes first, less those known and the one that wakes.
unfoldable pub firsts : (wake : ℕ) → List ℕ → List Kevent → List ℕ
unfolding seen
firsts wake known [] = []
firsts wake known (e ∷ es) =
    let passed = firsts wake known es in
    let new = firsts wake (e.ident ∷ known) es in
    if e.ident == wake then passed else if seen e.ident known then passed else e.ident ∷ new

-- What an event says: its filter one of reading and writing, an error its flag, and a hang-up the end of
-- the stream.
abbrev pub filter_bits : Filter → Bool → Bool → EventBits
filter_bits filter_read eof error = record {
  ev_read = true;
  ev_write = false;
  ev_error = error;
  ev_hangup = eof;
}
filter_bits filter_write eof error = record {
  ev_read = false;
  ev_write = true;
  ev_error = error;
  ev_hangup = eof;
}
filter_bits filter_other eof error = record {
  ev_read = false;
  ev_write = false;
  ev_error = error;
  ev_hangup = eof;
}

abbrev pub bits_of : Kevent → EventBits
bits_of e = filter_bits e.filter e.eof e.error

-- The bits of all events of a descriptor.
unfoldable pub all_bits : ℕ → List Kevent → EventBits
all_bits fd [] = no_bits
all_bits fd (e ∷ es) =
    if e.ident == fd then or_bits (bits_of e) (all_bits fd es) else all_bits fd es

or_no_bits : (b : EventBits) → or_bits b no_bits ≡ b
or_no_bits b = λ i. record {
  ev_read = or_none b.ev_read i;
  ev_write = or_none b.ev_write i;
  ev_error = or_none b.ev_error i;
  ev_hangup = or_none b.ev_hangup i;
}
  where
    or_none : (x : Bool) → (x || false) ≡ x
    or_none true = refl
    or_none false = refl

or_bits_assoc : (a b c : EventBits) → or_bits (or_bits a b) c ≡ or_bits a (or_bits b c)
or_bits_assoc a b c = λ i. record {
  ev_read = assoc a.ev_read b.ev_read c.ev_read i;
  ev_write = assoc a.ev_write b.ev_write c.ev_write i;
  ev_error = assoc a.ev_error b.ev_error c.ev_error i;
  ev_hangup = assoc a.ev_hangup b.ev_hangup c.ev_hangup i;
}
  where
    assoc : (x y z : Bool) → ((x || y) || z) ≡ (x || (y || z))
    assoc true y z = refl
    assoc false y z = refl

-- One more event, after those that are merged.
with_event-or_bits : (b : EventBits) (e : Kevent) → with_event b e ≡ or_bits b (bits_of e)
unfolding with_event
with_event-or_bits b e = by_filter e.filter
  where
    by_filter :
        (f : Filter)
        → with_event b (record e { filter = f }) ≡ or_bits b (bits_of (record e { filter = f }))
    by_filter filter_read = refl
    by_filter filter_write = refl
    by_filter filter_other = refl

-- The map has just the descriptors that are known.
unfoldable Knows : List ℕ → (ℕ → Option EventBits) → Type 0
Knows known m = (fd : ℕ) → is_some (m fd) ≡ seen fd known

put_new-Knows :
    (known : List ℕ) (m : ℕ → Option EventBits) (i : ℕ) (b : EventBits)
    → Knows known m
    → Knows (i ∷ known) (put_bits i b m)
unfolding Knows seen
put_new-Knows known m i b k fd = elim (Bool-cases (i == fd)) [
  | inl e ↦ ap is_some (if_true _ _ e) ∙ sym (if_true _ _ e)
  | inr e ↦ ap is_some (if_false _ _ e) ∙ k fd ∙ sym (if_false _ _ e)
]

put_old-Knows :
    (known : List ℕ) (m : ℕ → Option EventBits) (i : ℕ) (b : EventBits)
    → seen i known ≡ true
    → Knows known m
    → Knows known (put_bits i b m)
unfolding Knows
put_old-Knows known m i b old k fd = elim (Bool-cases (i == fd)) [
  | inl e ↦ ap is_some (if_true _ _ e) ∙ sym old ∙ ap (λ j. seen j known) ((==_iff i fd).0 e)
  | inr e ↦ ap is_some (if_false _ _ e) ∙ k fd
]

with_new_old : (o : Option EventBits) (fd : ℕ) (l : List ℕ) → is_some o ≡ true → with_new o fd l ≡ l
with_new_old none fd l h = ground arith
with_new_old (some b) fd l h = refl

with_new_new :
    (o : Option EventBits) (fd : ℕ) (l : List ℕ)
    → is_some o ≡ false
    → with_new o fd l ≡ l ++ (fd ∷ [])
with_new_new none fd l h = refl
with_new_new (some b) fd l h = ground arith

-- The order in which `Wait` lists the descriptors.
merge_order :
    (wake : ℕ) (es : List Kevent) (known : List ℕ) (s : Merging)
    → Knows known s.merged
    → (merge wake es s).order ≡ s.order ++ firsts wake known es
unfolding merge firsts merge_one
merge_order wake [] known s k = sym (append-nil s.order)
merge_order wake (e ∷ es) known s k = elim (Bool-cases (e.ident == wake)) [
  | inl w ↦
      ap (λ (t : Merging). t.order) (if_true _ _ w)
      ∙ merge_order wake es known s k
      ∙ ap (λ t. s.order ++ t) (sym (if_true _ _ w))
  | inr w ↦ elim (Bool-cases (seen e.ident known)) [
    | inl old ↦
        ap (λ (t : Merging). t.order) (if_false _ _ w)
        ∙ merge_order wake es known (merge_one s e) (put_old-Knows known s.merged e.ident _ old k)
        ∙ ap (λ l. l ++ firsts wake known es)
            (with_new_old (s.merged e.ident) e.ident s.order (unfold Knows in k e.ident ∙ old))
        ∙ ap (λ t. s.order ++ t) (sym (if_false _ _ w ∙ if_true _ _ old))
    | inr new ↦
        ap (λ (t : Merging). t.order) (if_false _ _ w)
        ∙ merge_order wake es (e.ident ∷ known) (merge_one s e)
            (put_new-Knows known s.merged e.ident _ k)
        ∙ ap (λ l. l ++ firsts wake (e.ident ∷ known) es)
            (with_new_new (s.merged e.ident) e.ident s.order (unfold Knows in k e.ident ∙ new))
        ∙ append_assoc s.order (e.ident ∷ []) (firsts wake (e.ident ∷ known) es)
        ∙ ap (λ t. s.order ++ t) (sym (if_false _ _ w ∙ if_false _ _ new))
  ]
]

-- The bits that are merged for a descriptor.
merge_bits :
    (wake : ℕ) (es : List Kevent) (s : Merging) (fd : ℕ)
    → (fd == wake) ≡ false
    → bits_or_zero ((merge wake es s).merged fd)
      ≡ or_bits (bits_or_zero (s.merged fd)) (all_bits fd es)
unfolding merge merge_one all_bits
merge_bits wake [] s fd h = sym (or_no_bits (bits_or_zero (s.merged fd)))
merge_bits wake (e ∷ es) s fd h = elim (Bool-cases (e.ident == wake)) [
  | inl w ↦
      ap (λ (t : Merging). bits_or_zero (t.merged fd)) (if_true _ _ w)
      ∙ merge_bits wake es s fd h
      ∙ ap (or_bits (bits_or_zero (s.merged fd)))
          (sym (if_false {b = e.ident == fd} _ _ (ground arith)))
  | inr w ↦
      ap (λ (t : Merging). bits_or_zero (t.merged fd)) (if_false _ _ w)
      ∙ merge_bits wake es (merge_one s e) fd h
      ∙ elim (Bool-cases (e.ident == fd)) [
        | inl same ↦
            ap (λ o. or_bits (bits_or_zero o) (all_bits fd es)) (if_true _ _ same)
            ∙ ap (λ j. or_bits (with_event (bits_or_zero (s.merged j)) e) (all_bits fd es))
                ((==_iff e.ident fd).0 same)
            ∙ ap (λ b. or_bits b (all_bits fd es))
                (with_event-or_bits (bits_or_zero (s.merged fd)) e)
            ∙ or_bits_assoc (bits_or_zero (s.merged fd)) (bits_of e) (all_bits fd es)
            ∙ ap (or_bits (bits_or_zero (s.merged fd))) (sym (if_true _ _ same))
        | inr other ↦
            ap (λ o. or_bits (bits_or_zero o) (all_bits fd es)) (if_false _ _ other)
            ∙ ap (or_bits (bits_or_zero (s.merged fd))) (sym (if_false _ _ other))
      ]
]

abbrev pub event_of : List Kevent → ℕ → Event
event_of es fd = record { fd = fd; bits = all_bits fd es }

firsts_awake :
    (wake : ℕ) (es : List Kevent) (known : List ℕ)
    → All (λ fd. (fd == wake) ≡ false) (firsts wake known es)
unfolding firsts
firsts_awake wake [] known = tt
firsts_awake wake (e ∷ es) known = elim (Bool-cases (e.ident == wake)) [
  | inl w ↦ rw w (firsts_awake wake es known)
  | inr w ↦ rw w (elim (Bool-cases (seen e.ident known)) [
    | inl old ↦ rw old (firsts_awake wake es known)
    | inr new ↦ rw new (w, firsts_awake wake es (e.ident ∷ known))
  ])
]

map_same : (f g : ℕ → Event) (fds : List ℕ) → All (λ fd. f fd ≡ g fd) fds → map f fds ≡ map g fds
map_same f g [] h = refl
map_same f g (fd ∷ fds) (e, h) = ap₂ ◌∷◌ e (map_same f g fds h)

All-bits :
    (wake : ℕ) (es : List Kevent) (fds : List ℕ)
    → All (λ fd. (fd == wake) ≡ false) fds
    → All
        (λ fd.
          record { fd = fd; bits = bits_or_zero ((merge wake es nothing_merged).merged fd) }
          ≡ event_of es fd)
        fds
All-bits wake es [] h = tt
All-bits wake es (fd ∷ fds) (awake, h) = (
  ap (λ b. record { fd = fd; bits = b }) (merge_bits wake es nothing_merged fd awake),
  All-bits wake es fds h,
)

-- `Wait` of the kqueue poller reports one event for each descriptor that the kernel's events name, in
-- the order in which they come first, with the bits of all its events; those of the descriptor that
-- wakes the poller are left out. Where there are more descriptors than room, the last ones are dropped.
pub wait-firsts :
    (wake room : ℕ) (es : List Kevent)
    → wait wake room es ≡ take room (map (event_of es) (firsts wake [] es))
unfolding wait
wait-firsts wake room es = ap (take room) (
    ap
      (map
        (λ fd. record { fd = fd; bits = bits_or_zero ((merge wake es nothing_merged).merged fd) }))
      (merge_order wake es [] nothing_merged (unfold Knows seen in λ fd. refl))
    ∙ map_same _ (event_of es) (firsts wake [] es)
        (All-bits wake es (firsts wake [] es) (firsts_awake wake es [])))
