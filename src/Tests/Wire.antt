-- ===== src/Tests/Wire.antt =====
-- The scripted operating system reports how many bytes its writes take.
use mini_envoy.Base.{
  ℕ, ◌≡◌, refl, List, [], ◌∷◌, ◌++◌, length, take, if◌then◌else◌, ◌==◌, inl, inr, ap, sym, ◌∙◌,
}
use mini_envoy.Base.{Bool-cases, take_all, append-nil, append_assoc, arith, ==_iff}
use mini_envoy.Base.Int.{ℤ, pos_part}
use mini_envoy.Reactor.Platform.{SysError}
use mini_envoy.Reactor.Write.{joined}
use mini_envoy.Reactor.Stream.Wire.{IsWire}
use mini_envoy.Tests.Network.{World, network, wrote}

-- The bytes that left through a descriptor.
abbrev pub left_by : List (ℕ × List ℕ) → ℕ → List ℕ
left_by [] fd = []
left_by ((i, bs) ∷ os) fd = if i == fd then bs ++ left_by os fd else left_by os fd

left_by-append :
    (xs : List (ℕ × List ℕ)) (fd : ℕ) (bs : List ℕ)
    → left_by (xs ++ ((fd, bs) ∷ [])) fd ≡ left_by xs fd ++ bs
left_by-append [] fd bs = rw ((==_iff fd fd).1 refl) (append-nil bs)
left_by-append ((i, x) ∷ xs) fd bs = elim (Bool-cases (i == fd)) [
  | inl h ↦ rw h (ap (◌++◌ x) (left_by-append xs fd bs) ∙ sym (append_assoc x (left_by xs fd) bs))
  | inr h ↦ rw h (left_by-append xs fd bs)
]

wrote_out :
    (fd : ℕ) (bs : List ℕ) (w : World)
    → left_by (wrote fd bs w).0.output fd
      ≡ left_by w.output fd ++ take (pos_part (wrote fd bs w).1.0) bs
wrote_out fd bs w = by_script w.writes refl
  where
    by_script :
        (ws : List (ℤ × SysError))
        → w.writes ≡ ws
        → left_by (wrote fd bs w).0.output fd
          ≡ left_by w.output fd ++ take (pos_part (wrote fd bs w).1.0) bs
    by_script [] e = rw e (
        left_by-append w.output fd bs
        ∙ ap (◌++◌ (left_by w.output fd)) (sym (take_all (length bs) bs (omega arith))))
    by_script (r ∷ rs) e = rw e (left_by-append w.output fd (take (pos_part r.0) bs))

pub network-IsWire : IsWire network (λ w. left_by w.output)
network-IsWire = record {
  writev_out = λ fd iov w. wrote_out fd (joined iov) w;
  send_out = wrote_out;
  mod_out = λ i bits w fd. refl;
  now_out = λ w fd. refl;
}
