-- ===== src/Socket/Accepts.antt =====
-- `ParseIPv4` against the definition by splitting.
use mini_envoy.Base.{
  ℕ, suc, ◌+◌, ◌-◌, ◌*◌, ◌%◌, ◌^◌, ◌<◌, ◌≤◌, ◌≡◌, inl, inr, refl, sym, ap, ap₂, ◌∙◌, arith,
}
use mini_envoy.Base.{
  List, [], ◌∷◌, ◌++◌, append-nil, append_assoc, length, length-append, replicate, set, Option,
  none, some,
}
use mini_envoy.Base.{
  Bool, true, false, not, ◌&&◌, leb, ◌==◌, ==_iff, if◌then◌else◌, if_true, if_false, Bool-cases,
}
use mini_envoy.Socket.{
  dot, bad_part, next_part, next_digit, not_digit, finish, scan_parts, parse_ipv4,
}
use mini_envoy.Socket.Dotted.{
  split, is_nil, digits, value_from, octet, both, octets, four, four_of, dotted, accepted,
}
use mini_envoy.Socket.Parts.{
  limit, limit_18, value_from-append, digits-append, set-fill, state, IsPart, Ended, good,
  empty_or_large, fifth, ended,
}

-- What is no address: a part that is none, or a fifth part.
no_octet :
    (done g : List ℕ) (gs : List (List ℕ)) → octet g ≡ none → four_of done (octets (g ∷ gs)) ≡ none
unfolding octets
no_octet done g gs h = ap (λ o. four_of done (both o (octets gs))) h

too_many :
    (done g : List ℕ) (gs : List (List ℕ)) → 4 ≤ length done → four_of done (octets (g ∷ gs)) ≡ none
unfolding octets four
too_many done g gs h = by_parts (octet g) (octets gs)
  where
    by_parts : (o : Option ℕ) (os : Option (List ℕ)) → four_of done (both o os) ≡ none
    by_parts none os = refl
    by_parts (some v) none = refl
    by_parts (some v) (some vs) =
        if_false {b = length (done ++ (v ∷ vs)) == 4} _ _
          (ground (arith, length-append done (v ∷ vs)))

one_octet :
    (done g : List ℕ) (gs : List (List ℕ)) (v : ℕ)
    → octet g ≡ some v
    → four_of done (octets (g ∷ gs)) ≡ four_of (done ++ (v ∷ [])) (octets gs)
unfolding octets
one_octet done g gs v h = ap (λ o. four_of done (both o (octets gs))) h ∙ by_parts (octets gs)
  where
    by_parts :
        (os : Option (List ℕ)) → four_of done (both (some v) os) ≡ four_of (done ++ (v ∷ [])) os
    by_parts none = refl
    by_parts (some vs) = ap four (sym (append_assoc done (v ∷ []) vs))

-- The end of a part in the loop.
next_part-state :
    (done g : List ℕ) (b : ℕ)
    → length done ≤ 3
    → value_from 0 g ≤ 255
    → next_part (state done g b) ≡ state (done ++ (value_from 0 g ∷ [])) [] dot
unfolding next_part value_from
next_part-state done g b few small =
    λ i. record { out = filled i; part = counted i; n = 0; before = dot }
  where
    v : ℕ
    v = value_from 0 g

    counted : suc (length done) ≡ length (done ++ (v ∷ []))
    counted = omega (arith, length-append done (v ∷ []))

    filled :
        set (done ++ replicate (4 - length done) 0) (length done) (v % 256)
        ≡ (done ++ (v ∷ [])) ++ replicate (4 - length (done ++ (v ∷ []))) 0
    filled =
        ap₂ (λ k w. set (done ++ replicate k 0) (length done) w) {x = 4 - length done}
          {y = suc (3 - length done)} (omega arith) (omega arith)
        ∙ set-fill done (3 - length done) v
        ∙ ap (λ k. (done ++ (v ∷ [])) ++ replicate k 0) {y = 4 - length (done ++ (v ∷ []))}
            (omega (arith, counted))

digit_read :
    (g cs : List ℕ) (b c : ℕ)
    → IsPart g (c ∷ cs) b
    → (c == dot) ≡ false
    → not_digit c ≡ false
    → IsPart (g ++ (c ∷ [])) cs c
unfolding digits limit
digit_read g cs b c p apart d = record {
  ends = apart ∙ sym (last_nil g);
  digit = digits-append g (c ∷ []) ∙ ap₂ (λ u v. u && (not v && true)) p.digit d;
  short = omega (arith, p.short, length-append g (c ∷ []));
  small = smaller;
}
  where
    last_nil : (g : List ℕ) → is_nil (g ++ (c ∷ [])) ≡ false
    last_nil [] = refl
    last_nil (x ∷ g) = refl

    low : c - 48 ≤ 9
    low = ground arith

    smaller : value_from 0 (g ++ (c ∷ [])) < limit (length (g ++ (c ∷ [])))
    smaller = omega (
      arith,
      value_from-append 0 g c,
      p.small,
      low,
      ap limit (length-append g (c ∷ []) ∙ one_more (length g)),
    )
      where
        one_more : (n : ℕ) → n + 1 ≡ suc n
        one_more n = omega arith

next_digit-state :
    (done g cs : List ℕ) (b c : ℕ)
    → IsPart (g ++ (c ∷ [])) cs c
    → next_digit (state done g b) c ≡ state done (g ++ (c ∷ [])) c
unfolding next_digit
next_digit-state done g cs b c p = λ i. record {
  out = done ++ replicate (4 - length done) 0;
  part = length done;
  n = summed i;
  before = c;
}
  where
    summed : (value_from 0 g * 10 + (c - 48)) % 2 ^ 64 ≡ value_from 0 (g ++ (c ∷ []))
    summed = omega (
      arith,
      value_from-append 0 g c,
      p.small,
      limit_18 (length (g ++ (c ∷ []))) (omega (arith, p.short)),
    )

finished : (d : List ℕ) → accepted (finish (state d [] dot)) ≡ four_of d (octets [])
unfolding finish four octets
finished d = elim (Bool-cases (length d == 4)) [
  | inl e ↦
      if_true _ _ e
      ∙ ap (λ k. some (d ++ replicate k 0)) {y = 0} (omega (arith, (==_iff (length d) 4).0 e))
      ∙ sym (if_true _ _ (ap (λ t. length t == 4) (append-nil d) ∙ e))
  | inr e ↦ if_false _ _ e ∙ sym (if_false _ _ (ap (λ t. length t == 4) (append-nil d) ∙ e))
]

and_mid : (a d l : Bool) → (a && ((d && false) && l)) ≡ false
and_mid false d l = refl
and_mid true false l = refl
and_mid true true l = refl

not_octet : (g h : List ℕ) (c : ℕ) → not_digit c ≡ true → octet (g ++ (c ∷ h)) ≡ none
unfolding octet digits
not_octet g h c d = if_false _ _ (
    ap (λ u. not (is_nil (g ++ (c ∷ h))) && (u && leb (value_from 0 (g ++ (c ∷ h))) 255))
      (digits-append g (c ∷ h) ∙ ap (λ u. digits g && (not u && digits h)) d)
    ∙ and_mid (not (is_nil (g ++ (c ∷ h)))) (digits g) (leb (value_from 0 (g ++ (c ∷ h))) 255))

new-IsPart : {cs : List ℕ} → length cs ≤ 18 → IsPart [] cs dot
unfolding digits value_from limit
new-IsPart h = record { ends = refl; digit = refl; short = omega arith; small = omega arith }

-- A dot, where the rest of the text is read as `again` says.
part_ends :
    (done g cs : List ℕ) (b : ℕ)
    → Ended done g b
    → ((d : List ℕ)
        → accepted (scan_parts cs (state d [] dot))
          ≡ four_of d (octets ((split cs).0 ∷ (split cs).1)))
    → accepted (
        if bad_part (state done g b)
        then ((state done g b).out, false)
        else scan_parts cs (next_part (state done g b)))
      ≡ four_of done (octets (g ∷ (split cs).0 ∷ (split cs).1))
part_ends done g cs b (good fine few small ok) again =
    ap accepted (if_false _ _ fine ∙ ap (scan_parts cs) (next_part-state done g b few small))
    ∙ again (done ++ (value_from 0 g ∷ []))
    ∙ sym (one_octet done g ((split cs).0 ∷ (split cs).1) (value_from 0 g) ok)
part_ends done g cs b (empty_or_large bad none_here) again =
    ap accepted (if_true _ _ bad) ∙ sym (no_octet done g ((split cs).0 ∷ (split cs).1) none_here)
part_ends done g cs b (fifth bad many) again =
    ap accepted (if_true _ _ bad) ∙ sym (too_many done g ((split cs).0 ∷ (split cs).1) many)

scan-dotted :
    (cs done g : List ℕ) (b : ℕ)
    → IsPart g cs b
    → accepted (scan_parts cs (state done g b))
      ≡ four_of done (octets ((g ++ (split cs).0) ∷ (split cs).1))
unfolding scan_parts split
scan-dotted [] done g b p = elim (ended done g [] b p) [
  | good fine few small ok ↦
      ap accepted (if_false _ _ fine ∙ ap finish (next_part-state done g b few small))
      ∙ finished (done ++ (value_from 0 g ∷ []))
      ∙ sym (
          ap (λ t. four_of done (octets (t ∷ []))) (append-nil g)
          ∙ one_octet done g [] (value_from 0 g) ok)
  | empty_or_large bad none_here ↦
      ap accepted (if_true _ _ bad)
      ∙ sym (ap (λ t. four_of done (octets (t ∷ []))) (append-nil g) ∙ no_octet done g [] none_here)
  | fifth bad many ↦ ap accepted (if_true _ _ bad) ∙ sym (too_many done (g ++ []) [] many)
]
scan-dotted (c ∷ cs) done g b p = elim (Bool-cases (c == dot)) [
  | inl e ↦
      ap accepted (if_true _ _ e)
      ∙ part_ends done g cs b (ended done g (c ∷ cs) b p)
          (λ d. scan-dotted cs d [] dot (new-IsPart (omega (arith, p.short))))
      ∙ ap (λ t. four_of done (octets (t ∷ (split cs).0 ∷ (split cs).1))) (sym (append-nil g))
      ∙ ap (λ t. four_of done (octets ((g ++ t.0) ∷ t.1)))
          (sym (if_true {A = List ℕ × List (List ℕ)} _ _ e))
  | inr e ↦ elim (Bool-cases (not_digit c)) [
    | inl d ↦
        ap accepted (if_false _ _ e ∙ if_true _ _ d)
        ∙ sym (no_octet done (g ++ (c ∷ (split cs).0)) (split cs).1 (not_octet g (split cs).0 c d))
        ∙ ap (λ t. four_of done (octets ((g ++ t.0) ∷ t.1)))
            (sym (if_false {A = List ℕ × List (List ℕ)} _ _ e))
    | inr d ↦
        let q = digit_read g cs b c p e d in
        ap accepted
          (if_false _ _ e ∙ if_false _ _ d ∙ ap (scan_parts cs) (next_digit-state done g cs b c q))
        ∙ scan-dotted cs done (g ++ (c ∷ [])) c q
        ∙ ap (λ t. four_of done (octets (t ∷ (split cs).1))) (append_assoc g (c ∷ []) (split cs).0)
        ∙ ap (λ t. four_of done (octets ((g ++ t.0) ∷ t.1)))
            (sym (if_false {A = List ℕ × List (List ℕ)} _ _ e))
  ]
]

-- Of a text of at most 18 bytes, `ParseIPv4` accepts exactly the addresses, four parts between dots,
-- each of digits alone, not empty and at most 255, and returns their four numbers.
pub parse_ipv4-dotted : (s : List ℕ) → length s ≤ 18 → accepted (parse_ipv4 s) ≡ dotted s
unfolding parse_ipv4 dotted
parse_ipv4-dotted s h = scan-dotted s [] [] dot (new-IsPart h)
