-- ===== src/Socket.antt =====
-- internal/platform/socket.go: `ParseIPv4`. The text is its bytes; the sum of the digits is an int,
-- kept as the 64 bits that it has.
pub mod Dotted
pub mod Parts
pub mod Accepts
pub mod Calls
pub mod Opened
use mini_envoy.Base.{
  ℕ, zero, suc, ◌+◌, ◌-◌, ◌*◌, ◌%◌, ◌^◌, List, [], ◌∷◌, Bool, true, false, ◌||◌, not, ltb, ◌==◌,
  if◌then◌else◌, set,
}
use mini_envoy.Base.Int.{ℤ, pos, ltb_ℤ, signed64}

-- The byte `'.'`
abbrev pub dot : ℕ
dot = 46

-- What the loop keeps; `before` is `s[i-1]`, and at the start it is a dot too, which the code tests
-- for beside it.
pub record Scan : Type 0 where
  pub out : List ℕ
  pub part : ℕ
  pub n : ℕ
  pub before : ℕ

-- A part that ends where it may not.
unfoldable pub bad_part : Scan → Bool
bad_part s = ltb_ℤ (pos 255) (signed64 s.n) || ltb 3 s.part || (s.before == dot)

-- `out[part] = byte(n)`, and the next part
unfoldable pub next_part : Scan → Scan
next_part s = record { out = set s.out s.part (s.n % 256); part = suc s.part; n = 0; before = dot }

unfoldable pub next_digit : Scan → ℕ → Scan
next_digit s c = record s { n = (s.n * 10 + (c - 48)) % 2 ^ 64; before = c }

-- `s[i] < '0' || s[i] > '9'`
abbrev pub not_digit : ℕ → Bool
not_digit c = ltb c 48 || ltb 57 c

-- After the loop: `part != 4`
unfoldable pub finish : Scan → List ℕ × Bool
finish s = (s.out, s.part == 4)

-- The loop from here on.
unfoldable pub scan_parts : List ℕ → Scan → List ℕ × Bool
unfolding bad_part next_part next_digit finish
scan_parts [] s = if bad_part s then (s.out, false) else finish (next_part s)
scan_parts (c ∷ cs) s =
    let part_done = scan_parts cs (next_part s) in
    let digit_read = scan_parts cs (next_digit s c) in
    if c == dot
    then if bad_part s then (s.out, false) else part_done
    else if not_digit c
    then (s.out, false)
    else digit_read

abbrev pub start : Scan
start = record { out = 0 ∷ 0 ∷ 0 ∷ 0 ∷ []; part = 0; n = 0; before = dot }

unfoldable pub parse_ipv4 : List ℕ → List ℕ × Bool
unfolding scan_parts
parse_ipv4 s = scan_parts s start
