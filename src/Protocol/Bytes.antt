-- ===== src/Protocol/Bytes.antt =====
-- Numbers in network order: what the header takes of Go's encoding/binary.
use mini_envoy.Base.{ℕ, ◌+◌, ◌*◌, ◌/◌, ◌%◌, ◌^◌, ◌<◌}
use mini_envoy.Base.{List, [], ◌∷◌, ◌++◌, get_or}

-- The bytes of a number, the most significant one first.
abbrev pub put_uint16 : ℕ → List ℕ
put_uint16 v = (v / 2 ^ 8 % 256) ∷ (v % 256) ∷ []

abbrev pub put_uint32 : ℕ → List ℕ
put_uint32 v = (v / 2 ^ 24 % 256) ∷ (v / 2 ^ 16 % 256) ∷ (v / 2 ^ 8 % 256) ∷ (v % 256) ∷ []

abbrev pub put_uint64 : ℕ → List ℕ
put_uint64 v = put_uint32 (v / 2 ^ 32) ++ put_uint32 (v % 2 ^ 32)

-- The number that stands at an index of the bytes.
abbrev pub byte : List ℕ → ℕ → ℕ
byte b i = get_or b i 0

abbrev pub uint16 : List ℕ → ℕ → ℕ
uint16 b i = byte b i * 2 ^ 8 + byte b (i + 1)

abbrev pub uint32 : List ℕ → ℕ → ℕ
uint32 b i = byte b i * 2 ^ 24 + byte b (i + 1) * 2 ^ 16 + byte b (i + 2) * 2 ^ 8 + byte b (i + 3)

abbrev pub uint64 : List ℕ → ℕ → ℕ
uint64 b i = uint32 b i * 2 ^ 32 + uint32 b (i + 4)

abbrev pub IsByte : ℕ → Type 0
IsByte x = x < 256
