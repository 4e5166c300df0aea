-- ===== src/Protocol/Header/Exact.antt =====
-- The headers and the strings of 32 bytes are in one-to-one correspondence.
use mathlib.Core.Equiv.{Iso, IsEquiv, iso_to_equiv}
use mathlib.Core.HLevel.{Σ_prop_path}
use native.Mathlib.Bridge.{le_prop}
use mini_envoy.Base.{ℕ, ◌≡◌, refl, sym, ap, ◌∙◌, arith, List, [], ◌∷◌, length, All, append-nil}
use mini_envoy.Protocol.Bytes.{IsByte}
use mini_envoy.Protocol.Header.{Header, IsWords, encode_header, read_header}
use mini_envoy.Protocol.Header.Codec.{
  read_header-encode_header, encode_header-read_header, read_header-IsWords,
}

-- A header whose fields fit their Go types.
abbrev Words : Type 0
Words = (h : Header) × IsWords h

abbrev IsBlock : List ℕ → Type 0
IsBlock b = (length b ≡ 32) × All IsByte b

-- As many bytes as `HeaderSize` says.
abbrev Block : Type 0
Block = (b : List ℕ) × IsBlock b

encode_header-IsBlock : (h : Header) → IsWords h → IsBlock (encode_header h)
unfolding encode_header
encode_header-IsBlock h w = (refl, omega arith)

-- What `EncodeHeader` writes for such a header.
unfoldable encoded : Words → Block
encoded (h, w) = (encode_header h, encode_header-IsBlock h w)

IsWords-prop : (h : Header) → IsProp (IsWords h)
IsWords-prop h = hlevel le_prop

IsBytes-prop : (b : List ℕ) → IsProp (All IsByte b)
IsBytes-prop [] = hlevel
IsBytes-prop (x ∷ b) = hlevel (le_prop, IsBytes-prop b)

IsBlock-prop : (b : List ℕ) → IsProp (IsBlock b)
IsBlock-prop b = hlevel (IsBytes-prop b)

unfoldable encoded-Iso : Iso Words Block
unfolding encoded
encoded-Iso = record {
  fun = encoded;
  inv = λ x. (read_header x.0, read_header-IsWords x.0 x.1.1);
  rinv = λ x. Σ_prop_path IsBlock-prop (encode_header-read_header x.0 x.1.1 x.1.0);
  linv = λ x. Σ_prop_path IsWords-prop (
      ap read_header (sym (append-nil (encode_header x.0))) ∙ read_header-encode_header x.0 [] x.1);
}

-- `EncodeHeader` is a one-to-one correspondence between the headers, valid or not, whose fields fit
-- their Go types, and the strings of 32 bytes: each is the encoding of just one header.
encoded-IsEquiv : IsEquiv encoded
unfolding encoded encoded-Iso
encoded-IsEquiv = (iso_to_equiv encoded-Iso).1
