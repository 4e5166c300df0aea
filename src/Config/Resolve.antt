-- ===== src/Config/Resolve.antt =====
-- internal/config/validate.go: `ResolveIPv4`. What `net.ParseIP` and `net.LookupIP` return is a
-- parameter; of an address only `To4` is looked at. The pauses between the attempts are left out.
use Prim.Native.String.{String}
use mini_envoy.Base.{ℕ, zero, suc, ◌⊎◌, inl, inr, List, [], ◌∷◌, Option, none, some}

-- `ip.To4()`: the four bytes, or nil.
abbrev pub Address : Type 0
Address = Option (List ℕ)

pub data ResolveError : Type 0 where
  not_ipv4 no_record lookup_failed not_attempted : ResolveError

-- The first address of version 4.
unfoldable pub first_v4 : List Address → Option (List ℕ)
first_v4 [] = none
first_v4 (none ∷ ips) = first_v4 ips
first_v4 (some ip ∷ ips) = some ip

-- What one attempt comes to, with what the attempts behind it come to, given the error of this one.
unfoldable pub attempt :
    Option (List Address) → (ResolveError → ResolveError ⊎ List ℕ) → ResolveError ⊎ List ℕ
attempt none later = later lookup_failed
attempt (some ips) later = found (first_v4 ips)
  where
    found : Option (List ℕ) → ResolveError ⊎ List ℕ
    found (some ip) = inr ip
    found none = later no_record

-- The loop from attempt `i` on, with so many left. `last` is nil before the first one.
unfoldable pub attempts_from :
    (ℕ → Option (List Address)) → ℕ → ℕ → ResolveError → ResolveError ⊎ List ℕ
unfolding attempt
attempts_from lookup i zero last = inl last
attempts_from lookup i (suc k) last = attempt (lookup i) (attempts_from lookup (suc i) k)

module _ (parse_ip : String → Option Address) (lookup_ip : String → ℕ → Option (List Address)) where
  unfoldable pub parsed : Address → ResolveError ⊎ List ℕ
  parsed none = inl not_ipv4
  parsed (some ip) = inr ip

  unfoldable pub resolve_ipv4 : String → ℕ → ResolveError ⊎ List ℕ
  unfolding attempts_from parsed
  resolve_ipv4 host attempts = elim (parse_ip host) [
    | some ip ↦ parsed ip
    | none ↦ attempts_from (lookup_ip host) 0 attempts not_attempted
  ]
