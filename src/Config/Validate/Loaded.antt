-- ===== src/Config/Validate/Loaded.antt =====
-- internal/config/config.go: what `Load` returns.
use Prim.Native.String.{String}
use mini_envoy.Base.{ℕ, ◌≡◌, inl, inr, refl, List, Option, none, some, arith}
use mathlib.Core.Path.{subst}
use mathlib.Core.Sum.{inr-injective}
use mini_envoy.Config.File.{File}
use mini_envoy.Config.Defaults.{apply_defaults}
use mini_envoy.Config.Defaults.Settled.{apply_defaults-apply_defaults}
use mini_envoy.Config.Validate.{ConfigError, bad_file, validate, accept, load_parsed, load}
use mini_envoy.Config.Validate.Accepted.{IsAccepted, validate-IsAccepted}

module _ (split_host_port : String → Option (String × String)) where
  accept_lem :
      (f g : File) (e : Option ConfigError)
      → accept split_host_port f e ≡ inr g
      → (e ≡ none) × (f ≡ g)
  accept_lem f g none h = (refl, inr-injective {A = ConfigError} f g h)
  accept_lem f g (some e) h = ground arith

  load_parsed_lem :
      (parsed : Option File) (g : File)
      → load_parsed split_host_port parsed ≡ inr g
      → IsAccepted g × (apply_defaults g ≡ g)
  unfolding load_parsed
  load_parsed_lem none g h = ground arith
  load_parsed_lem (some f) g h =
      let (valid, e) =
        accept_lem (apply_defaults f) g (validate split_host_port (apply_defaults f)) h in
      subst (λ x. IsAccepted x × (apply_defaults x ≡ x)) e
        (
          (validate-IsAccepted split_host_port (apply_defaults f) valid).0,
          apply_defaults-apply_defaults f,
        )

  -- A configuration that `Load` returns passed every check, after the defaults were filled in: filling
  -- them in again changes nothing.
  pub load-IsAccepted :
      (read_file : String → Option (List ℕ)) (unmarshal : List ℕ → Option File) (path : String)
      (g : File)
      → load split_host_port read_file unmarshal path ≡ inr g
      → IsAccepted g × (apply_defaults g ≡ g)
  unfolding load
  load-IsAccepted read_file unmarshal path g h = go (read_file path) h
    where
      go :
          (raw : Option (List ℕ))
          → (elim raw [ none ↦ inl bad_file | some r ↦ load_parsed split_host_port (unmarshal r) ])
            ≡ inr g
          → IsAccepted g × (apply_defaults g ≡ g)
      go none h = ground arith
      go (some r) h = load_parsed_lem (unmarshal r) g h
