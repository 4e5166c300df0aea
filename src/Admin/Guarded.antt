-- ===== src/Admin/Guarded.antt =====
-- What the operator's requests answer, and when they act.
use Prim.Native.String.{String}
use text.Mathlib.Text.{◌==◌ as str_eq}
use mathlib.Core.Bool.{true≢false}
use mathlib.Core.Path.{subst}
use mini_envoy.Reactor.Conn.Lookup.{change-get_elem}
use mini_envoy.Runtime.Unpicked.{IsPtr}
use mini_envoy.Base.{if_true, if_false, ap, sym, ◌∙◌}
use mini_envoy.Base.{
  ℕ, ◌≡◌, ◌⊎◌, inl, inr, refl, Bool, true, false, Option, none, some, get_elem?, Bool-cases,
  if◌then◌else◌, arith,
}
use mini_envoy.Upstream.Endpoint.{Endpoint, eject, is_ejected, ejected, set_state}
use mini_envoy.Upstream.Registry.{Ptr, get}
use mini_envoy.Reactor.Conn.{change}
use mini_envoy.Runtime.{
  Runtime, RuntimeError, upstream_not_found, already_ejected, runtime_error_text, operate, settled,
  eject_upstream,
}
use mini_envoy.Admin.{Request, reason_of, token_ok, answered, handle_eject, status_unauthorized}

-- The four answers to a request to take out an endpoint.
pub data Answer (token : String) (r : Request) (rt : Runtime) : ℕ → Runtime → Type 0 where
  unauthorized : token_ok r token ≡ false → Answer token r rt 401 rt
  not_found : token_ok r token ≡ true → get (some rt.ups) r.id ≡ none → Answer token r rt 404 rt
  conflict :
      (p : Ptr) (e : Endpoint)
      → token_ok r token ≡ true
      → get (some rt.ups) r.id ≡ some p
      → get_elem? rt.eps p ≡ some e
      → is_ejected e.state ≡ true
      → Answer token r rt 409 rt
  taken_out :
      (p : Ptr) (e : Endpoint) (reason : String)
      → token_ok r token ≡ true
      → get (some rt.ups) r.id ≡ some p
      → get_elem? rt.eps p ≡ some e
      → is_ejected e.state ≡ false
      → ¬ (reason ≡ "")
      → Answer token r rt 200
          (record rt { eps = change (λ _. set_state e ejected reason) p rt.eps })

module _ (token : String) (trim : String → String) (trim_empty : trim "" ≡ "") (r : Request)
    (rt : Runtime) where
  abbrev Of : ℕ × Runtime → Type 0
  Of a = Answer token r rt a.0 a.1

  reason_of-nonempty : ¬ (reason_of token trim r ≡ "")
  reason_of-nonempty = by_blank (Bool-cases (str_eq (trim r.reason) ""))
    where
      manual : ¬ (◌≡◌ {A = String} "manual eject" "")
      manual h = true≢false (sym (ap (λ t. str_eq t "") h))

      blank : r.reason ≡ "" → str_eq (trim r.reason) "" ≡ true
      blank h = ap (λ t. str_eq (trim t) "") h ∙ ap (λ t. str_eq t "") trim_empty

      by_blank :
          (str_eq (trim r.reason) "" ≡ true) ⊎ (str_eq (trim r.reason) "" ≡ false)
          → ¬ (reason_of token trim r ≡ "")
      by_blank (inl e) h = manual (sym (if_true "manual eject" r.reason e) ∙ h)
      by_blank (inr e) h =
          true≢false (sym (blank (sym (if_false "manual eject" r.reason e) ∙ h)) ∙ e)

  module _ (ok : token_ok r token ≡ true) where
    settled-Of :
        (p : Ptr) (e : Endpoint)
        → get (some rt.ups) r.id ≡ some p
        → get_elem? rt.eps p ≡ some e
        → Of (answered (settled already_ejected p (eject e (reason_of token trim r)) rt))
    unfolding eject runtime_error_text
    settled-Of p e found at = by_state (is_ejected e.state) refl
      where
        out : Bool → Endpoint × Bool
        out b = if b then (e, false) else (set_state e ejected (reason_of token trim r), true)

        by_state :
            (b : Bool)
            → is_ejected e.state ≡ b
            → Of (answered (settled already_ejected p (out b) rt))
        by_state true h =
            subst (λ cs. Answer token r rt 409 (record rt { eps = cs }))
              (sym (change-get_elem p rt.eps e at)) (conflict p e ok found at h)
        by_state false h = taken_out p e (reason_of token trim r) ok found at h reason_of-nonempty

    operate-Of :
        (o : Option Ptr)
        → get (some rt.ups) r.id ≡ o
        → ((p : Ptr) → o ≡ some p → IsPtr rt.eps p)
        → Of (answered (operate already_ejected (λ e. eject e (reason_of token trim r)) o rt))
    unfolding runtime_error_text
    operate-Of none found known = not_found ok found
    operate-Of (some p) found known = by_endpoint (get_elem? rt.eps p) refl
      where
        none_some : (e : Endpoint) → none ≡ some e → ⊥
        none_some e h = ground arith

        out : Option Endpoint → Option RuntimeError × Runtime
        out o = elim o [
          | none ↦ (some upstream_not_found, rt)
          | some e ↦ settled already_ejected p (eject e (reason_of token trim r)) rt
        ]

        by_endpoint : (o : Option Endpoint) → get_elem? rt.eps p ≡ o → Of (answered (out o))
        by_endpoint none at = absurd (none_some _ (sym at ∙ (known p refl).1))
        by_endpoint (some e) at = settled-Of p e found at

-- A request to take out an endpoint has one of four answers: 401, and nothing changes, where its token
-- is refused; 404, and nothing changes, where no endpoint has the id; 409, and nothing
-- changes, where the endpoint is out already; 200, where the endpoint is ejected with a reason that is
-- not empty and nothing else changes. The registry's pointers lead to endpoints, and `TrimSpace` of
-- the empty text is empty.
pub handle_eject-Answer :
    (token : String) (trim : String → String) (r : Request) (rt : Runtime)
    → trim "" ≡ ""
    → ((p : Ptr) → get (some rt.ups) r.id ≡ some p → IsPtr rt.eps p)
    → Answer token r rt (handle_eject token trim r rt).0 (handle_eject token trim r rt).1
unfolding handle_eject eject_upstream
handle_eject-Answer token trim r rt trim_empty known = by_token (token_ok r token) refl
  where
    by_token :
        (b : Bool)
        → token_ok r token ≡ b
        → (λ (a : ℕ × Runtime). Answer token r rt a.0 a.1)
            (if b
              then answered (
                  operate already_ejected
                    (λ e. eject e (reason_of token trim r))
                    (get (some rt.ups) r.id)
                    rt)
              else (status_unauthorized, rt))
    by_token true h = operate-Of token trim trim_empty r rt h (get (some rt.ups) r.id) refl known
    by_token false h = unauthorized h
