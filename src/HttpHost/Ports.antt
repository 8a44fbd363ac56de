-- ===== src/HttpHost/Ports.antt =====
-- The port of an authority without one of its own, by the scheme of the URI.
use text.Mathlib.Text.{◌==◌ as str_eq}
use text.Mathlib.TextEquality.{eq_iff}
use Prim.Native.String.{String}
use lurk.HttpHost.{default_port, port_or_default}
use lurk.Common.{
  ap, sym, refl, arith, none, some, Option, some-injective, ◌≡◌, ◌↔◌, ◌⊎◌, inl, inr, ℕ, Bool-cases,
}

none_not_some : (port : ℕ) → ¬ (none ≡ some port)
none_not_some port e = ground arith

-- The port of an authority: its own, or without one 80 where the URI has no scheme or the scheme is
-- http, and 443 where it is https.
pub data IsPort (given : Option ℕ) (scheme : Option String) (port : ℕ) : Type 0 where
  explicit : given ≡ some port → IsPort given scheme port
  of_http :
      given ≡ none → (scheme ≡ none) ⊎ (scheme ≡ some "http") → port ≡ 80 → IsPort given scheme port
  of_https : given ≡ none → scheme ≡ some "https" → port ≡ 443 → IsPort given scheme port

default_port_sound :
    (scheme : Option String) (port : ℕ) → default_port scheme ≡ some port → IsPort none scheme port
unfolding default_port
default_port_sound none port e = of_http refl (inl refl) (sym (some-injective _ _ e))
default_port_sound (some s) port e = elim (Bool-cases (str_eq s "http")) [
  | inl h ↦
      of_http refl (inr (ap some ((eq_iff s "http").0 h))) (sym (some-injective _ _ (rw h at e)))
  | inr h ↦ elim (Bool-cases (str_eq s "https")) [
    | inl k ↦
        of_https refl (ap some ((eq_iff s "https").0 k)) (sym (some-injective _ _ (rw (h, k) at e)))
    | inr k ↦ absurd (none_not_some port (rw (h, k) at e))
  ]
]

pub port_or_default_iff :
    (given : Option ℕ) (scheme : Option String) (port : ℕ)
    → (port_or_default given scheme ≡ some port) ↔ IsPort given scheme port
unfolding default_port
port_or_default_iff given scheme port = (sound given, complete)
  where
    sound : (given : Option ℕ) → port_or_default given scheme ≡ some port → IsPort given scheme port
    sound (some p) e = explicit e
    sound none e = default_port_sound scheme port e

    complete : IsPort given scheme port → port_or_default given scheme ≡ some port
    complete (explicit e) = rw e refl
    complete (of_http e (inl s) p) = rw (e, s, p) refl
    complete (of_http e (inr s) p) = rw (e, s, p) refl
    complete (of_https e s p) = rw (e, s, p) refl
