-- ===== src/Socks5/Grammar/Greeting.antt =====
-- That a greeting is read as the grammar has it.
use lurk.Socks5.Grammar.Reads.{as_read, read_exact-exactly}
use lurk.Socks5.Grammar.{
  all_known, behind, cut, exactly, first_unknown, greeting, offers_none, whole, wrong, Front,
}
use lurk.Socks5.Request.{collect_methods, read_handshake, read_methods, HandshakeRequest}
use lurk.Socks5.{from_socks5_const}
use lurk.Auth.Selection.{contains-insert}
use lurk.Auth.{contains, insert, method_eq, MethodSet}
use lurk.Error.{
  and_then, panic, continue, data_error, err, lurk_error, ok, InvalidValue, LurkAuthMethod, M,
  Result,
}
use lurk.Stream.{read_exact, Stream}
use lurk.Stream.Laws.{feed}
use lurk.Common.{
  ap, arith, refl, sym, inl, inr, ltb, none, some, Bool-cases, true, false, suc, zero, ◌∙◌, ◌≡◌,
  ◌==◌, List, Option, [], ◌∷◌, ℕ, Bool, if◌then◌else◌,
}

-- The methods of a greeting: the first unknown one is the error, and otherwise the set has `None`
-- just if the list has.
data Collected (ms : List ℕ) : Option ℕ → Result MethodSet → Type 0 where
  unknown_at :
      (m : ℕ) → Collected ms (some m) (err (lurk_error (data_error (InvalidValue.auth_method m))))
  collected :
      (set : MethodSet)
      → contains set LurkAuthMethod.none ≡ offers_none ms
      → Collected ms none (ok set)

abbrev Decoded : ℕ → Result LurkAuthMethod → Type 0
Decoded m (ok method) = (ltb 2 m ≡ false) × (method_eq method LurkAuthMethod.none ≡ (m == 0))
Decoded m (err e) = (ltb 2 m ≡ true) × (e ≡ lurk_error (data_error (InvalidValue.auth_method m)))
Decoded m panic = ⊥

from_socks5_const-Decoded : (m : ℕ) → Decoded m (from_socks5_const m)
unfolding from_socks5_const method_eq
from_socks5_const-Decoded m = elim (Bool-cases (m == 0)) [
  | inl e ↦ rw e (ground arith, sym e)
  | inr e ↦ elim (Bool-cases (m == 1)) [
    | inl k ↦ rw (e, k) (ground arith, sym e)
    | inr k ↦ elim (Bool-cases (m == 2)) [
      | inl l ↦ rw (e, k, l) (ground arith, sym e)
      | inr l ↦ rw (e, k, l) (ground arith, refl)
    ]
  ]
]

insert-Collected :
    (m : ℕ) (ms : List ℕ) (method : Result LurkAuthMethod) (unknown : Option ℕ)
    (rest : Result MethodSet)
    → Decoded m method
    → Collected ms unknown rest
    → Collected
        (m ∷ ms)
        (if ltb 2 m then some m else unknown)
        (and_then method λ method. and_then rest λ methods. ok (insert method methods))
unfolding offers_none
insert-Collected m ms (err e) unknown rest (t, same) c = rw (t, same) (unknown_at m)
insert-Collected m ms (ok method) _ _ (t, same) (unknown_at m') = rw t (unknown_at m')
insert-Collected m ms (ok method) _ _ (t, same) (collected set offers) = rw t (
    collected (insert method set)
      (contains-insert method LurkAuthMethod.none set ∙ rw (same, offers)))
insert-Collected m ms panic unknown rest d c = absurd d

collect_methods-Collected : (ms : List ℕ) → Collected ms (first_unknown ms) (collect_methods ms)
unfolding collect_methods first_unknown contains offers_none
collect_methods-Collected [] = collected [] refl
collect_methods-Collected (m ∷ ms) =
    insert-Collected m ms _ _ _ (from_socks5_const-Decoded m) (collect_methods-Collected ms)

read_methods_lem :
    (n : ℕ) (bs : List ℕ) (s : Stream)
    → read_methods n (feed bs s)
      ≡ continue (read_exact n (feed bs s)) (λ ms s'. (collect_methods ms, s'))
unfolding read_methods read_exact collect_methods
read_methods_lem zero bs s = refl
read_methods_lem (suc n) bs s = let e : (suc n == 0) ≡ false = ground arith in rw e

-- A greeting is read as the grammar has it: what is done with its set of methods, if that depends on
-- whether `None` is in the set, is done with the methods of the greeting.
module _ (f : HandshakeRequest → M Stream (Unit {0})) (k : Bool → M Stream (Unit {0}))
    (by_none : (r : HandshakeRequest) (s : Stream)
      → f r s ≡ k (contains r.auth_methods LurkAuthMethod.none) s) where
  with_methods :
      (ms bs : List ℕ) (unknown : Option ℕ) (r : Result MethodSet) (s : Stream)
      → Collected ms unknown r
      → continue (continue (r, feed bs s) (λ set s'. (ok (record { auth_methods = set }), s'))) f
        ≡ continue (as_read (all_known unknown ms bs) s) (λ ms. k (offers_none ms))
  with_methods ms bs _ _ s (unknown_at m) = refl
  with_methods ms bs _ _ s (collected set offers) =
      by_none (record { auth_methods = set }) (feed bs s) ∙ ap (λ b. k b (feed bs s)) offers

  with_list :
      (front : Front (List ℕ)) (s : Stream)
      → continue
          (continue
            (continue (as_read front s) (λ ms s'. (collect_methods ms, s')))
            (λ set s'. (ok (record { auth_methods = set }), s')))
          f
        ≡ continue
            (as_read (behind front (λ ms rest. all_known (first_unknown ms) ms rest)) s)
            (λ ms. k (offers_none ms))
  with_list (whole ms bs) s = with_methods ms bs _ _ s (collect_methods-Collected ms)
  with_list (wrong e bs) s = refl
  with_list cut s = refl

  known_version :
      (n : ℕ) (bs : List ℕ) (s : Stream)
      → continue
          (continue
            (read_methods n (feed bs s))
            (λ set s'. (ok (record { auth_methods = set }), s')))
          f
        ≡ continue
            (as_read (behind (exactly n bs) (λ ms rest. all_known (first_unknown ms) ms rest)) s)
            (λ ms. k (offers_none ms))
  known_version n bs s =
      rw (read_methods_lem n bs s, read_exact-exactly n bs s) (with_list (exactly n bs) s)

  pub read_handshake-greeting :
      (bs : List ℕ) (s : Stream)
      → continue (read_handshake (feed bs s)) f
        ≡ continue (as_read (greeting bs) s) (λ ms. k (offers_none ms))
  unfolding read_handshake greeting
  read_handshake-greeting [] s = unfold read_exact in refl
  read_handshake-greeting (a ∷ []) s = unfold read_exact in refl
  read_handshake-greeting (version ∷ n ∷ bs) s = elim (Bool-cases (version == 5)) [
    | inr e ↦ unfold read_exact in rw (read_handshake, e)
    | inl e ↦ unfold read_exact in rw (read_handshake, e) (known_version n bs s)
  ]
