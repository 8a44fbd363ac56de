-- ===== src/Common/Lists.antt =====
-- Lists measured by native numbers, cut at a length, and predicates on every element.
use Prim.Native.Nat.{ℕ, zero, suc, ◌+◌, ◌<◌}
use mathlib.Core.Path.{◌≡◌, refl, ap}
use mathlib.Core.List.{List, [], ◌∷◌, ◌++◌, map}
use mathlib.Core.Option.{Option, none, some}
use mathlib.Core.Logic.{inl, inr}
use native.Mathlib.Omega.{arith}
use lurk.Common.Booleans.{Option-cases, if◌then◌else◌}
use mathlib.Core.Bool.{Bool}

module _ {ℓ} {A : Type ℓ} where
  abbrev pub length : List A → ℕ
  length [] = 0
  length (x ∷ xs) = suc (length xs)

  abbrev pub take : ℕ → List A → List A
  take zero xs = []
  take (suc n) [] = []
  take (suc n) (x ∷ xs) = x ∷ take n xs

  abbrev pub drop : ℕ → List A → List A
  drop zero xs = xs
  drop (suc n) [] = []
  drop (suc n) (x ∷ xs) = drop n xs

  pub take-append-drop : (n : ℕ) (xs : List A) → take n xs ++ drop n xs ≡ xs
  take-append-drop zero xs = refl
  take-append-drop (suc n) [] = refl
  take-append-drop (suc n) (x ∷ xs) = ap (λ t. x ∷ t) (take-append-drop n xs)

  abbrev pub cons_front : A → Option (List A × List A) → Option (List A × List A)
  cons_front x none = none
  cons_front x (some (front, back)) = some (x ∷ front, back)

  -- The first `n` elements and the rest, where there are so many.
  abbrev pub split_at : ℕ → List A → Option (List A × List A)
  split_at zero xs = some ([], xs)
  split_at (suc n) [] = none
  split_at (suc n) (x ∷ xs) = cons_front x (split_at n xs)

  pub length-append : (xs ys : List A) → length (xs ++ ys) ≡ length xs + length ys
  length-append [] ys = omega arith
  length-append (x ∷ xs) ys = omega (arith, length-append xs ys)

  pub split_at-append :
      (n : ℕ) (xs ys : List A) → length xs ≡ n → split_at n (xs ++ ys) ≡ some (xs, ys)
  split_at-append zero [] ys h = refl
  split_at-append zero (x ∷ xs) ys h = absurd (omega arith)
  split_at-append (suc n) [] ys h = absurd (omega arith)
  split_at-append (suc n) (x ∷ xs) ys h = ap (cons_front x) (split_at-append n xs ys (omega arith))

  pub split_at-eq-some :
      (n : ℕ) (xs front back : List A)
      → split_at n xs ≡ some (front, back)
      → (xs ≡ front ++ back) × (length front ≡ n)
  split_at-eq-some zero xs front back h = ground arith
  split_at-eq-some (suc n) [] front back h = ground arith
  split_at-eq-some (suc n) (x ∷ xs) front back h = elim (Option-cases (split_at n xs)) [
    | inl e ↦ ground arith
    | inr ((f, b), e) ↦ ground (arith, split_at-eq-some n xs f b e)
  ]

  pub split_at-eq-none : (n : ℕ) (xs : List A) → length xs < n → split_at n xs ≡ none
  split_at-eq-none zero xs h = elim h [ ]
  split_at-eq-none (suc n) [] h = refl
  split_at-eq-none (suc n) (x ∷ xs) h = ap (cons_front x) (split_at-eq-none n xs (omega arith))

  abbrev pub All {κ} : (A → Type κ) → List A → Type κ
  All P [] = Unit {κ}
  All P (x ∷ xs) = P x × All P xs

  pub All-append {κ} : (P : A → Type κ) (xs ys : List A) → All P xs → All P ys → All P (xs ++ ys)
  All-append P [] ys h k = k
  All-append P (x ∷ xs) ys (p, h) k = (p, All-append P xs ys h k)

  pub All-append_left {κ} : (P : A → Type κ) (xs ys : List A) → All P (xs ++ ys) → All P xs
  All-append_left P [] ys h = tt
  All-append_left P (x ∷ xs) ys (p, h) = (p, All-append_left P xs ys h)

  pub All-append_right {κ} : (P : A → Type κ) (xs ys : List A) → All P (xs ++ ys) → All P ys
  All-append_right P [] ys h = h
  All-append_right P (x ∷ xs) ys (p, h) = All-append_right P xs ys h

  -- One element between others, and the others.
  pub All-pick {κ} :
      (P : A → Type κ) (before after : List A) (x : A)
      → All P (before ++ x ∷ after)
      → P x × All P (before ++ after)
  All-pick P [] after x h = h
  All-pick P (y ∷ before) after x (p, h) =
      let (q, rest) = All-pick P before after x h in (q, (p, rest))

  pub All-map {κ μ} :
      (P : A → Type κ) (Q : A → Type μ)
      → ((x : A) → P x → Q x)
      → (xs : List A) → All P xs
      → All Q xs
  All-map P Q f [] h = tt
  All-map P Q f (x ∷ xs) (p, h) = (f x p, All-map P Q f xs h)

module _ {ℓ} {A : Type ℓ} where
  abbrev pub filter_by : (A → Bool) → List A → List A
  filter_by p [] = []
  filter_by p (x ∷ xs) = if p x then x ∷ filter_by p xs else filter_by p xs

module _ {ℓ κ} {A : Type ℓ} {B : Type κ} where
  pub length-map : (f : A → B) (xs : List A) → length (map f xs) ≡ length xs
  length-map f [] = refl
  length-map f (x ∷ xs) = ap suc (length-map f xs)
