-- ===== src/Common/Bytes.antt =====
-- Bytes and big-endian integers: `to_be_bytes`, `from_be_bytes` of Rust's unsigned integers.
use Prim.Native.Nat.{ℕ, zero, suc, ◌+◌, ◌*◌, ◌/◌, ◌%◌, ◌^◌, ◌≤◌, ◌<◌}
use mathlib.Core.Path.{◌≡◌, refl, ap, subst, ◌∙◌}
use mathlib.Core.List.{List, [], ◌∷◌, ◌++◌, append_assoc, append-nil}
use native.Mathlib.Omega.{arith}
use native.Mathlib.Nat.{pow-suc, zero-add}
use lurk.Common.Lists.{length, length-append, All, All-append}

abbrev pub IsByte : ℕ → Type 0
IsByte b = b < 256

-- The `n` lowest bytes of `v`, the most significant first.
unfoldable pub be_bytes : ℕ → ℕ → List ℕ
be_bytes zero v = []
be_bytes (suc n) v = be_bytes n (v / 256) ++ (v % 256) ∷ []

unfoldable from_be_onto : ℕ → List ℕ → ℕ
from_be_onto acc [] = acc
from_be_onto acc (b ∷ bs) = from_be_onto (acc * 256 + b) bs

unfoldable pub from_be_bytes : List ℕ → ℕ
unfolding from_be_onto
from_be_bytes bs = from_be_onto 0 bs

from_be_onto-append :
    (acc : ℕ) (xs : List ℕ) (b : ℕ)
    → from_be_onto acc (xs ++ b ∷ []) ≡ from_be_onto acc xs * 256 + b
unfolding from_be_onto
from_be_onto-append acc [] b = refl
from_be_onto-append acc (x ∷ xs) b = from_be_onto-append (acc * 256 + x) xs b

pub length-be_bytes : (n v : ℕ) → length (be_bytes n v) ≡ n
unfolding be_bytes
length-be_bytes zero v = refl
length-be_bytes (suc n) v =
    omega (arith, length-append (be_bytes n (v / 256)) (v % 256 ∷ []), length-be_bytes n (v / 256))

pub from_be_bytes-be_bytes : (n v : ℕ) → v < 256 ^ n → from_be_bytes (be_bytes n v) ≡ v
unfolding be_bytes from_be_bytes
from_be_bytes-be_bytes zero v h = omega arith
from_be_bytes-be_bytes (suc n) v h =
    let small : v / 256 < 256 ^ n = omega (arith, pow-suc 256 n) in
    from_be_onto-append 0 (be_bytes n (v / 256)) (v % 256)
    ∙ omega (arith, from_be_bytes-be_bytes n (v / 256) small)

shift_in :
    (k acc b : ℕ) (bs : List ℕ)
    → IsByte b
    → be_bytes (suc k) (acc * 256 + b) ++ bs ≡ be_bytes k acc ++ b ∷ bs
unfolding be_bytes
shift_in k acc b bs h =
    let high : (acc * 256 + b) / 256 ≡ acc = omega arith in
    let low : (acc * 256 + b) % 256 ≡ b = omega arith in
    rw (high, low) (append_assoc (be_bytes k acc) (b ∷ []) bs)

be_bytes-from_be_onto :
    (k acc : ℕ) (bs : List ℕ)
    → All IsByte bs
    → be_bytes (length bs + k) (from_be_onto acc bs) ≡ be_bytes k acc ++ bs
unfolding from_be_onto be_bytes
be_bytes-from_be_onto k acc [] h = rw (append-nil, zero-add)
be_bytes-from_be_onto k acc (b ∷ bs) (hb, h) =
    let moved : suc (length bs) + k ≡ length bs + suc k = omega arith in
    ap (λ m. be_bytes m (from_be_onto (acc * 256 + b) bs)) moved
    ∙ be_bytes-from_be_onto (suc k) (acc * 256 + b) bs h
    ∙ shift_in k acc b bs hb

pub be_bytes-from_be_bytes :
    (n : ℕ) (bs : List ℕ) → length bs ≡ n → All IsByte bs → be_bytes n (from_be_bytes bs) ≡ bs
unfolding from_be_bytes be_bytes
be_bytes-from_be_bytes n bs e h =
    let all_of : n ≡ length bs + 0 = omega arith in
    ap (λ m. be_bytes m (from_be_onto 0 bs)) all_of ∙ be_bytes-from_be_onto 0 0 bs h

shift_bound : (acc b p f : ℕ) → IsByte b → f < (acc * 256 + b + 1) * p → f < (acc + 1) * (256 * p)
shift_bound acc b p f hb h = grind (arith, times)
  where
    times : b * p ≤ 255 * p
    times = grind arith

power : (n : ℕ) → 256 * 256 ^ n ≡ 256 ^ suc n
power n = omega (arith, pow-suc 256 n)

from_be_onto-lt :
    (acc : ℕ) (bs : List ℕ) → All IsByte bs → from_be_onto acc bs < (acc + 1) * 256 ^ length bs
unfolding from_be_onto
from_be_onto-lt acc [] h = omega arith
from_be_onto-lt acc (b ∷ bs) (hb, h) =
    let bound = shift_bound acc b (256 ^ length bs) _ hb (from_be_onto-lt (acc * 256 + b) bs h) in
    subst (λ q. from_be_onto (acc * 256 + b) bs < (acc + 1) * q) (power (length bs)) bound

pub from_be_bytes-lt : (bs : List ℕ) → All IsByte bs → from_be_bytes bs < 256 ^ length bs
unfolding from_be_bytes
from_be_bytes-lt bs h = omega (arith, from_be_onto-lt 0 bs h)

be_bytes-IsByte : (n v : ℕ) → All IsByte (be_bytes n v)
unfolding be_bytes
be_bytes-IsByte zero v = tt
be_bytes-IsByte (suc n) v =
    All-append IsByte (be_bytes n (v / 256)) _ (be_bytes-IsByte n (v / 256)) (omega arith)
