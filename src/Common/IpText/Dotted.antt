-- ===== src/Common/IpText/Dotted.antt =====
-- The dotted form of an IPv4 address, as its `Display` prints it, and that the parser reads it back.
use Prim.Native.Nat.{ℕ, suc, ◌+◌, ◌*◌, ◌^◌, ◌/◌, ◌%◌, ◌<◌, ◌≤◌}
use mathlib.Core.Path.{◌≡◌, ◌∙◌, refl, sym, subst}
use mathlib.Core.Bool.{false, not, ◌&&◌, ◌||◌}
use mathlib.Core.Logic.{◌⊎◌, inl, inr}
use mathlib.Core.Option.{some}
use mathlib.Core.List.{List, [], ◌∷◌, ◌++◌}
use native.Mathlib.Omega.{arith}
use lurk.Common.Booleans.{ltb, leb, ◌==◌}
use lurk.Common.Decimal.{decimal}
use lurk.Common.Lists.{length, length-append}
use lurk.Common.IpText.{
  octet, read_separator, read_given_char, parse_ipv4, read_ipv4_addr, to_digit, read_digits,
  read_number, starts_with_zero,
}

to_digit-decimal : (d : ℕ) → d < 10 → to_digit 10 (48 + d) ≡ some d
unfolding to_digit
to_digit-decimal d h = ground arith

-- What may follow an octet.
abbrev Stops : List ℕ → Type 0
Stops [] = Unit {0}
Stops (b ∷ bs) = b ≡ b'.'

read_digits-stop :
    (result count : ℕ) (bs : List ℕ)
    → Stops bs
    → read_digits 10 256 3 result count bs ≡ some ((result, count), bs)
unfolding read_digits to_digit
read_digits-stop result count [] h = refl
read_digits-stop result count (b ∷ bs) h = rw h

in_bounds : (value count : ℕ) → value < 256 → count < 3 → leb 256 value || ltb 3 (count + 1) ≡ false
in_bounds value count h k = ground arith

read_digits-digit :
    (result count d value count' : ℕ) (bs : List ℕ)
    → d < 10
    → value < 256
    → count < 3
    → result * 10 + d ≡ value
    → count + 1 ≡ count'
    → read_digits 10 256 3 result count ((48 + d) ∷ bs) ≡ read_digits 10 256 3 value count' bs
unfolding read_digits
read_digits-digit result count d value count' bs h k l e e' =
    rw (read_digits, to_digit-decimal d h, e, in_bounds value count k l, e')

-- A number below 256 is one, two or three digits, the first not 0 if there are more.
pub data Digits (n : ℕ) : List ℕ → Type 0 where
  one : n < 10 → Digits n ((48 + n) ∷ [])
  two : (x y : ℕ) → 0 < x → x < 10 → y < 10 → x * 10 + y ≡ n → Digits n ((48 + x) ∷ (48 + y) ∷ [])
  three :
      (x y z : ℕ)
      → 0 < x
      → y < 10
      → z < 10
      → (x * 10 + y) * 10 + z ≡ n
      → n < 256
      → Digits n ((48 + x) ∷ (48 + y) ∷ (48 + z) ∷ [])

-- The test of `read_number` on what the digits gave.
accept :
    (bs : List ℕ) (n count : ℕ) (rest : List ℕ)
    → read_digits 10 256 3 0 0 bs ≡ some ((n, count), rest)
    → (count == 0 || (not false && starts_with_zero bs && ltb 1 count)) ≡ false
    → read_number 10 256 3 false bs ≡ some (n, rest)
unfolding read_number
accept bs n count rest e h = rw (read_number, e, h)

nonzero : (x : ℕ) → 0 < x → (48 + x == 48) ≡ false
nonzero x p = ground arith

read_number-Digits :
    (n : ℕ) (text rest : List ℕ)
    → Digits n text
    → Stops rest
    → read_number 10 256 3 false (text ++ rest) ≡ some (n, rest)
unfolding starts_with_zero
read_number-Digits n _ rest (one h) s =
    accept ((48 + n) ∷ rest) n 1 rest
      (read_digits-digit 0 0 n n 1 rest h (omega arith) (omega arith) (omega arith) refl
        ∙ read_digits-stop n 1 rest s)
      (ground arith)
read_number-Digits n _ rest (two x y p h k e) s =
    accept ((48 + x) ∷ (48 + y) ∷ rest) n 2 rest
      (read_digits-digit 0 0 x x 1 ((48 + y) ∷ rest) h (omega arith) (omega arith) (omega arith)
          refl
        ∙ read_digits-digit x 1 y n 2 rest k (omega arith) (omega arith) e refl
        ∙ read_digits-stop n 2 rest s)
      (rw (nonzero x p))
read_number-Digits n _ rest (three x y z p h k e b) s =
    accept ((48 + x) ∷ (48 + y) ∷ (48 + z) ∷ rest) n 3 rest
      (read_digits-digit 0 0 x x 1 ((48 + y) ∷ (48 + z) ∷ rest) (omega arith) (omega arith)
          (omega arith) (omega arith) refl
        ∙ read_digits-digit x 1 y (x * 10 + y) 2 ((48 + z) ∷ rest) h (omega arith) (omega arith)
            refl refl
        ∙ read_digits-digit (x * 10 + y) 2 z n 3 rest k b (omega arith) e refl
        ∙ read_digits-stop n 3 rest s)
      (rw (nonzero x p))

-- `Display` of a number below 256.
pub one_digit : (n : ℕ) → n < 10 → decimal n ≡ (48 + n) ∷ []
unfolding decimal
one_digit n h = ground arith

pub two_digits : (n : ℕ) → 10 ≤ n → n < 100 → decimal n ≡ (48 + n / 10) ∷ (48 + n % 10) ∷ []
unfolding decimal
two_digits n h k = ground arith

pub three_digits :
    (n : ℕ)
    → 100 ≤ n
    → n < 1000
    → decimal n ≡ (48 + n / 10 / 10) ∷ (48 + n / 10 % 10) ∷ (48 + n % 10) ∷ []
unfolding decimal
three_digits n h k = ground arith

below : (n bound : ℕ) → (n < bound) ⊎ (bound ≤ n)
below n bound = ground arith

pub decimal-Digits : (n : ℕ) → n < 256 → Digits n (decimal n)
decimal-Digits n h = elim (below n 10) [
  | inl a ↦ subst (Digits n) (sym (one_digit n a)) (one a)
  | inr a ↦ elim (below n 100) [
    | inl b ↦
        subst (Digits n) (sym (two_digits n a b))
          (two (n / 10) (n % 10) (omega arith) (omega arith) (omega arith) (omega arith))
    | inr b ↦ subst (Digits n) (sym (three_digits n b (omega arith))) (
        three (n / 10 / 10) (n / 10 % 10) (n % 10) (omega arith) (omega arith) (omega arith)
          (omega arith) h)
  ]
]

-- `Display` of an IPv4 address with these octets.
unfoldable pub dotted : ℕ → ℕ → ℕ → ℕ → List ℕ
dotted a b c d =
    decimal a ++ (b'.' ∷ (decimal b ++ (b'.' ∷ (decimal c ++ (b'.' ∷ (decimal d ++ []))))))

Digits-length : (n : ℕ) (text : List ℕ) → Digits n text → length text ≤ 3
Digits-length n _ (one h) = omega arith
Digits-length n _ (two x y p h k e) = omega arith
Digits-length n _ (three x y z p h k e b) = omega arith

decimal-length : (n : ℕ) (rest : List ℕ) → n < 256 → length (decimal n ++ rest) ≤ 3 + length rest
decimal-length n rest h =
    omega (arith, length-append (decimal n) rest, Digits-length n (decimal n) (decimal-Digits n h))

dotted-length : (a b c d : ℕ) → a < 256 → b < 256 → c < 256 → d < 256 → length (dotted a b c d) ≤ 15
unfolding dotted
dotted-length a b c d h i j k = omega (
  arith,
  decimal-length a (b'.' ∷ (decimal b ++ (b'.' ∷ (decimal c ++ (b'.' ∷ (decimal d ++ [])))))) h,
  decimal-length b (b'.' ∷ (decimal c ++ (b'.' ∷ (decimal d ++ [])))) i,
  decimal-length c (b'.' ∷ (decimal d ++ [])) j,
  decimal-length d [] k,
)

first_octet :
    (n : ℕ) (rest : List ℕ) → n < 256 → Stops rest → octet 0 (decimal n ++ rest) ≡ some (n, rest)
unfolding octet read_separator
first_octet n rest h s = read_number-Digits n (decimal n) rest (decimal-Digits n h) s

next_octet :
    (index n : ℕ) (rest : List ℕ)
    → n < 256
    → Stops rest
    → octet (suc index) (b'.' ∷ (decimal n ++ rest)) ≡ some (n, rest)
unfolding octet read_separator read_given_char
next_octet index n rest h s = read_number-Digits n (decimal n) rest (decimal-Digits n h) s

short : (n : ℕ) → n ≤ 15 → ltb 15 n ≡ false
short n h = ground arith

pub parse_ipv4-dotted :
    (a b c d : ℕ)
    → a < 256
    → b < 256
    → c < 256
    → d < 256
    → parse_ipv4 (dotted a b c d) ≡ some (a * 2 ^ 24 + b * 2 ^ 16 + c * 2 ^ 8 + d)
unfolding parse_ipv4 dotted
parse_ipv4-dotted a b c d h i j k = rw (
  parse_ipv4,
  short (length (dotted a b c d)) (dotted-length a b c d h i j k),
  read_ipv4_addr,
  first_octet a (b'.' ∷ (decimal b ++ (b'.' ∷ (decimal c ++ (b'.' ∷ (decimal d ++ [])))))) h refl,
  next_octet 0 b (b'.' ∷ (decimal c ++ (b'.' ∷ (decimal d ++ [])))) i refl,
  next_octet 1 c (b'.' ∷ (decimal d ++ [])) j refl,
  next_octet 2 d [] k tt,
)
