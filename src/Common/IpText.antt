-- ===== src/Common/IpText.antt =====
-- `Ipv4Addr::from_str` and `Ipv6Addr::from_str` of Rust's standard library (core::net::parser), on
-- the bytes of a text. An address is the integer that its octets spell.
pub mod Dotted
pub mod Canonical
use Prim.Native.Nat.{ℕ, zero, suc, ◌+◌, ◌-◌, ◌*◌, ◌^◌, ◌/◌, ◌%◌}
use mathlib.Core.Bool.{Bool, true, false, not, ◌&&◌, ◌||◌}
use mathlib.Core.Option.{Option, none, some}
use mathlib.Core.List.{List, [], ◌∷◌}
use lurk.Common.Booleans.{ltb, leb, ◌==◌, if◌then◌else◌}
use lurk.Common.Lists.{length}

-- A parser takes some bytes from the front, or fails and takes none.
abbrev Parser : Type 0 → Type 0
Parser A = List ℕ → Option (A × List ℕ)

infixl 5 ◌>>=◌
abbrev ◌>>=◌ : {A B : Type 0} → Option A → (A → Option B) → Option B
none >>= f = none
some a >>= f = f a

-- `read_given_char`
unfoldable read_given_char : ℕ → List ℕ → Option (List ℕ)
read_given_char c [] = none
read_given_char c (b ∷ bs) = if b == c then some bs else none

-- `char::to_digit`
unfoldable to_digit : ℕ → ℕ → Option ℕ
to_digit radix c =
    let value =
      if leb b'0' c && leb c b'9'
      then c - b'0'
      else if leb b'a' c && leb c b'z'
      then c - b'a' + 10
      else if leb b'A' c && leb c b'Z'
      then c - b'A' + 10
      else 36 in
    if ltb value radix then some value else none

-- The digits at the front, as far as they go: `none` where the number is over `bound` or has more
-- than `max_digits` digits. The third part is the number of digits.
unfoldable read_digits : (radix bound max_digits result count : ℕ) → Parser (ℕ × ℕ)
read_digits radix bound max_digits result count [] = some ((result, count), [])
read_digits radix bound max_digits result count (b ∷ bs) = elim (to_digit radix b) [
  | none ↦ some ((result, count), b ∷ bs)
  | some digit ↦
      if leb bound (result * radix + digit) || ltb max_digits (count + 1)
      then none
      else read_digits radix bound max_digits (result * radix + digit) (count + 1) bs
]

unfoldable starts_with_zero : List ℕ → Bool
starts_with_zero [] = false
starts_with_zero (b ∷ bs) = b == b'0'

-- `read_number`, for numbers below `bound`
unfoldable read_number : (radix bound max_digits : ℕ) (allow_zero_prefix : Bool) → Parser ℕ
read_number radix bound max_digits allow_zero_prefix bs = do
  ((result, count), rest) ← read_digits radix bound max_digits 0 0 bs
  (if count == 0 || (not allow_zero_prefix && starts_with_zero bs && ltb 1 count)
      then none
      else some (result, rest))

-- `read_separator`: the separator stands before every item but the first.
unfoldable read_separator : {A : Type 0} → ℕ → ℕ → Parser A → Parser A
read_separator sep zero inner bs = inner bs
read_separator sep (suc index) inner bs = read_given_char sep bs >>= inner

unfoldable octet : ℕ → Parser ℕ
octet index = read_separator b'.' index (read_number 10 256 3 false)

unfoldable read_ipv4_addr : Parser ℕ
read_ipv4_addr bs = do
  (a, bs₁) ← octet 0 bs
  (b, bs₂) ← octet 1 bs₁
  (c, bs₃) ← octet 2 bs₂
  (d, bs₄) ← octet 3 bs₃
  some (a * 2 ^ 24 + b * 2 ^ 16 + c * 2 ^ 8 + d, bs₄)

-- The groups that `read_groups` reads, from slot `index` on with `slots` slots left, and whether an
-- IPv4 address stood at their end.
read_groups : (slots index : ℕ) → List ℕ → List ℕ × Bool × List ℕ
read_groups zero index bs = ([], false, bs)
read_groups (suc slots) index bs =
    elim (if slots == 0 then none else read_separator b':' index read_ipv4_addr bs) [
      | some (ipv4, rest) ↦ ((ipv4 / 2 ^ 16) ∷ (ipv4 % 2 ^ 16) ∷ [], true, rest)
      | none ↦ elim (read_separator b':' index (read_number 16 (2 ^ 16) 4 true) bs) [
        | none ↦ ([], false, bs)
        | some (group, rest) ↦
            let (groups, ipv4, rest') = read_groups slots (index + 1) rest in
            (group ∷ groups, ipv4, rest')
      ]
    ]

of_groups : ℕ → List ℕ → ℕ
of_groups acc [] = acc
of_groups acc (g ∷ gs) = of_groups (acc * 2 ^ 16 + g) gs

read_ipv6_addr : Parser ℕ
read_ipv6_addr bs =
    let (head, head_ipv4, rest) = read_groups 8 0 bs in
    if length head == 8 then some (of_groups 0 head, rest) else if head_ipv4 then none else (do
      rest₁ ← read_given_char b':' rest
      rest₂ ← read_given_char b':' rest₁
      let (tail, tail_ipv4, rest₃) = read_groups (7 - length head) 0 rest₂
      some (of_groups 0 head * 2 ^ (16 * (8 - length head)) + of_groups 0 tail, rest₃))

-- `parse_with`: the whole text must be read.
unfoldable whole : Option (ℕ × List ℕ) → Option ℕ
whole none = none
whole (some (a, [])) = some a
whole (some (a, b ∷ bs)) = none

-- A text of more than 15 bytes is no IPv4 address.
unfoldable pub parse_ipv4 : List ℕ → Option ℕ
unfolding whole read_ipv4_addr octet read_separator read_number read_digits to_digit
    starts_with_zero read_given_char
parse_ipv4 text = if ltb 15 (length text) then none else whole (read_ipv4_addr text)

unfoldable pub parse_ipv6 : List ℕ → Option ℕ
unfolding parse_ipv4 read_ipv6_addr read_groups of_groups
parse_ipv6 text = whole (read_ipv6_addr text)
