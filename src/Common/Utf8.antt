-- ===== src/Common/Utf8.antt =====
-- `String::from_utf8`: the validity test of Rust's standard library, on a list of bytes. A string is
-- the list of its bytes.
use lurk.Common.Booleans.{ltb, leb, ◌==◌, if◌then◌else◌}
use Prim.Native.Nat.{ℕ}
use mathlib.Core.Bool.{Bool, true, false, ◌&&◌}
use mathlib.Core.Option.{Option, none, some}
use mathlib.Core.List.{List, [], ◌∷◌}

abbrev tail_byte : ℕ × ℕ
tail_byte = (0x80, 0xbf)

-- The ranges of the bytes that must follow a first byte.
lead : ℕ → Option (List (ℕ × ℕ))
lead b =
    if ltb b 0x80
    then some []
    else if leb 0xc2 b && leb b 0xdf
    then some (tail_byte ∷ [])
    else if b == 0xe0
    then some ((0xa0, 0xbf) ∷ tail_byte ∷ [])
    else if b == 0xed
    then some ((0x80, 0x9f) ∷ tail_byte ∷ [])
    else if leb 0xe1 b && leb b 0xef
    then some (tail_byte ∷ tail_byte ∷ [])
    else if b == 0xf0
    then some ((0x90, 0xbf) ∷ tail_byte ∷ tail_byte ∷ [])
    else if leb 0xf1 b && leb b 0xf3
    then some (tail_byte ∷ tail_byte ∷ tail_byte ∷ [])
    else if b == 0xf4
    then some ((0x80, 0x8f) ∷ tail_byte ∷ tail_byte ∷ [])
    else none

utf8_from : List (ℕ × ℕ) → List ℕ → Bool
utf8_from [] [] = true
utf8_from (range ∷ more) [] = false
utf8_from [] (b ∷ bs) = elim (lead b) [ none ↦ false | some ranges ↦ utf8_from ranges bs ]
utf8_from ((lo, hi) ∷ more) (b ∷ bs) = leb lo b && leb b hi && utf8_from more bs

unfoldable pub is_utf8 : List ℕ → Bool
unfolding lead utf8_from
is_utf8 bytes = utf8_from [] bytes
