-- ===== src/Common/IpText/Canonical.antt =====
-- That the parser of IPv4 addresses reads nothing but their dotted form.
use Prim.Native.Nat.{ℕ, suc, ◌+◌, ◌*◌, ◌^◌, ◌<◌}
use mathlib.Core.Path.{◌≡◌, ◌∙◌, refl, sym, subst, ap}
use mathlib.Core.Logic.{◌↔◌, inl, inr}
use mathlib.Core.Bool.{Bool, true, false, not, ◌&&◌, ◌||◌}
use mathlib.Core.Option.{Option, none, some, some-injective}
use mathlib.Core.List.{List, [], ◌∷◌, ◌++◌}
use native.Mathlib.Omega.{arith}
use lurk.Common.Booleans.{ltb, leb, ◌==◌, Option-cases, if◌then◌else◌}
use lurk.Common.Decimal.{decimal}
use lurk.Common.IpText.{
  to_digit, read_digits, read_number, starts_with_zero, octet, read_separator, read_given_char,
  parse_ipv4, read_ipv4_addr, whole, ◌>>=◌,
}
use lurk.Common.IpText.Dotted.{
  Digits, one, two, three, one_digit, two_digits, three_digits, dotted, parse_ipv4-dotted,
}

to_digit_sound : (b d : ℕ) → to_digit 10 b ≡ some d → (48 + d ≡ b) × (d < 10)
unfolding to_digit
to_digit_sound b d e = ground arith

bounded :
    (value count : ℕ) → leb 256 value || ltb 3 (count + 1) ≡ false → (value < 256) × (count < 3)
bounded value count e = ground arith

data Reads : (result count : ℕ) → List ℕ → (n total : ℕ) → List ℕ → Type 0 where
  stop : (result count : ℕ) (rest : List ℕ) → Reads result count rest result count rest
  digit :
      (result count d : ℕ) (bs : List ℕ) (n total : ℕ) (rest : List ℕ)
      → d < 10
      → result * 10 + d < 256
      → count < 3
      → Reads (result * 10 + d) (count + 1) bs n total rest
      → Reads result count ((48 + d) ∷ bs) n total rest

Out : ℕ → ℕ → List ℕ → Option ((ℕ × ℕ) × List ℕ) → Type 0
Out result count bs none = Unit {0}
Out result count bs (some ((n, total), rest)) = Reads result count bs n total rest

after_test :
    (t : Bool) (result count : ℕ) (bs : List ℕ) (more : Option ((ℕ × ℕ) × List ℕ))
    → (t ≡ false → Out result count bs more)
    → Out result count bs (if t then none else more)
unfolding Out
after_test true result count bs more h = tt
after_test false result count bs more h = h refl

took_digit :
    (result count d b : ℕ) (bs : List ℕ) (more : Option ((ℕ × ℕ) × List ℕ))
    → 48 + d ≡ b
    → d < 10
    → leb 256 (result * 10 + d) || ltb 3 (count + 1) ≡ false
    → Out (result * 10 + d) (count + 1) bs more
    → Out result count (b ∷ bs) more
unfolding Out
took_digit result count d b bs none e h t out = tt
took_digit result count d b bs (some ((n, total), rest)) e h t out =
    subst (λ x. Reads result count (x ∷ bs) n total rest) e
      (digit result count d bs n total rest h (bounded _ count t).0
        (bounded (result * 10 + d) count t).1 out)

read_digits-Reads :
    (result count : ℕ) (bs : List ℕ) → Out result count bs (read_digits 10 256 3 result count bs)
unfolding read_digits Out
read_digits-Reads result count [] = stop result count []
read_digits-Reads result count (b ∷ bs) = elim (Option-cases (to_digit 10 b)) [
  | inl e ↦ rw (read_digits, e) (stop result count (b ∷ bs))
  | inr (d, e) ↦
      rw (read_digits, e)
        (after_test (leb 256 (result * 10 + d) || ltb 3 (count + 1)) result count (b ∷ bs)
          (read_digits 10 256 3 (result * 10 + d) (count + 1) bs)
          λ t.
            took_digit result count d b bs _ (to_digit_sound b d e).0 (to_digit_sound b d e).1 t
              (read_digits-Reads (result * 10 + d) (count + 1) bs))
]

positive : (x : ℕ) → (48 + x == 48) ≡ false → 0 < x
positive x e = ground arith

-- What is read from the beginning, by the number of digits.
Reads-Digits :
    (bs : List ℕ) (n total : ℕ) (rest : List ℕ)
    → Reads 0 0 bs n total rest
    → (total == 0 || (not false && starts_with_zero bs && ltb 1 total)) ≡ false
    → (text : List ℕ) × (bs ≡ text ++ rest) × Digits n text
unfolding starts_with_zero
Reads-Digits _ _ _ _ (stop _ _ rest) t = ground arith
Reads-Digits _ _ _ _ (digit _ _ x bs n total rest h l c (stop _ _ _)) t =
    ((48 + x) ∷ [], refl, subst (λ n. Digits n ((48 + x) ∷ [])) (omega arith) (one h))
Reads-Digits _ _ _ _ (digit _ _ x _ _ _ _ h l c (digit _ _ y bs n total rest h' l' c' (stop _ _ _)))
      t =
    ((48 + x) ∷ (48 + y) ∷ [], refl, two x y (positive x (ground arith)) h h' (omega arith))
Reads-Digits _ _ _ _
      (digit _ _ x _ _ _ _ h l c
        (digit _ _ y _ _ _ _ h' l' c' (digit _ _ z _ _ _ _ h'' l'' c'' (stop _ _ _))))
      t =
    (
      (48 + x) ∷ (48 + y) ∷ (48 + z) ∷ [],
      refl,
      three x y z (positive x (ground arith)) h' h'' (omega arith) l'',
    )
Reads-Digits _ _ _ _
      (digit _ _ x _ _ _ _ h l c (
        digit _ _ y _ _ _ _ h' l' c'
          (digit _ _ z _ _ _ _ h'' l'' c'' (digit _ _ w _ _ _ _ k m p r))))
      t =
    ground arith

-- The digits are those that `Display` prints.
Digits-decimal : (n : ℕ) (text : List ℕ) → Digits n text → (n < 256) × (decimal n ≡ text)
Digits-decimal n _ (one h) = (omega arith, one_digit n h)
Digits-decimal n _ (two x y p h k e) =
    (omega arith, two_digits n (omega arith) (omega arith) ∙ grind arith)
Digits-decimal n _ (three x y z p h k e b) =
    (b, three_digits n (omega arith) (omega arith) ∙ grind arith)

-- What `read_number` took for an octet.
Octet : ℕ → List ℕ → List ℕ → Type 0
Octet n bs rest = (n < 256) × (bs ≡ decimal n ++ rest)

-- What a chain of parsers has, if it succeeds.
bind_inv :
    {A B P : Type 0} (o : Option A) (f : A → Option B) (b : B)
    → (o >>= f) ≡ some b
    → ((a : A) → o ≡ some a → f a ≡ some b → P)
    → P
bind_inv none f b e use_it = ground arith
bind_inv (some a) f b e use_it = use_it a refl e

unless_inv :
    {A : Type 0} (t : Bool) (o : Option A) (b : A)
    → (if t then none else o) ≡ some b
    → (t ≡ false) × (o ≡ some b)
unless_inv true o b e = ground arith
unless_inv false o b e = (refl, e)

when_inv :
    {A : Type 0} (t : Bool) (a b : A) → (if t then some a else none) ≡ some b → (t ≡ true) × (a ≡ b)
when_inv true a b e = (refl, some-injective _ _ e)
when_inv false a b e = ground arith

Reads-Octet :
    (bs : List ℕ) (n total : ℕ) (rest : List ℕ)
    → Reads 0 0 bs n total rest
    → (total == 0 || (not false && starts_with_zero bs && ltb 1 total)) ≡ false
    → Octet n bs rest
unfolding Octet
Reads-Octet bs n total rest r t =
    let (text, e, digits) = Reads-Digits bs n total rest r t in
    let (h, k) = Digits-decimal n text digits in (h, e ∙ ap (λ text. text ++ rest) (sym k))

read_number-Octet :
    (bs : List ℕ) (n : ℕ) (rest : List ℕ)
    → read_number 10 256 3 false bs ≡ some (n, rest)
    → Octet n bs rest
unfolding read_number Out
read_number-Octet bs n rest e = bind_inv (read_digits 10 256 3 0 0 bs) _ _ e λ r h k.
    (let (t, same) = unless_inv _ (some (r.0.0, r.1)) (n, rest) k in
      subst (λ p. Octet p.0 bs p.1) (some-injective _ _ same)
        (Reads-Octet bs r.0.0 r.0.1 r.1 (subst (Out 0 0 bs) h (read_digits-Reads 0 0 bs)) t))

eqb_sound : (b c : ℕ) → (b == c) ≡ true → b ≡ c
eqb_sound b c e = ground arith

given_char_sound : (c : ℕ) (bs rest : List ℕ) → read_given_char c bs ≡ some rest → bs ≡ c ∷ rest
unfolding read_given_char
given_char_sound c [] rest e = ground arith
given_char_sound c (b ∷ bs) rest e =
    let (same, rest_eq) = when_inv _ bs rest e in
    ap (λ c. c ∷ bs) (eqb_sound b c same) ∙ ap (λ bs. c ∷ bs) rest_eq

first_octet_sound :
    (bs : List ℕ) (n : ℕ) (rest : List ℕ)
    → octet 0 bs ≡ some (n, rest)
    → (n < 256) × (bs ≡ decimal n ++ rest)
unfolding octet read_separator Octet
first_octet_sound bs n rest e = read_number-Octet bs n rest e

next_octet_sound :
    (index : ℕ) (bs : List ℕ) (n : ℕ) (rest : List ℕ)
    → octet (suc index) bs ≡ some (n, rest)
    → (n < 256) × (bs ≡ b'.' ∷ (decimal n ++ rest))
unfolding octet read_separator Octet
next_octet_sound index bs n rest e = bind_inv (read_given_char b'.' bs) _ _ e λ bs' h k.
    (let (small, same) = read_number-Octet bs' n rest k in
      (small, given_char_sound b'.' bs bs' h ∙ ap (λ bs. b'.' ∷ bs) same))

-- A text that is an address.
unfoldable pub IsDotted : List ℕ → ℕ → Type 0
IsDotted text ip =
    (a b c d : ℕ) × (a < 256)
    × (b < 256)
    × (c < 256)
    × (d < 256)
    × (text ≡ dotted a b c d)
    × (ip ≡ a * 2 ^ 24 + b * 2 ^ 16 + c * 2 ^ 8 + d)

read_ipv4_addr_sound :
    (text : List ℕ) (ip : ℕ) → read_ipv4_addr text ≡ some (ip, []) → IsDotted text ip
unfolding read_ipv4_addr IsDotted dotted
read_ipv4_addr_sound text ip e = bind_inv (octet 0 text) _ _ e λ r₁ h₁ k₁.
    bind_inv (octet 1 r₁.1) _ _ k₁ λ r₂ h₂ k₂. bind_inv (octet 2 r₂.1) _ _ k₂ λ r₃ h₃ k₃.
      bind_inv (octet 3 r₃.1) _ _ k₃ λ r₄ h₄ k₄.
        (let (a, e₁) = first_octet_sound text r₁.0 r₁.1 h₁ in
          let (b, e₂) = next_octet_sound 0 r₁.1 r₂.0 r₂.1 h₂ in
          let (c, e₃) = next_octet_sound 1 r₂.1 r₃.0 r₃.1 h₃ in
          let (d, e₄) = next_octet_sound 2 r₃.1 r₄.0 r₄.1 h₄ in
          let end = some-injective _ _ k₄ in
          (
            r₁.0,
            r₂.0,
            r₃.0,
            r₄.0,
            a,
            b,
            c,
            d,
            e₁
                ∙ ap (λ bs. decimal r₁.0 ++ bs)
                    (e₂
                      ∙ ap (λ bs. b'.' ∷ (decimal r₂.0 ++ bs))
                          (e₃
                            ∙ ap (λ bs. b'.' ∷ (decimal r₃.0 ++ bs))
                                (e₄ ∙ ap (λ bs. b'.' ∷ (decimal r₄.0 ++ bs)) (ap (λ r. r.1) end)))),
            sym (ap (λ r. r.0) end),
          ))

whole_sound : (read : Option (ℕ × List ℕ)) (ip : ℕ) → whole read ≡ some ip → read ≡ some (ip, [])
unfolding whole
whole_sound none ip e = ground arith
whole_sound (some (a, [])) ip e = ap (λ a. some (a, [])) (some-injective _ _ e)
whole_sound (some (a, b ∷ bs)) ip e = ground arith

parse_ipv4_sound : (text : List ℕ) (ip : ℕ) → parse_ipv4 text ≡ some ip → IsDotted text ip
unfolding parse_ipv4
parse_ipv4_sound text ip e =
    let (t, h) = unless_inv _ (whole (read_ipv4_addr text)) ip e in
    read_ipv4_addr_sound text ip (whole_sound _ ip h)

-- An IPv4 address is read from its dotted form, and from no other text.
pub parse_ipv4_iff : (text : List ℕ) (ip : ℕ) → (parse_ipv4 text ≡ some ip) ↔ IsDotted text ip
unfolding IsDotted
parse_ipv4_iff text ip = (
  parse_ipv4_sound text ip,
  λ (a, b, c, d, h, i, j, k, e, e').
      ap parse_ipv4 e ∙ parse_ipv4-dotted a b c d h i j k ∙ ap some (sym e'),
)
