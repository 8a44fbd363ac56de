-- ===== src/Stream/Laws.antt =====
-- Reading back what stands at the front of a stream, and what a successful read says of the stream.
use lurk.Common.{
  All-append_left, append_assoc, subst, All-append_right, sym, ap, All, ◌∙◌, ℕ, ◌^◌, ◌<◌, ◌≡◌, List,
  ◌++◌, arith, length, split_at, split_at-append, split_at-eq-some, split_at-eq-none, Option-cases,
  inl, inr, [], ◌∷◌, refl,
}
use lurk.Common.Bytes.{
  from_be_bytes-lt, be_bytes-from_be_bytes, from_be_bytes, IsByte, be_bytes, length-be_bytes,
  from_be_bytes-be_bytes,
}
use lurk.Error.{ok, err, continue-eq-ok}
use lurk.Stream.{write_all, byte_at, read_u8, Stream, eof_error, read_exact, read_be}

-- The stream with other bytes to come.
abbrev pub feed : List ℕ → Stream → Stream
feed bytes s = record s { incoming = bytes }

pub read_exact-append :
    (n : ℕ) (bytes rest : List ℕ) (s : Stream)
    → length bytes ≡ n
    → read_exact n (feed (bytes ++ rest) s) ≡ (ok bytes, feed rest s)
unfolding read_exact
read_exact-append n bytes rest s h = rw (split_at-append n bytes rest h)

read_exact_short :
    (n : ℕ) (s : Stream)
    → length s.incoming < n
    → read_exact n s ≡ (err (eof_error s.ending), feed [] s)
unfolding read_exact
read_exact_short n s h = rw (split_at-eq-none n s.incoming h)

pub read_be-append :
    (n v : ℕ) (rest : List ℕ) (s : Stream)
    → v < 256 ^ n
    → read_be n (feed (be_bytes n v ++ rest) s) ≡ (ok v, feed rest s)
unfolding read_be
read_be-append n v rest s h =
    rw (split_at-append n (be_bytes n v) rest (length-be_bytes n v), from_be_bytes-be_bytes n v h)

-- What a successful read took from the stream, and that it changed nothing else.
abbrev pub Took : List ℕ → Stream → Stream → Type 0
Took bytes s s' = (s.incoming ≡ bytes ++ s'.incoming) × (s' ≡ feed s'.incoming s)

pub read_exact-Took :
    (n : ℕ) (s s' : Stream) (bytes : List ℕ)
    → read_exact n s ≡ (ok bytes, s')
    → Took bytes s s' × (length bytes ≡ n)
unfolding read_exact
read_exact-Took n s s' bytes h = elim (Option-cases (split_at n s.incoming)) [
  | inl e ↦ ground arith
  | inr ((front, back), e) ↦ ground (arith, split_at-eq-some n s.incoming front back e)
]

pub Took-append :
    {s s₁ s₂ : Stream} (xs ys : List ℕ) → Took xs s s₁ → Took ys s₁ s₂ → Took (xs ++ ys) s s₂
Took-append {s₂} xs ys (p, p') (q, q') =
    (p ∙ ap (λ t. xs ++ t) q ∙ sym (append_assoc xs ys _), q' ∙ ap (feed s₂.incoming) p')

pub Took-IsByte :
    {s s' : Stream} (xs : List ℕ) → Took xs s s' → All IsByte s.incoming → All IsByte s'.incoming
Took-IsByte xs (p, _) h = All-append_right IsByte xs _ (subst (All IsByte) p h)

pub read_be-Took :
    (n : ℕ) (s s' : Stream) (v : ℕ)
    → All IsByte s.incoming
    → read_be n s ≡ (ok v, s')
    → Took (be_bytes n v) s s' × (v < 256 ^ n)
unfolding read_be
read_be-Took n s s' v h e =
    let (bytes, s₁, e₁, e') = continue-eq-ok (read_exact n s) _ e in
    let (took, long) = read_exact-Took n s s₁ bytes e₁ in
    let bytewise = All-append_left IsByte bytes _ (subst (All IsByte) took.0 h) in
    let same_v : from_be_bytes bytes ≡ v = ground arith in
    let same_s : s₁ ≡ s' = ap (λ p. p.1) e' in
    rw (← same_s, ← same_v, be_bytes-from_be_bytes n bytes long bytewise)
      (took, subst (λ k. from_be_bytes bytes < 256 ^ k) long (from_be_bytes-lt bytes bytewise))

single : (bytes : List ℕ) → length bytes ≡ 1 → bytes ≡ byte_at bytes 0 ∷ []
single [] h = absurd (omega arith)
single (b ∷ []) h = refl
single (b ∷ c ∷ bytes) h = absurd (omega arith)

pub read_u8-Took : (s s' : Stream) (b : ℕ) → read_u8 s ≡ (ok b, s') → Took (b ∷ []) s s'
unfolding read_u8
read_u8-Took s s' b e =
    let (bytes, s₁, e₁, e') = continue-eq-ok (read_exact 1 s) _ e in
    let (took, long) = read_exact-Took 1 s s₁ bytes e₁ in
    let same_s : s₁ ≡ s' = ap (λ p. p.1) e' in
    let same_b : byte_at bytes 0 ≡ b = ground arith in
    rw (← same_s, ← same_b) (subst (λ t. Took t s s₁) (single bytes long) took)

-- A write that succeeded appended all its bytes, and took nothing from what is to be read.
pub write_all-Wrote :
    (bytes : List ℕ) (s s' : Stream)
    → write_all bytes s ≡ (ok tt, s')
    → (s'.written ≡ s.written ++ bytes) × (s'.incoming ≡ s.incoming)
unfolding write_all
write_all-Wrote bytes s s' e = elim (Option-cases s.sink) [
  | inl open_sink ↦ ground arith
  | inr ((room, kind), bounded) ↦ ground arith
]
