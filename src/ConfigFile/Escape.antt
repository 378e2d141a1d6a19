-- ===== src/ConfigFile/Escape.antt =====
-- Writing a name or a value with escapes, and reading it again.
use ab_dyeing.Base.{
  ℕ, ◌≡◌, ◌≢◌, ◌⊎◌, subst, refl, ap, ◌∙◌, Bool, true, false, ◌||◌, some, [], ◌∷◌, ◌++◌, Bytes, All,
  ◌==◌, Bool-cases, inl, inr, arith,
}
use ab_dyeing.Outcome.{Outcome, done, throws, undefined, >>=-eq-done, done-injective}
use ab_dyeing.Util.Sepstr.{in_set}
use ab_dyeing.Util.Trim.{blanks}
use ab_dyeing.ConfigFile.{unescaped, cons_done, parse, escaped, reverse_parse}

parse-escape :
    (d e : ℕ) (s : Bytes) → unescaped d ≡ some e → parse (b'\\' ∷ d ∷ s) ≡ cons_done e (parse s)
unfolding parse
parse-escape d e s h = rw h

parse-plain : (c : ℕ) (s : Bytes) → (c == b'\\') ≡ false → parse (c ∷ s) ≡ cons_done c (parse s)
unfolding parse
parse-plain c [] h = rw h
parse-plain c (d ∷ s) h = rw (h, parse)

-- A character that is written as it is; of the blanks, only the space is.
pub record IsPlain (c : ℕ) : Type 0 where
  pub backslash : (c == b'\\') ≡ false
  pub equals : (c == b'=') ≡ false
  pub blank : in_set c blanks ≡ (c == b' ')

-- A character is written as a backslash and the character that stands for it, or as it is.
pub escaped-cases :
    (c : ℕ) (t : Bytes)
    → escaped c ≡ done t
    → ((d : ℕ) × (b'\\' ∷ d ∷ [] ≡ t) × (unescaped d ≡ some c)) ⊎ ((c ∷ [] ≡ t) × IsPlain c)
unfolding escaped unescaped in_set
escaped-cases c t h = elim (Bool-cases (c == b'\\')) [
  | inl e ↦ inl (b'\\', done-injective (rw e at h), ground arith)
  | inr n ↦ elim (Bool-cases (c == b'\r')) [
    | inl e ↦ inl (b'r', done-injective (rw (n, e) at h), ground arith)
    | inr n₁ ↦ elim (Bool-cases (c == b'\n')) [
      | inl e ↦ inl (b'n', done-injective (rw (n, n₁, e) at h), ground arith)
      | inr n₂ ↦ elim (Bool-cases (c == b'\t')) [
        | inl e ↦ inl (b't', done-injective (rw (n, n₁, n₂, e) at h), ground arith)
        | inr n₃ ↦ elim (Bool-cases (c == b'=')) [
          | inl e ↦ inl (b'=', done-injective (rw (n, n₁, n₂, n₃, e) at h), ground arith)
          | inr n₄ ↦ elim (Bool-cases (c == b'<' || c == b'>')) [
            | inl e ↦ (let bad = rw (n, n₁, n₂, n₃, n₄, e) at h in cc)
            | inr n₅ ↦ inr (
              done-injective (rw (n, n₁, n₂, n₃, n₄, n₅) at h),
              record { backslash = n; equals = n₄; blank = ground arith },
            )
          ]
        ]
      ]
    ]
  ]
]

-- What is written for one character is read as that character.
parse-escaped : (c : ℕ) (t s : Bytes) → escaped c ≡ done t → parse (t ++ s) ≡ cons_done c (parse s)
parse-escaped c t s h = elim (escaped-cases c t h) [
  | inl (d, e, u) ↦ rw (← e) (parse-escape d c s u)
  | inr (e, n) ↦ rw (← e) (parse-plain c s n.backslash)
]

parse-append :
    (c : ℕ) (s head rest : Bytes)
    → escaped c ≡ done head
    → parse rest ≡ done s
    → parse (head ++ rest) ≡ done (c ∷ s)
parse-append c s head rest one more = parse-escaped c head rest one ∙ ap (cons_done c) more

-- A string is written character by character.
pub reverse_parse-cons :
    (c : ℕ) (s t : Bytes)
    → reverse_parse (c ∷ s) ≡ done t
    → (head : Bytes) × (rest : Bytes) × (escaped c ≡ done head)
      × (reverse_parse s ≡ done rest)
      × (head ++ rest ≡ t)
unfolding reverse_parse
reverse_parse-cons c s t h =
    let (head, one, h₁) = >>=-eq-done (escaped c) _ h in
    let (rest, more, h₂) = >>=-eq-done (reverse_parse s) _ h₁ in
    (head, rest, one, more, done-injective h₂)

pub parse-reverse_parse : (s t : Bytes) → reverse_parse s ≡ done t → parse t ≡ done s
unfolding reverse_parse
parse-reverse_parse [] t h =
    subst (λ u. parse u ≡ done []) (done-injective h) (unfold parse in refl)
parse-reverse_parse (c ∷ s) t h =
    let (head, rest, one, more, joined) = reverse_parse-cons c s t h in
    subst (λ u. parse u ≡ done (c ∷ s)) joined
      (parse-append c s head rest one (parse-reverse_parse s rest more))

-- No angle bracket, which `reverse_parse` refuses.
abbrev pub IsWritable : ℕ → Type 0
IsWritable c = (c ≢ b'<') × (c ≢ b'>')

abbrev is_done : Outcome Bytes → Bool
is_done (done t) = true
is_done (throws e) = false
is_done undefined = false

done_of : (o : Outcome Bytes) → is_done o ≡ true → (t : Bytes) × (o ≡ done t)
done_of (done t) h = (t, refl)
done_of (throws e) h = cc
done_of undefined h = cc

escaped-done : (c : ℕ) → IsWritable c → is_done (escaped c) ≡ true
unfolding escaped
escaped-done c h = ground arith

pub reverse_parse-done : (s : Bytes) → All IsWritable s → (t : Bytes) × (reverse_parse s ≡ done t)
unfolding reverse_parse
reverse_parse-done [] h = ([], refl)
reverse_parse-done (c ∷ s) h =
    let (head, one) = done_of (escaped c) (escaped-done c h.0) in
    let (rest, more) = reverse_parse-done s h.1 in (head ++ rest, rw (one, more))

-- A string without angle brackets is written, and what is written is read as that string,
-- whatever backslashes, equals signs and line ends it holds.
pub reverse_parse-parse :
    (s : Bytes) → All IsWritable s → (t : Bytes) × (reverse_parse s ≡ done t) × (parse t ≡ done s)
reverse_parse-parse s h = let (t, e) = reverse_parse-done s h in (t, e, parse-reverse_parse s t e)
