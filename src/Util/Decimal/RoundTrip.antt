-- ===== src/Util/Decimal/RoundTrip.antt =====
-- Printing a number and reading it again.
use ab_dyeing.Base.{
  ℕ, zero, suc, ◌+◌, ◌-◌, ◌*◌, ◌/◌, ◌%◌, ◌^◌, ◌≤◌, ◌<◌, ◌≡◌, refl, ap, ◌∙◌, false, [], ◌∷◌, Bytes,
  All, Bool-cases, inl, inr, ltb, arith,
}
use ab_dyeing.Util.Decimal.{
  show_loop, show, is_space, skip_spaces, read_digits, signed, clamp, strtol, atoi_u32, atol_u64,
}

abbrev pub IsDigit : ℕ → Type 0
IsDigit c = (b'0' ≤ c) × (c ≤ b'9')

-- A text that is one digit or more.
pub data Digits (s : Bytes) : Type 0 where
  digits : (c : ℕ) (t : Bytes) → s ≡ c ∷ t → IsDigit c → All IsDigit t → Digits s

Digits-cons : (c : ℕ) (t : Bytes) → IsDigit c → All IsDigit t → Digits (c ∷ t)
Digits-cons c t h ht = digits c t refl h ht

show_loop-Digits : (f n : ℕ) (out : Bytes) → n < f → All IsDigit out → Digits (show_loop f n out)
unfolding show_loop
show_loop-Digits zero n out h ho = absurd (omega arith)
show_loop-Digits (suc f) n out h ho = elim (Bool-cases (ltb n 10)) [
  | inl e ↦ rw (e, show_loop) (Digits-cons (b'0' + n) out (ground arith) ho)
  | inr e ↦
      rw (e, show_loop)
        (show_loop-Digits f (n / 10) ((b'0' + n % 10) ∷ out) (ground arith) (omega arith, ho))
]

pub show-Digits : (n : ℕ) → Digits (show n)
unfolding show
show-Digits n = show_loop-Digits (n + 1) n [] (omega arith) tt

pub Digits-All : {s : Bytes} → Digits s → All IsDigit s
Digits-All (digits c t e h ht) = rw e (h, ht)

digit_step :
    (n c : ℕ) (t : Bytes) → IsDigit c → read_digits n (c ∷ t) ≡ read_digits (n * 10 + (c - b'0')) t
unfolding read_digits
digit_step n c t h = ground arith

read_digits-show_loop :
    (f n : ℕ) (out : Bytes) → n < f → read_digits 0 (show_loop f n out) ≡ read_digits n out
unfolding show_loop
read_digits-show_loop zero n out h = absurd (omega arith)
read_digits-show_loop (suc f) n out h = elim (Bool-cases (ltb n 10)) [
  | inl e ↦
      rw (e, show_loop, digit_step 0 (b'0' + n) out (ground arith))
        (ap (λ (k : ℕ). read_digits k out) (omega arith))
  | inr e ↦
      rw
        (
          e,
          show_loop,
          read_digits-show_loop f (n / 10) ((b'0' + n % 10) ∷ out) (ground arith),
          digit_step (n / 10) (b'0' + n % 10) out (omega arith),
        )
        (ap (λ (k : ℕ). read_digits k out) (omega arith))
]

pub read_digits-show : (n : ℕ) → read_digits 0 (show n) ≡ n
unfolding show
read_digits-show n = read_digits-show_loop (n + 1) n [] (omega arith) ∙ unfold read_digits in refl

-- A text of digits has no sign and no white space before it.
strtol-Digits : (s : Bytes) → Digits s → strtol s ≡ clamp false (read_digits 0 s)
unfolding strtol skip_spaces is_space signed
strtol-Digits s (digits c t e h ht) = rw e (ground arith)

-- `atoi` reads a number below 2 ^ 32 back from its print, and `atol` one below 2 ^ 63.
pub atoi_u32-show : (n : ℕ) → n < 2 ^ 32 → atoi_u32 (show n) ≡ n
unfolding atoi_u32 clamp
atoi_u32-show n h = rw (strtol-Digits (show n) (show-Digits n), read_digits-show n) (ground arith)

pub atol_u64-show : (n : ℕ) → n < 2 ^ 63 → atol_u64 (show n) ≡ n
unfolding atol_u64 clamp
atol_u64-show n h = rw (strtol-Digits (show n) (show-Digits n), read_digits-show n) (ground arith)
