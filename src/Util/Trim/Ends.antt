-- ===== src/Util/Trim/Ends.antt =====
-- Trimming takes off the characters of the set at both ends, and no other.
use ab_dyeing.Base.{
  take-append, drop-append, ℕ, zero, suc, ◌+◌, ◌≤◌, ◌<◌, ◌≡◌, refl, sym, ap, ◌∙◌, Bool, true, false,
  not, some, [], ◌∷◌, ◌++◌, append_assoc, append-nil, Bytes, All, All-append, length, length-append,
  get_elem?, arith,
}
use ab_dyeing.Util.Sepstr.{in_set}
use ab_dyeing.Util.Trim.{in_set_at, left_pos, trim_left, right_pos, trim_right, trim}

-- Each character is in the set.
abbrev pub IsBlank : Bytes → Bytes → Type 0
IsBlank chars = All (λ c. in_set c chars ≡ true)

-- The first character is not in the set, if there is one.
abbrev pub starts : Bytes → Bytes → Bool
starts chars [] = true
starts chars (c ∷ s) = not (in_set c chars)

-- The last character is not in the set, if there is one.
abbrev pub ends : Bytes → Bytes → Bool
ends chars [] = true
ends chars (c ∷ []) = not (in_set c chars)
ends chars (c ∷ d ∷ s) = ends chars (d ∷ s)

module _ (chars : Bytes) where
  left_pos-blank :
      (l x : Bytes) → IsBlank chars l → starts chars x ≡ true → left_pos chars (l ++ x) ≡ length l
  unfolding left_pos
  left_pos-blank [] [] b h = refl
  left_pos-blank [] (c ∷ x) b h = ground arith
  left_pos-blank (c ∷ l) x b h = rw (b.0) (ap suc (left_pos-blank l x b.1 h))

  get_elem?-append : (s t : Bytes) (p : ℕ) → p < length s → get_elem? (s ++ t) p ≡ get_elem? s p
  get_elem?-append [] t p h = absurd (omega arith)
  get_elem?-append (c ∷ s) t zero h = refl
  get_elem?-append (c ∷ s) t (suc p) h = get_elem?-append s t p (omega arith)

  -- The loop does not look behind the position it starts from.
  right_pos-append :
      (s t : Bytes) (p : ℕ) → p ≤ length s → right_pos chars (s ++ t) p ≡ right_pos chars s p
  unfolding right_pos
  right_pos-append s t zero h = refl
  right_pos-append s t (suc p) h =
      rw (get_elem?-append s t p (omega arith), right_pos-append s t p (omega arith))

  get_elem?-length : (s t : Bytes) (c : ℕ) → get_elem? (s ++ c ∷ t) (length s) ≡ some c
  get_elem?-length [] t c = refl
  get_elem?-length (d ∷ s) t c = get_elem?-length s t c

  right_pos-blank :
      (x r : Bytes)
      → IsBlank chars r
      → right_pos chars (x ++ r) (length x + length r) ≡ right_pos chars x (length x)
  right_pos-blank x [] b = let e : length x + 0 ≡ length x = omega arith in rw (append-nil, e)
  right_pos-blank x (c ∷ r) b =
      let behind : (x ++ c ∷ []) ++ r ≡ x ++ c ∷ r = append_assoc x (c ∷ []) r in
      let one : length (x ++ c ∷ []) ≡ suc (length x) = omega (arith, length-append x (c ∷ [])) in
      let far : suc (length x) + length r ≡ length x + suc (length r) = omega arith in
      let rest : right_pos chars (x ++ c ∷ r) (length x + suc (length r))
          ≡ right_pos chars (x ++ c ∷ []) (suc (length x)) =
        rw (← behind, ← far, ← one) (right_pos-blank (x ++ c ∷ []) r b.1) in
      rest ∙ step x c b.0
    where
      step :
          (x : Bytes) (c : ℕ)
          → in_set c chars ≡ true
          → right_pos chars (x ++ c ∷ []) (suc (length x)) ≡ right_pos chars x (length x)
      step x c h =
          unfold right_pos in
          rw (get_elem?-length x [] c, h) (right_pos-append x (c ∷ []) (length x) (omega arith))

  right_pos-ends : (x : Bytes) → ends chars x ≡ true → right_pos chars x (length x) ≡ length x
  unfolding right_pos
  right_pos-ends [] h = refl
  right_pos-ends (c ∷ x) h = rw (last c x h)
    where
      last :
          (c : ℕ) (x : Bytes)
          → ends chars (c ∷ x) ≡ true
          → in_set_at chars (get_elem? (c ∷ x) (length x)) ≡ false
      last c [] h = ground arith
      last c (d ∷ x) h = last d x h

  trim_right-blank :
      (x r : Bytes) → ends chars x ≡ true → IsBlank chars r → trim_right chars (x ++ r) ≡ x
  unfolding trim_right
  trim_right-blank x r e b =
      rw (length-append x r, right_pos-blank x r b, right_pos-ends x e) (take-append x r)

  trim_left-blank :
      (l x : Bytes) → IsBlank chars l → starts chars x ≡ true → trim_left chars (l ++ x) ≡ x
  unfolding trim_left
  trim_left-blank l x b h = rw (left_pos-blank l x b h) (drop-append l x)

  -- A string between blanks whose own first and last characters are not blank is what trimming
  -- leaves.
  pub trim_lem :
      (l x r : Bytes)
      → IsBlank chars l
      → IsBlank chars r
      → starts chars x ≡ true
      → ends chars x ≡ true
      → trim chars (l ++ (x ++ r)) ≡ x
  unfolding trim
  trim_lem l [] r bl br s e =
      let all = All-append _ l r bl br in
      let gone : trim_left chars (l ++ r) ≡ [] =
        ap (trim_left chars) (sym (append-nil (l ++ r))) ∙ trim_left-blank (l ++ r) [] all refl in
      rw gone (trim_right-blank [] [] refl tt)
  trim_lem l (c ∷ x) r bl br s e =
      rw (trim_left-blank l ((c ∷ x) ++ r) bl s) (trim_right-blank (c ∷ x) r e br)

  -- A string whose first and last characters are not blank is left as it is.
  pub trim_self : (x : Bytes) → starts chars x ≡ true → ends chars x ≡ true → trim chars x ≡ x
  trim_self x s e = ap (trim chars) (sym (append-nil x)) ∙ trim_lem [] x [] tt tt s e
