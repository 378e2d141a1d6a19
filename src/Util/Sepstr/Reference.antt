-- ===== src/Util/Sepstr/Reference.antt =====
-- The index loop of `sepstr` computes a plain recursion over the bytes.
use ab_dyeing.Base.{
  ℕ, zero, suc, ◌+◌, ◌-◌, ◌<◌, ◌≡◌, refl, ap, inl, inr, Bool, true, false, not, none, some, List,
  [], ◌∷◌, ◌++◌, append_assoc, append-nil, Bytes, if◌then◌else◌, length, take, drop, keep, is_empty,
  leb, ◌==◌, arith, Option-cases, Bool-cases, drop-drop, length-drop, drop_all,
}
use ab_dyeing.Util.Sepstr.{in_set, index_of, find_first_of, push_piece, sepstr_loop, sepstr}

abbrev pub cons_first : ℕ → List Bytes → List Bytes
cons_first c [] = []
cons_first c (p ∷ ps) = (c ∷ p) ∷ ps

-- All the pieces between separators, empty ones included; there is one more than separators.
unfoldable pub split : Bytes → Bytes → List Bytes
split seps [] = [] ∷ []
split seps (c ∷ s) = if in_set c seps then [] ∷ split seps s else cons_first c (split seps s)

abbrev pub pieces : Bool → List Bytes → List Bytes
pieces true ps = ps
pieces false ps = keep (λ p. not (is_empty p)) ps

index_of-none : (seps t : Bytes) → index_of seps t ≡ none → split seps t ≡ t ∷ []
unfolding index_of split
index_of-none seps [] h = refl
index_of-none seps (c ∷ s) h = ground (arith, index_of-none seps s)

index_of-some :
    (seps t : Bytes) (k : ℕ)
    → index_of seps t ≡ some k
    → (split seps t ≡ take k t ∷ split seps (drop (suc k) t)) × (k < length t)
unfolding index_of split
index_of-some seps [] k h = cc
index_of-some seps (c ∷ s) zero h = elim (Bool-cases (in_set c seps)) [
  | inl e ↦ (rw e refl, omega arith)
  | inr e ↦ absurd (ground arith)
]
index_of-some seps (c ∷ s) (suc k) h = elim (Bool-cases (in_set c seps)) [
  | inl e ↦ absurd (ground arith)
  | inr e ↦
      let rest = index_of-some seps s k (ground arith) in
      (rw e (ap (cons_first c) rest.0), omega arith)
]

push-pieces :
    (we : Bool) (p : Bytes) (vt ps : List Bytes)
    → push_piece we p vt ++ pieces we ps ≡ vt ++ pieces we (p ∷ ps)
unfolding push_piece
push-pieces true p vt ps = rw append_assoc
push-pieces false [] vt ps = refl
push-pieces false (c ∷ p) vt ps = rw append_assoc

push_last :
    (we : Bool) (p : Bytes) (vt : List Bytes) → push_piece we p vt ≡ vt ++ pieces we (p ∷ [])
unfolding push_piece
push_last true p vt = refl
push_last false [] vt = rw append-nil
push_last false (c ∷ p) vt = refl

-- The piece that the loop takes at the end of the text.
tail_piece :
    (pos : ℕ) (s : Bytes) → (if leb (pos + 1) (length s) then drop pos s else []) ≡ drop pos s
tail_piece pos s = elim (Bool-cases (leb (pos + 1) (length s))) [
  | inl e ↦ rw e
  | inr e ↦ rw (e, drop_all pos s (ground arith))
]

-- The piece that it takes before a separator at `pos + k`.
cut_piece :
    (pos k : ℕ) (t : Bytes) → (if (pos + k) == pos then [] else take (pos + k - pos) t) ≡ take k t
cut_piece pos zero t = ground arith
cut_piece pos (suc k) t = let e : pos + suc k - pos ≡ suc k = omega arith in rw e (ground arith)

next_pos : (pos k : ℕ) → (if (pos + k) == pos then pos else pos + k) + 1 ≡ pos + suc k
next_pos pos k = ground arith

sepstr_loop-split :
    (fuel : ℕ) (s seps : Bytes) (we : Bool) (pos : ℕ) (vt : List Bytes)
    → length (drop pos s) < fuel
    → sepstr_loop fuel s seps we pos vt ≡ some (vt ++ pieces we (split seps (drop pos s)))
unfolding sepstr_loop find_first_of
sepstr_loop-split zero s seps we pos vt h = absurd (omega arith)
sepstr_loop-split (suc f) s seps we pos vt h = elim (Option-cases (index_of seps (drop pos s))) [
  | inl e ↦
      rw (e, sepstr_loop, find_first_of, tail_piece, index_of-none seps (drop pos s) e)
        (ap some (push_last we (drop pos s) vt))
  | inr (k, e) ↦
      let (cut, inside) = index_of-some seps (drop pos s) k e in
      let there : drop (suc k) (drop pos s) ≡ drop (pos + suc k) s = drop-drop (suc k) pos s in
      let ih =
        sepstr_loop-split f s seps we (pos + suc k) (push_piece we (take k (drop pos s)) vt)
          (omega (arith, ap length there, length-drop (suc k) (drop pos s))) in
      rw (e, sepstr_loop, find_first_of, cut_piece, next_pos, ih, cut, there)
        (ap some (push-pieces we _ vt _))
]

-- `sepstr` returns, and its result is the pieces between separators in order: all of them, or
-- those that are not empty.
pub sepstr-split : (s seps : Bytes) (we : Bool) → sepstr s seps we ≡ pieces we (split seps s)
unfolding sepstr
sepstr-split s seps we = rw (sepstr, sepstr_loop-split (length s + 1) s seps we 0 [] (omega arith))
