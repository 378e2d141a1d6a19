-- ===== src/MemQueue/Laid.antt =====
-- The strings that stand in the ring one behind the other, counted from the bottom.
use ab_dyeing.Base.{
  ℕ, ◌+◌, ◌-◌, ◌≤◌, ◌<◌, ◌≡◌, inl, inr, sym, subst, ap, ◌∙◌, List, [], ◌∷◌, ◌++◌, Bytes, length,
  arith,
}
use ab_dyeing.MemQueue.{size_byte, byte_at}
use ab_dyeing.MemQueue.Ring.{lt_cases, ring, advance, IsFramed}
use ab_dyeing.MemQueue.Read.{IsHere}

-- The bytes that the frames of the strings take.
abbrev pub total : List Bytes → ℕ
total [] = 0
total (x ∷ xs) = (length x + 8) + total xs

pub total-append : (xs ys : List Bytes) → total (xs ++ ys) ≡ total xs + total ys
total-append [] ys = omega arith
total-append (x ∷ xs) ys = omega (arith, total-append xs ys)

-- A frame stands `u` bytes behind `p`.
pub record IsAt (p size u : ℕ) (x : Bytes) (m : ℕ → ℕ) : Type 0 where
  pub head : (k : ℕ) → k < 8 → m (ring p size (u + k)) ≡ size_byte (length x) k
  pub body : (k : ℕ) → k < length x → m (ring p size (u + (8 + k))) ≡ byte_at x k

abbrev pub IsLaid : ℕ → ℕ → ℕ → List Bytes → (ℕ → ℕ) → Type 0
IsLaid p size u [] m = Unit
IsLaid p size u (x ∷ xs) m = IsAt p size u x m × IsLaid p size (u + (length x + 8)) xs m

-- The places behind an index that was moved.
ring-advance :
    (p size u k : ℕ)
    → p ≤ size
    → u + k < size
    → ring (advance p size u) size k ≡ ring p size (u + k)
unfolding ring advance
ring-advance p size u k at h = elim (lt_cases size (p + u)) [
  | inl o ↦ ground arith
  | inr o ↦ ground arith
]

-- The places before an index that was moved are the last ones behind it.
ring-around :
    (p size t o : ℕ)
    → p ≤ size
    → t ≤ size
    → o < t
    → ring (advance p size t) size (size - t + o) ≡ ring p size o
unfolding ring advance
ring-around p size t o at h l = elim (lt_cases size (p + t)) [
  | inl b ↦ ground arith
  | inr b ↦ ground arith
]

-- The first of the strings stands at the bottom.
pub IsAt-IsHere : (p size : ℕ) (x : Bytes) (m : ℕ → ℕ) → IsAt p size 0 x m → IsHere p size x m
IsAt-IsHere p size x m i = record {
  head = λ k h. let e : 0 + k ≡ k = omega arith in ap (λ n. m (ring p size n)) (sym e) ∙ i.head k h;
  body = λ k h.
      let e : 0 + (8 + k) ≡ 8 + k = omega arith in ap (λ n. m (ring p size n)) (sym e) ∙ i.body k h;
}

-- The strings as they are counted from an index that was moved.
pub IsLaid-advance :
    (p size a u : ℕ) (xs : List Bytes) (m : ℕ → ℕ)
    → p ≤ size
    → a + u + total xs < size
    → IsLaid p size (a + u) xs m
    → IsLaid (advance p size a) size u xs m
IsLaid-advance p size a u [] m at h i = tt
IsLaid-advance p size a u (x ∷ xs) m at h (i, is) =
    let same : a + u + (length x + 8) ≡ a + (u + (length x + 8)) = omega arith in
    (
      record {
        head = λ k l.
            let e : a + u + k ≡ a + (u + k) = omega arith in
            ap m (ring-advance p size a (u + k) at (omega arith))
            ∙ ap (λ n. m (ring p size n)) (sym e)
            ∙ i.head k l;
        body = λ k l.
            let e : a + u + (8 + k) ≡ a + (u + (8 + k)) = omega arith in
            ap m (ring-advance p size a (u + (8 + k)) at (omega arith))
            ∙ ap (λ n. m (ring p size n)) (sym e)
            ∙ i.body k l;
      },
      IsLaid-advance p size a (u + (length x + 8)) xs m at (omega arith)
          (subst (λ n. IsLaid p size n xs m) same is),
    )

-- Two memories that agree on the bytes of the strings.
pub IsLaid-agree :
    (p size u t : ℕ) (xs : List Bytes) (m m' : ℕ → ℕ)
    → u + total xs ≤ t
    → ((o : ℕ) → o < t → m' (ring p size o) ≡ m (ring p size o))
    → IsLaid p size u xs m
    → IsLaid p size u xs m'
IsLaid-agree p size u t [] m m' h s i = tt
IsLaid-agree p size u t (x ∷ xs) m m' h s (i, is) = (
  record {
    head = λ k l. s (u + k) (omega arith) ∙ i.head k l;
    body = λ k l. s (u + (8 + k)) (omega arith) ∙ i.body k l;
  },
  IsLaid-agree p size (u + (length x + 8)) t xs m m' (omega arith) s is,
)

IsLaid-append :
    (p size u t : ℕ) (xs : List Bytes) (x : Bytes) (m : ℕ → ℕ)
    → u + total xs ≡ t
    → IsLaid p size u xs m
    → IsAt p size t x m
    → IsLaid p size u (xs ++ x ∷ []) m
IsLaid-append p size u t [] x m h i j =
    let e : t ≡ u = omega arith in (subst (λ n. IsAt p size n x m) e j, tt)
IsLaid-append p size u t (y ∷ ys) x m h (i, is) j =
    (i, IsLaid-append p size (u + (length y + 8)) t ys x m (omega arith) is j)

-- A write of a frame behind the strings leaves their bytes.
pub frame-kept :
    (p size t o : ℕ) (x : Bytes) (m m' : ℕ → ℕ)
    → p ≤ size
    → t + (length x + 8) ≤ size
    → IsFramed (advance p size t) size x m m'
    → o < t
    → m' (ring p size o) ≡ m (ring p size o)
frame-kept p size t o x m m' at h f l =
    let same = ring-around p size t o at (omega arith) l in
    ap m' (sym same) ∙ f.rest (size - t + o) (omega arith) (omega arith) ∙ ap m same

-- A write of a frame behind the strings leaves them, and the new string behind them.
pub IsLaid-framed :
    (p size : ℕ) (xs : List Bytes) (x : Bytes) (m m' : ℕ → ℕ)
    → p ≤ size
    → total xs + (length x + 8) < size
    → IsLaid p size 0 xs m
    → IsFramed (advance p size (total xs)) size x m m'
    → IsLaid p size 0 (xs ++ x ∷ []) m'
IsLaid-framed p size xs x m m' at h i f =
    IsLaid-append p size 0 (total xs) xs x m' (omega arith)
      (IsLaid-agree p size 0 (total xs) xs m m' (omega arith)
        (λ o l. frame-kept p size (total xs) o x m m' at (omega arith) f l) i)
      (record {
        head = λ k l. ap m' (sym (ring-advance p size (total xs) k at (omega arith))) ∙ f.head k l;
        body = λ k l.
            ap m' (sym (ring-advance p size (total xs) (8 + k) at (omega arith))) ∙ f.body k l;
      })
