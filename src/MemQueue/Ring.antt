-- ===== src/MemQueue/Ring.antt =====
-- The area as a ring: where the bytes of a frame stand, counted from its start, and what one write
-- and one read of a frame do.
use ab_dyeing.Base.{
  ℕ, ◌+◌, ◌-◌, ◌^◌, ◌≤◌, ◌<◌, ◌≡◌, ◌⊎◌, inl, inr, refl, sym, ◌∙◌, true, false, Bytes, length, ltb,
  leb, if◌then◌else◌, Bool-cases, arith,
}
use ab_dyeing.Outcome.{done}
use ab_dyeing.MemQueue.{add64, sub64, copy, size_byte, byte_at, write_frame}

pub lt_cases : (a b : ℕ) → (a < b) ⊎ (b ≤ a)
lt_cases a b = elim (Bool-cases (ltb a b)) [
  | inl e ↦ inl (ground arith)
  | inr e ↦ inr (ground arith)
]

-- The place of the byte that stands `o` bytes behind `p`.
unfoldable pub ring : ℕ → ℕ → ℕ → ℕ
ring p size o = if ltb (p + o) size then p + o else p + o - size

-- An index that is moved by `u` bytes; it stays at the end of the area where it just reaches it.
unfoldable pub advance : ℕ → ℕ → ℕ → ℕ
advance p size u = if leb (p + u) size then p + u else p + u - size

-- The bytes of the frame of a string.
unfoldable pub frame : Bytes → ℕ → ℕ
frame x k = if ltb k 8 then size_byte (length x) k else byte_at x (k - 8)

copy_in :
    (dst : ℕ) (source : ℕ → ℕ) (from len : ℕ) (m : ℕ → ℕ) (a i : ℕ)
    → dst ≤ a
    → a < dst + len
    → from + (a - dst) ≡ i
    → copy dst source from len m a ≡ source i
unfolding copy
copy_in dst source from len m a i l u e = rw (sym e) (ground arith)

copy_out :
    (dst : ℕ) (source : ℕ → ℕ) (from len : ℕ) (m : ℕ → ℕ) (a : ℕ)
    → (a < dst) ⊎ (dst + len ≤ a)
    → copy dst source from len m a ≡ m a
unfolding copy
copy_out dst source from len m a (inl h) = ground arith
copy_out dst source from len m a (inr h) = ground arith

-- What a write of a frame leaves: its bytes, and all else as it was.
pub record IsFramed (p size : ℕ) (x : Bytes) (m m' : ℕ → ℕ) : Type 0 where
  pub head : (k : ℕ) → k < 8 → m' (ring p size k) ≡ size_byte (length x) k
  pub body : (k : ℕ) → k < length x → m' (ring p size (8 + k)) ≡ byte_at x k
  pub rest : (o : ℕ) → length x + 8 ≤ o → o < size → m' (ring p size o) ≡ m (ring p size o)

-- A byte stands before the end of the area, or behind its start.
pub ring-before : (p size o : ℕ) → p + o < size → ring p size o ≡ p + o
unfolding ring
ring-before p size o h = ground arith

pub ring-behind : (p size o : ℕ) → size ≤ p + o → ring p size o ≡ p + o - size
unfolding ring
ring-behind p size o h = ground arith

pub advance-within : (p size u : ℕ) {v : ℕ} → p + u ≤ size → v ≡ p + u → v ≡ advance p size u
unfolding advance
advance-within p size u h e = ground arith

pub advance-around : (p size u v : ℕ) → size < p + u → v ≡ p + u - size → v ≡ advance p size u
unfolding advance
advance-around p size u v h e = ground arith

module _ (x : Bytes) (p size : ℕ) (m : ℕ → ℕ) (at : p ≤ size) (room : length x + 8 ≤ size) where
  -- The frame stands in one piece.
  whole-IsFramed :
      p + 8 + length x ≤ size
      → IsFramed p size x m
          (copy (p + 8) (byte_at x) 0 (length x) (copy p (size_byte (length x)) 0 8 m))
  whole-IsFramed fits = record {
    head = λ k h. rw (ring-before p size k (omega arith)) (
        copy_out (p + 8) (byte_at x) 0 (length x) _ (p + k) (inl (omega arith))
        ∙ copy_in p (size_byte (length x)) 0 8 m (p + k) k (omega arith) (omega arith)
            (omega arith));
    body = λ k h. rw (ring-before p size (8 + k) (omega arith)) (
        copy_in (p + 8) (byte_at x) 0 (length x) _ (p + (8 + k)) k (omega arith) (omega arith)
          (omega arith));
    rest = λ o h l. elim (lt_cases (p + o) size) [
      | inl b ↦ rw (ring-before p size o b) (
          copy_out (p + 8) (byte_at x) 0 (length x) _ (p + o) (inr (omega arith))
          ∙ copy_out p (size_byte (length x)) 0 8 m (p + o) (inr (omega arith)))
      | inr b ↦ rw (ring-behind p size o b) (
          copy_out (p + 8) (byte_at x) 0 (length x) _ (p + o - size) (inl (omega arith))
          ∙ copy_out p (size_byte (length x)) 0 8 m (p + o - size) (inl (omega arith)))
    ];
  }

  -- The size is cut at the end of the area.
  cut_size-IsFramed :
      (left : ℕ)
      → left + p ≡ size
      → left < 8
      → IsFramed p size x m (
          copy (8 - left) (byte_at x) 0 (length x) (
            copy 0 (size_byte (length x)) left (8 - left) (copy p (size_byte (length x)) 0 left m)))
  cut_size-IsFramed left e short = record {
    head = λ k h. elim (lt_cases (p + k) size) [
      | inl b ↦ rw (ring-before p size k b) (
          copy_out (8 - left) (byte_at x) 0 (length x) _ (p + k) (inr (omega arith))
          ∙ copy_out 0 (size_byte (length x)) left (8 - left) _ (p + k) (inr (omega arith))
          ∙ copy_in p (size_byte (length x)) 0 left m (p + k) k (omega arith) (omega arith)
              (omega arith))
      | inr b ↦ rw (ring-behind p size k b) (
          copy_out (8 - left) (byte_at x) 0 (length x) _ (p + k - size) (inl (omega arith))
          ∙ copy_in 0 (size_byte (length x)) left (8 - left) _ (p + k - size) k (omega arith)
              (omega arith) (omega arith))
    ];
    body = λ k h. rw (ring-behind p size (8 + k) (omega arith)) (
        copy_in (8 - left) (byte_at x) 0 (length x) _ (p + (8 + k) - size) k (omega arith)
          (omega arith) (omega arith));
    rest = λ o h l. rw (ring-behind p size o (omega arith)) (
        copy_out (8 - left) (byte_at x) 0 (length x) _ (p + o - size) (inr (omega arith))
        ∙ copy_out 0 (size_byte (length x)) left (8 - left) _ (p + o - size) (inr (omega arith))
        ∙ copy_out p (size_byte (length x)) 0 left m (p + o - size) (inl (omega arith)));
  }

  -- The bytes are cut at the end of the area.
  cut_bytes-IsFramed :
      (left : ℕ)
      → left + 8 + p ≡ size
      → left < length x
      → IsFramed p size x m (
          copy 0
            (byte_at x)
            left
            (length x - left)
            (copy (p + 8) (byte_at x) 0 left (copy p (size_byte (length x)) 0 8 m)))
  cut_bytes-IsFramed left e long = record {
    head = λ k h. rw (ring-before p size k (omega arith)) (
        copy_out 0 (byte_at x) left (length x - left) _ (p + k) (inr (omega arith))
        ∙ copy_out (p + 8) (byte_at x) 0 left _ (p + k) (inl (omega arith))
        ∙ copy_in p (size_byte (length x)) 0 8 m (p + k) k (omega arith) (omega arith)
            (omega arith));
    body = λ k h. elim (lt_cases (p + (8 + k)) size) [
      | inl b ↦ rw (ring-before p size (8 + k) b) (
          copy_out 0 (byte_at x) left (length x - left) _ (p + (8 + k)) (inr (omega arith))
          ∙ copy_in (p + 8) (byte_at x) 0 left _ (p + (8 + k)) k (omega arith) (omega arith)
              (omega arith))
      | inr b ↦ rw (ring-behind p size (8 + k) b) (
          copy_in 0 (byte_at x) left (length x - left) _ (p + (8 + k) - size) k (omega arith)
            (omega arith) (omega arith))
    ];
    rest = λ o h l. rw (ring-behind p size o (omega arith)) (
        copy_out 0 (byte_at x) left (length x - left) _ (p + o - size) (inr (omega arith))
        ∙ copy_out (p + 8) (byte_at x) 0 left _ (p + o - size) (inl (omega arith))
        ∙ copy_out p (size_byte (length x)) 0 8 m (p + o - size) (inl (omega arith)));
  }

  -- A write of a frame for which the area has room leaves the frame at the ring places behind the
  -- old top, and moves the top by its length.
  pub write_frame-IsFramed :
      size < 2 ^ 62
      → (m' : ℕ → ℕ) × (write_frame x p size m ≡ done (m', advance p size (length x + 8)))
        × IsFramed p size x m m'
  unfolding write_frame
  write_frame-IsFramed small =
      let sum : add64 (add64 p 8) (length x) ≡ p + 8 + length x = omega arith in
      let gap : sub64 size p ≡ size - p = omega arith in
      elim (lt_cases size (p + 8 + length x)) [
        | inr fits ↦
            let test : leb (p + 8 + length x) size ≡ true = ground arith in
            let moved : p + 8 + length x ≡ advance p size (length x + 8) =
              advance-within p size (length x + 8) (omega arith) (omega arith) in
            (_, rw (sum, test, moved) refl, whole-IsFramed fits)
        | inl over ↦
            let test : leb (p + 8 + length x) size ≡ false = ground arith in
            elim (lt_cases (size - p) 8) [
              | inl short ↦
                  let cut : ltb (size - p) 8 ≡ true = ground arith in
                  let area : leb (8 - (size - p) + length x) size ≡ true = ground arith in
                  let moved : sub64 (add64 (length x) 8) (size - p)
                      ≡ advance p size (length x + 8) =
                    advance-around p size (length x + 8) _ (omega arith) (omega arith) in
                  (
                    _,
                    rw (sum, gap, test, cut, area, moved) refl,
                    cut_size-IsFramed (size - p) (omega arith) short,
                  )
              | inr long ↦
                  let cut : ltb (size - p) 8 ≡ false = ground arith in
                  let area : leb (length x - (size - p - 8)) size ≡ true = ground arith in
                  let moved : sub64 (length x) (size - p - 8) ≡ advance p size (length x + 8) =
                    advance-around p size (length x + 8) _ (omega arith) (omega arith) in
                  (
                    _,
                    rw (sum, gap, test, cut, area, moved) refl,
                    cut_bytes-IsFramed (size - p - 8) (omega arith) (omega arith),
                  )
            ]
      ]
