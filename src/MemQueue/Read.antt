-- ===== src/MemQueue/Read.antt =====
-- The read of a frame that stands in the ring.
use ab_dyeing.Base.{
  ℕ, zero, suc, ◌+◌, ◌-◌, ◌*◌, ◌/◌, ◌^◌, ◌≤◌, ◌<◌, ◌≡◌, inl, inr, refl, sym, ap, ◌∙◌, true, false,
  [], ◌∷◌, ◌++◌, Bytes, length, ltb, leb, if◌then◌else◌, arith,
}
use ab_dyeing.Outcome.{done}
use ab_dyeing.MemQueue.{add64, sub64, size_byte, value, byte_at, read_bytes, read_frame}
use ab_dyeing.MemQueue.Ring.{
  lt_cases, ring, advance, ring-before, ring-behind, advance-within, advance-around,
}

-- The frame of a string stands at `p`.
pub record IsHere (p size : ℕ) (x : Bytes) (m : ℕ → ℕ) : Type 0 where
  pub head : (k : ℕ) → k < 8 → m (ring p size k) ≡ size_byte (length x) k
  pub body : (k : ℕ) → k < length x → m (ring p size (8 + k)) ≡ byte_at x k

value_ext : (n : ℕ) (f g : ℕ → ℕ) → ((k : ℕ) → k < n → f k ≡ g k) → value n f ≡ value n g
unfolding value
value_ext zero f g h = refl
value_ext (suc n) f g h =
    let first = h 0 (omega arith) in
    let more = value_ext n (λ i. f (suc i)) (λ i. g (suc i)) (λ k l. h (suc k) (omega arith)) in
    omega (arith, first, more)

-- 256 to the power of the number of bytes.
abbrev below : ℕ → ℕ
below zero = 1
below (suc k) = 256 * below k

value-size_byte : (k n : ℕ) → n < below k → value k (size_byte n) ≡ n
unfolding value size_byte
value-size_byte zero n h = omega arith
value-size_byte (suc k) n h =
    let rest = value-size_byte k (n / 256) (omega arith) in omega (arith, rest)

read_ext : (n : ℕ) (f g : ℕ → ℕ) → ((k : ℕ) → k < n → f k ≡ g k) → read_bytes n f ≡ read_bytes n g
unfolding read_bytes
read_ext zero f g h = refl
read_ext (suc n) f g h = rw (
  h 0 (omega arith),
  read_ext n (λ i. f (suc i)) (λ i. g (suc i)) (λ k l. h (suc k) (omega arith)),
)

read-byte_at : (x : Bytes) → read_bytes (length x) (byte_at x) ≡ x
unfolding read_bytes byte_at
read-byte_at [] = refl
read-byte_at (c ∷ x) = ap (λ s. c ∷ s) (read-byte_at x)

read_append :
    (a b : ℕ) (f : ℕ → ℕ) → read_bytes a f ++ read_bytes b (λ i. f (a + i)) ≡ read_bytes (a + b) f
unfolding read_bytes
read_append zero b f =
    let e : b ≡ 0 + b = omega arith in
    read_ext b (λ i. f (0 + i)) f (λ k l. let e : 0 + k ≡ k = omega arith in ap f e)
    ∙ ap (λ n. read_bytes n f) e
read_append (suc a) b f =
    let sum : suc a + b ≡ suc (a + b) = omega arith in
    let moved =
      read_ext b (λ i. f (suc a + i)) (λ i. f (suc (a + i)))
        (λ k l. let e : suc a + k ≡ suc (a + k) = omega arith in ap f e) in
    rw (sum, moved) (ap (λ s. f 0 ∷ s) (read_append a b (λ i. f (suc i))))

module _ (x : Bytes) (p size : ℕ) (m : ℕ → ℕ) (at : p ≤ size) (room : length x + 8 ≤ size)
    (small : size < 2 ^ 62) (here : IsHere p size x m) where
  -- The size of the frame, in one piece or cut.
  whole_size : p + 8 ≤ size → value 8 (λ i. m (p + i)) ≡ length x
  whole_size h =
      value_ext 8 (λ i. m (p + i)) (size_byte (length x))
        (λ k l. ap m (sym (ring-before p size k (omega arith))) ∙ here.head k l)
      ∙ value-size_byte 8 (length x) (omega arith)

  cut_size :
      (left : ℕ)
      → left + p ≡ size
      → value 8 (λ i. if ltb i left then m (p + i) else m (i - left)) ≡ length x
  cut_size left e =
      value_ext 8 (λ i. if ltb i left then m (p + i) else m (i - left)) (size_byte (length x))
        (λ k l. elim (lt_cases k left) [
          | inl b ↦
              let test : ltb k left ≡ true = ground arith in
              rw test (ap m (sym (ring-before p size k (omega arith))) ∙ here.head k l)
          | inr b ↦
              let test : ltb k left ≡ false = ground arith in
              let place : ring p size k ≡ k - left =
                ring-behind p size k (omega arith) ∙ omega arith in
              rw test (ap m (sym place) ∙ here.head k l)
        ])
      ∙ value-size_byte 8 (length x) (omega arith)

  -- Reading a frame that stands there gives its string, and moves the bottom by its length.
  pub read_frame_lem : read_frame p size m ≡ done (x, advance p size (length x + 8))
  unfolding read_frame
  read_frame_lem =
      let first : add64 p 8 ≡ p + 8 = omega arith in
      let gap : sub64 size p ≡ size - p = omega arith in
      elim (lt_cases size (p + 8)) [
        | inr fits ↦
            let test : leb (p + 8) size ≡ true = ground arith in
            let sum : add64 (p + 8) (length x) ≡ p + 8 + length x = omega arith in
            elim (lt_cases size (p + 8 + length x)) [
              | inr all ↦
                  let area : leb (p + 8 + length x) size ≡ true = ground arith in
                  let read : read_bytes (length x) (λ i. m (p + 8 + i)) ≡ x =
                    read_ext (length x) (λ i. m (p + 8 + i)) (byte_at x)
                      (λ k l.
                        let place : p + 8 + k ≡ ring p size (8 + k) =
                          omega arith ∙ sym (ring-before p size (8 + k) (omega arith)) in
                        ap m place ∙ here.body k l)
                    ∙ read-byte_at x in
                  rw (first, test, whole_size fits, sum, area, read)
                    (ap (λ v. done (x, v))
                      (advance-within p size (length x + 8) (omega arith) (omega arith)))
              | inl over ↦
                  let r : ℕ = size - p - 8 in
                  let after : sub64 (size - p) 8 ≡ r = omega arith in
                  let test' : leb (p + 8 + length x) size ≡ false = ground arith in
                  let area : leb (length x - r) size ≡ true = ground arith in
                  let near : read_bytes r (λ i. m (p + 8 + i)) ≡ read_bytes r (byte_at x) =
                    read_ext r (λ i. m (p + 8 + i)) (byte_at x)
                      (λ k l.
                        let place : p + 8 + k ≡ ring p size (8 + k) =
                          omega arith ∙ sym (ring-before p size (8 + k) (omega arith)) in
                        ap m place ∙ here.body k (omega arith)) in
                  let far : read_bytes (length x - r) m
                      ≡ read_bytes (length x - r) (λ i. byte_at x (r + i)) =
                    read_ext (length x - r) m (λ i. byte_at x (r + i))
                      (λ k l.
                        let place : k ≡ ring p size (8 + (r + k)) =
                          omega arith ∙ sym (ring-behind p size (8 + (r + k)) (omega arith)) in
                        ap m place ∙ here.body (r + k) (omega arith)) in
                  let total : r + (length x - r) ≡ length x = omega arith in
                  let joined : read_bytes r (byte_at x)
                        ++ read_bytes (length x - r) (λ i. byte_at x (r + i))
                      ≡ x =
                    read_append r (length x - r) (byte_at x)
                    ∙ ap (λ n. read_bytes n (byte_at x)) total
                    ∙ read-byte_at x in
                  let moved : sub64 (length x) r ≡ advance p size (length x + 8) =
                    advance-around p size (length x + 8) _ (omega arith) (omega arith) in
                  rw
                    (
                      first,
                      test,
                      whole_size fits,
                      sum,
                      gap,
                      after,
                      test',
                      area,
                      near,
                      far,
                      joined,
                      moved,
                    )
                    refl
            ]
        | inl over ↦
            let left : ℕ = size - p in
            let test : leb (p + 8) size ≡ false = ground arith in
            let area : leb (8 - left + length x) size ≡ true = ground arith in
            let read : read_bytes (length x) (λ i. m (8 - left + i)) ≡ x =
              read_ext (length x) (λ i. m (8 - left + i)) (byte_at x)
                (λ k l.
                  let place : 8 - left + k ≡ ring p size (8 + k) =
                    omega arith ∙ sym (ring-behind p size (8 + k) (omega arith)) in
                  ap m place ∙ here.body k l)
              ∙ read-byte_at x in
            let moved : sub64 (add64 (length x) 8) left ≡ advance p size (length x + 8) =
              advance-around p size (length x + 8) _ (omega arith) (omega arith) in
            rw (first, test, gap, cut_size left (omega arith), area, read, moved) refl
      ]
