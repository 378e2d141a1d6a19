-- ===== src/MemQueue/Counts.antt =====
-- The number of strings and the free bytes, as the queue reports them.
use ab_dyeing.Base.{
  ℕ, ◌+◌, ◌-◌, ◌^◌, ◌≤◌, ◌<◌, ◌≡◌, inl, inr, ◌∙◌, true, false, List, [], ◌∷◌, Bytes, length, ltb,
  leb, if◌then◌else◌, arith,
}
use ab_dyeing.MemQueue.{Queue, queue_size, element_count, get_free_size, add64, sub64}
use ab_dyeing.MemQueue.Ring.{lt_cases, advance}
use ab_dyeing.MemQueue.Laid.{total}
use ab_dyeing.MemQueue.Fifo.{Represents}

advance_before : (p size t : ℕ) → p + t ≤ size → advance p size t ≡ p + t
unfolding advance
advance_before p size t h = ground arith

advance_behind : (p size t : ℕ) → size < p + t → advance p size t ≡ p + t - size
unfolding advance
advance_behind p size t h = ground arith

-- `getFreeSize` is what the frames of the strings leave of the area.
pub get_free_size_lem :
    (xs : List Bytes) (q : Queue) → Represents xs q → get_free_size q ≡ queue_size q - total xs
unfolding get_free_size
get_free_size_lem xs q r =
    left (q.bot) (queue_size q) (total xs) (q.top) (r.bottom) (r.room) (r.small) (r.top)
  where
    left :
        (p size t top : ℕ)
        → p ≤ size
        → t < size
        → size < 2 ^ 62
        → top ≡ advance p size t
        → (if ltb top p then sub64 p top else if ltb p top then add64 (sub64 size top) p else size)
          ≡ size - t
    left p size t top at room small e = elim (lt_cases size (p + t)) [
      | inl b ↦
          let w : top ≡ p + t - size = e ∙ advance_behind p size t b in
          let below : ltb top p ≡ true = ground arith in rw below (omega arith)
      | inr b ↦
          let w : top ≡ p + t = e ∙ advance_before p size t b in
          let below : ltb top p ≡ false = ground arith in
          elim (lt_cases p top) [
            | inl c ↦ let above : ltb p top ≡ true = ground arith in rw (below, above) (omega arith)
            | inr c ↦
                let above : ltb p top ≡ false = ground arith in rw (below, above) (omega arith)
          ]
    ]

length-total : (xs : List Bytes) → length xs ≤ total xs
length-total [] = omega arith
length-total (x ∷ xs) = omega (arith, length-total xs)

-- `elementCount` is the number of the strings, or one less where the count of the pushes has
-- passed 2 ^ 64 and that of the pops has not.
pub element_count_lem :
    (xs : List Bytes) (q : Queue)
    → Represents xs q
    → element_count q ≡ (if leb (q.popped) (q.pushed) then length xs else length xs - 1)
unfolding element_count
element_count_lem xs q r =
    let c = r.count in
    let few = length-total xs in
    elim (lt_cases (q.pushed) (q.popped)) [
      | inl b ↦
          let test : leb (q.popped) (q.pushed) ≡ false = ground arith in
          rw test (omega (arith, c, few))
      | inr b ↦
          let test : leb (q.popped) (q.pushed) ≡ true = ground arith in
          rw test (omega (arith, c, few))
    ]
