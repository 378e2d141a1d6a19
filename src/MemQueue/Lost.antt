-- ===== src/MemQueue/Lost.antt =====
-- What an empty queue does with a string that fills its area: `isFull` says false of it.
use ab_dyeing.Base.{
  ℕ, ◌+◌, ◌-◌, ◌*◌, ◌^◌, ◌≤◌, ◌<◌, ◌≡◌, inl, inr, ◌∙◌, true, false, none, [], Bytes, length, ltb,
  leb, ◌==◌, arith,
}
use ab_dyeing.Outcome.{done, undefined}
use ab_dyeing.MemQueue.{
  Queue, add64, sub64, queue_size, do_update, is_full, write_frame, push_settled, push_back,
  pop_settled, pop_front,
}
use ab_dyeing.MemQueue.Ring.{lt_cases, advance, advance-around, write_frame-IsFramed}
use ab_dyeing.MemQueue.Fifo.{Represents, top_le, do_update_settled, log_push-commit}
use ab_dyeing.MemQueue.Transfer.{written_back}

top-bottom : (q : Queue) → Represents [] q → q.top ≡ q.bot
unfolding advance
top-bottom q r = r.top ∙ ground arith

is_full-nil : (q : Queue) (n : ℕ) → Represents [] q → is_full n q ≡ false
unfolding is_full
is_full-nil q n r = let e = top-bottom q r in ground arith

-- An empty queue whose bottom is not at the start of the area takes a string that is as long as
-- the area with its size, and is empty afterwards: the string is lost.
pub push_back-lost :
    (x : Bytes) (q : Queue)
    → Represents [] q
    → length x + 8 ≡ queue_size q
    → 0 < q.bot
    → (q' : Queue) × (push_back x q ≡ done (true, q')) × (pop_front q' ≡ done (none, q'))
unfolding push_back push_settled pop_front pop_settled
push_back-lost x q r full moved =
    let at = top_le [] q r in
    let (m, w, f) =
      write_frame-IsFramed x (q.top) (queue_size q) (q.memory) at (omega arith) (r.small) in
    let t = advance (q.top) (queue_size q) (length x + 8) in
    let same = top-bottom q r in
    let around : q.bot ≡ t =
      advance-around (q.top) (queue_size q) (length x + 8) (q.bot) (omega arith) (omega arith) in
    let empty : (t == q.bot) ≡ true = ground arith in
    (
      written_back q m t,
      rw (do_update_settled q r.settled, is_full-nil q (length x) r, w)
          (log_push-commit q m t (r.no_entries)),
      (unfold do_update in rw empty),
    )

write_frame-overruns :
    (x : Bytes) (p size : ℕ) (m : ℕ → ℕ)
    → p ≤ size
    → size < 2 ^ 62
    → length x < 2 ^ 62
    → 2 * size < p + (length x + 8)
    → write_frame x p size m ≡ undefined
unfolding write_frame
write_frame-overruns x p size m at small long over =
    let sum : add64 (add64 p 8) (length x) ≡ p + 8 + length x = omega arith in
    let gap : sub64 size p ≡ size - p = omega arith in
    let test : leb (p + 8 + length x) size ≡ false = ground arith in
    elim (lt_cases (size - p) 8) [
      | inl short ↦
          let cut : ltb (size - p) 8 ≡ true = ground arith in
          let area : leb (8 - (size - p) + length x) size ≡ false = ground arith in
          rw (sum, gap, test, cut, area)
      | inr far ↦
          let cut : ltb (size - p) 8 ≡ false = ground arith in
          let area : leb (length x - (size - p - 8)) size ≡ false = ground arith in
          rw (sum, gap, test, cut, area)
    ]

-- An empty queue writes a string that is too long for it behind the end of the area.
pub push_back-overruns :
    (x : Bytes) (q : Queue)
    → Represents [] q
    → length x < 2 ^ 62
    → 2 * queue_size q < q.bot + (length x + 8)
    → push_back x q ≡ undefined
unfolding push_back push_settled
push_back-overruns x q r long over =
    let same = top-bottom q r in
    let out =
      write_frame-overruns x (q.top) (queue_size q) (q.memory) (top_le [] q r) (r.small) long
        (omega arith) in
    rw (do_update_settled q r.settled, is_full-nil q (length x) r, out)
