-- ===== src/MemQueue/Fifo.antt =====
-- The queue in memory against the list of its strings: what its tests say, and its commits.
use ab_dyeing.Base.{
  ℕ, ◌+◌, ◌-◌, ◌%◌, ◌^◌, ◌≤◌, ◌<◌, ◌≡◌, inl, inr, sym, subst, ◌∙◌, true, false, some, List, [],
  Bytes, length, ltb, leb, ◌==◌, if◌then◌else◌, arith,
}
use ab_dyeing.Outcome.{done, ◌>>=◌}
use ab_dyeing.MemQueue.{
  Queue, add64, queue_size, write_entries, do_update, commit, update, is_full, is_empty_queue,
  log_push, pushed_back, log_pop, popped_front,
}
use ab_dyeing.MemQueue.Ring.{lt_cases, advance}
use ab_dyeing.MemQueue.Laid.{total, IsLaid}

-- The queue holds the strings, the oldest first, and nothing waits in its journal.
pub record Represents (xs : List Bytes) (q : Queue) : Type 0 where
  pub settled : q.status ≡ 0
  pub no_entries : q.entries ≡ []
  pub small : queue_size q < 2 ^ 62
  pub bottom : q.bot ≤ queue_size q
  pub room : total xs < queue_size q
  pub top : q.top ≡ advance (q.bot) (queue_size q) (total xs)
  pub laid : IsLaid (q.bot) (queue_size q) 0 xs (q.memory)
  pub count : q.pushed ≡ (q.popped + length xs) % 2 ^ 64
  pub popped : q.popped < 2 ^ 64

-- Where the top stands behind `t` bytes from the bottom, and what the tests then say.
advance-top :
    (p size t n top : ℕ)
    → p ≤ size
    → t < size
    → n + 8 < size
    → size < 2 ^ 62
    → top ≡ advance p size t
    → (if ltb top p
        then leb p (add64 (add64 top 8) n)
        else if ltb p top
        then leb (add64 p size) (add64 (add64 top 8) n)
        else false)
      ≡ leb size (t + (n + 8))
unfolding advance
advance-top p size t n top at room fits small e = elim (lt_cases size (p + t)) [
  | inl b ↦
      let w : top ≡ p + t - size = e ∙ ground arith in
      let below : ltb top p ≡ true = ground arith in
      let sum : add64 (add64 top 8) n ≡ top + 8 + n = omega arith in rw (below, sum) (ground arith)
  | inr b ↦
      let w : top ≡ p + t = e ∙ ground arith in
      let below : ltb top p ≡ false = ground arith in
      let sum : add64 (add64 top 8) n ≡ top + 8 + n = omega arith in
      let end : add64 p size ≡ p + size = omega arith in rw (below, sum, end) (ground arith)
]

pub is_full-room :
    (xs : List Bytes) (q : Queue) (n : ℕ)
    → Represents xs q
    → n + 8 < queue_size q
    → is_full n q ≡ leb (queue_size q) (total xs + (n + 8))
unfolding is_full
is_full-room xs q n r h =
    advance-top (q.bot) (queue_size q) (total xs) n (q.top) (r.bottom) (r.room) h (r.small) (r.top)

pub is_empty-total :
    (xs : List Bytes) (q : Queue) → Represents xs q → is_empty_queue q ≡ (total xs == 0)
unfolding advance
is_empty-total xs q r = elim (lt_cases (queue_size q) (q.bot + total xs)) [
  | inl b ↦ let w : q.top ≡ q.bot + total xs - queue_size q = r.top ∙ ground arith in ground arith
  | inr b ↦ let w : q.top ≡ q.bot + total xs = r.top ∙ ground arith in ground arith
]

pub do_update_settled : (q : Queue) → q.status ≡ 0 → do_update q ≡ q
unfolding do_update
do_update_settled q h = rw h

-- The commit of the two entries of `push_back`, and of `pop_front`.
pub log_push-commit :
    (q : Queue) (m : ℕ → ℕ) (t : ℕ)
    → q.entries ≡ []
    → (log_push q (m, t) >>= pushed_back)
      ≡ done (
        true,
        record q { memory = m; top = t; pushed = add64 q.pushed 1; status = 0; entries = [] },
      )
unfolding log_push update commit do_update write_entries
log_push-commit q m t h = rw h

pub log_pop-commit :
    (q : Queue) (x : Bytes) (t : ℕ)
    → q.entries ≡ []
    → (log_pop q (x, t) >>= popped_front)
      ≡ done (some x, record q { bot = t; popped = add64 q.popped 1; status = 0; entries = [] })
unfolding log_pop update commit do_update write_entries
log_pop-commit q x t h = rw h

pub advance-advance :
    (p size u v : ℕ)
    → p ≤ size
    → u + v ≤ size
    → advance (advance p size u) size v ≡ advance p size (u + v)
unfolding advance
advance-advance p size u v at h = elim (lt_cases size (p + u)) [
  | inl b ↦ ground arith
  | inr b ↦ ground arith
]

pub advance-≤ : (p size u : ℕ) → p ≤ size → u ≤ size → advance p size u ≤ size
unfolding advance
advance-≤ p size u at h = ground arith

pub top_le : (xs : List Bytes) (q : Queue) → Represents xs q → q.top ≤ queue_size q
top_le xs q r =
    subst (λ t. t ≤ queue_size q) (sym r.top)
      (advance-≤ (q.bot) (queue_size q) (total xs) (r.bottom) (omega arith))
