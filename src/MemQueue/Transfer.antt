-- ===== src/MemQueue/Transfer.antt =====
-- One push and one pop, against the list of the strings.
use ab_dyeing.Base.{
  ℕ, ◌+◌, ◌≤◌, ◌<◌, ◌≡◌, refl, sym, subst, ap, ◌∙◌, true, false, none, some, List, [], ◌∷◌, ◌++◌,
  Bytes, length, length-append, leb, arith,
}
use ab_dyeing.Outcome.{done}
use ab_dyeing.MemQueue.{
  Queue, add64, queue_size, is_empty_queue, write_frame, push_settled, push_back, pop_settled,
  pop_front,
}
use ab_dyeing.MemQueue.Ring.{advance, IsFramed, write_frame-IsFramed}
use ab_dyeing.MemQueue.Read.{read_frame_lem}
use ab_dyeing.MemQueue.Laid.{
  total, total-append, IsLaid, IsAt-IsHere, IsLaid-advance, IsLaid-framed,
}
use ab_dyeing.MemQueue.Fifo.{
  Represents, is_full-room, is_empty-total, do_update_settled, log_push-commit, log_pop-commit,
  advance-advance, advance-≤, top_le,
}

-- What the queue is after a string was written.
abbrev pub written_back : Queue → (ℕ → ℕ) → ℕ → Queue
written_back q m t = record q {
  memory = m;
  top = t;
  pushed = add64 q.pushed 1;
  status = 0;
  entries = [];
}

pub push_back_written :
    (xs : List Bytes) (x : Bytes) (q : Queue) (m : ℕ → ℕ) (t : ℕ)
    → Represents xs q
    → total xs + (length x + 8) < queue_size q
    → write_frame x q.top (queue_size q) q.memory ≡ done (m, t)
    → push_back x q ≡ done (true, written_back q m t)
unfolding push_back push_settled
push_back_written xs x q m t r h w =
    let open_ : leb (queue_size q) (total xs + (length x + 8)) ≡ false = ground arith in
    rw (do_update_settled q r.settled, is_full-room xs q (length x) r (omega arith), open_, w)
      (log_push-commit q m t (r.no_entries))

pub written_back-Represents :
    (xs : List Bytes) (x : Bytes) (q : Queue) (m : ℕ → ℕ)
    → Represents xs q
    → total xs + (length x + 8) < queue_size q
    → IsFramed (q.top) (queue_size q) x (q.memory) m
    → Represents (xs ++ x ∷ []) (written_back q m (advance q.top (queue_size q) (length x + 8)))
unfolding queue_size
written_back-Represents xs x q m r h f =
    let sum : total (xs ++ x ∷ []) ≡ total xs + (length x + 8) =
      omega (arith, total-append xs (x ∷ [])) in
    record {
      settled = refl;
      no_entries = refl;
      small = r.small;
      bottom = r.bottom;
      room = omega (arith, sum, h);
      top =
          ap (λ t. advance t (queue_size q) (length x + 8)) (r.top)
          ∙ advance-advance (q.bot) (queue_size q) (total xs) (length x + 8) (r.bottom)
              (omega (arith, h))
          ∙ ap (advance (q.bot) (queue_size q)) (sym sum);
      laid =
          IsLaid-framed (q.bot) (queue_size q) xs x (q.memory) m (r.bottom) h (r.laid)
            (subst (λ t. IsFramed t (queue_size q) x (q.memory) m) (r.top) f);
      count = let more = length-append xs (x ∷ []) in let c = r.count in omega (arith, more, c);
      popped = r.popped;
    }

-- A string for which there is room is taken and stands behind the others.
pub push_back-fits :
    (xs : List Bytes) (x : Bytes) (q : Queue)
    → Represents xs q
    → total xs + (length x + 8) < queue_size q
    → (q' : Queue) × (push_back x q ≡ done (true, q'))
      × Represents (xs ++ x ∷ []) q'
      × (queue_size q' ≡ queue_size q)
unfolding push_back queue_size
push_back-fits xs x q r h =
    let (m, w, f) =
      write_frame-IsFramed x (q.top) (queue_size q) (q.memory) (top_le xs q r) (omega arith)
        (r.small) in
    (
      written_back q m (advance (q.top) (queue_size q) (length x + 8)),
      push_back_written xs x q m _ r h w,
      written_back-Represents xs x q m r h f,
      refl,
    )

-- A string that is shorter than the area and for which there is no room is refused.
pub push_back-refused :
    (xs : List Bytes) (x : Bytes) (q : Queue)
    → Represents xs q
    → length x + 8 < queue_size q
    → queue_size q ≤ total xs + (length x + 8)
    → push_back x q ≡ done (false, q)
unfolding push_back push_settled
push_back-refused xs x q r fits h =
    let full : leb (queue_size q) (total xs + (length x + 8)) ≡ true = ground arith in
    rw (do_update_settled q r.settled, is_full-room xs q (length x) r fits, full)

pub pop_front-nil : (q : Queue) → Represents [] q → pop_front q ≡ done (none, q)
unfolding pop_front pop_settled
pop_front-nil q r = rw (do_update_settled q r.settled, is_empty-total [] q r)

-- What the queue is after a string was read.
abbrev read_front : Queue → ℕ → Queue
read_front q t = record q { bot = t; popped = add64 q.popped 1; status = 0; entries = [] }

read_front-Represents :
    (x : Bytes) (xs : List Bytes) (q : Queue)
    → Represents (x ∷ xs) q
    → Represents xs (read_front q (advance q.bot (queue_size q) (length x + 8)))
unfolding queue_size
read_front-Represents x xs q r =
    let turned : 0 + (length x + 8) ≡ length x + 8 + 0 = omega arith in
    record {
      settled = refl;
      no_entries = refl;
      small = r.small;
      bottom = advance-≤ (q.bot) (queue_size q) (length x + 8) (r.bottom) (omega arith);
      room = omega arith;
      top =
          r.top
          ∙ sym (
              advance-advance (q.bot) (queue_size q) (length x + 8) (total xs) (r.bottom)
                (omega arith));
      laid =
          IsLaid-advance (q.bot) (queue_size q) (length x + 8) 0 xs (q.memory) (r.bottom)
            (omega arith)
            (subst (λ u. IsLaid (q.bot) (queue_size q) u xs (q.memory)) turned (r.laid.1));
      count = let c = r.count in omega (arith, c);
      popped = omega arith;
    }

-- The oldest string is given and taken off.
pub pop_front-cons :
    (x : Bytes) (xs : List Bytes) (q : Queue)
    → Represents (x ∷ xs) q
    → (q' : Queue) × (pop_front q ≡ done (some x, q'))
      × Represents xs q'
      × (queue_size q' ≡ queue_size q)
unfolding pop_front pop_settled queue_size
pop_front-cons x xs q r =
    let filled : is_empty_queue q ≡ false = is_empty-total (x ∷ xs) q r ∙ ground arith in
    let read =
      read_frame_lem x (q.bot) (queue_size q) (q.memory) (r.bottom) (omega arith) (r.small)
        (IsAt-IsHere (q.bot) (queue_size q) x (q.memory) (r.laid.0)) in
    (
      read_front q (advance q.bot (queue_size q) (length x + 8)),
      rw (do_update_settled q r.settled, filled, read) (log_pop-commit q x _ (r.no_entries)),
      read_front-Represents x xs q r,
      refl,
    )
