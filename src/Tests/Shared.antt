-- ===== src/Tests/Shared.antt =====
-- A queue of 66 bytes in a piece of memory of 200.
use ab_dyeing.Base.{ℕ, ◌≡◌, refl, true, List, [], ◌∷◌, Bytes, All, codes, arith}
use ab_dyeing.Outcome.{done}
use ab_dyeing.MemQueue.{Queue, create, queue_size, do_update, write_frame, push_back, get_free_size}
use ab_dyeing.MemQueue.Ring.{advance}
use ab_dyeing.MemQueue.Fifo.{Represents}
use ab_dyeing.MemQueue.Refine.{
  Call, push, pop, taken, calls, fifo_answers, fifo_left, IsShort, pops, all_given, calls-fifo,
  create-Represents, push_back-arrives,
}
use ab_dyeing.MemQueue.Counts.{get_free_size_lem}
use ab_dyeing.MemQueue.Crash.{IsBetween, logging, committing, last_of, push_back-atomic}

abbrev zeros : ℕ → ℕ
zeros a = 0

abbrev area : Queue
area = create 200 zeros

area-Represents : Represents [] area
area-Represents = create-Represents 200 zeros (omega arith) (omega arith)

-- The third string does not fit, the fourth is cut at the end of the area.
abbrev some_calls : List Call
some_calls =
    push (codes "abc")
    ∷ push (codes "0123456789012345678901")
    ∷ push (codes "0123456789012345678")
    ∷ pop
    ∷ push (codes "0123456789012345678")
    ∷ pop
    ∷ pop
    ∷ pop
    ∷ []

some_calls-IsShort : All (IsShort (queue_size area)) some_calls
unfolding queue_size
some_calls-IsShort =
    (omega arith, (omega arith, (omega arith, (tt, (omega arith, (tt, (tt, (tt, tt))))))))

calls-fifo_example :
    (q : Queue) × (calls some_calls area ≡ done (fifo_answers (queue_size area) some_calls [], q))
    × Represents (fifo_left (queue_size area) some_calls []) q
calls-fifo_example = calls-fifo some_calls [] area area-Represents some_calls-IsShort

push_back-arrives_example :
    (q : Queue) × (calls (push (codes "abc") ∷ pops 1) area
      ≡ done (taken true ∷ all_given (codes "abc" ∷ []), q))
unfolding queue_size
push_back-arrives_example = push_back-arrives [] (codes "abc") area area-Represents (omega arith)

push_back-atomic_example :
    (m : ℕ → ℕ) × (t : ℕ) × (write_frame (codes "abc") (area.top) (queue_size area) (area.memory)
      ≡ done (m, t))
    × ((n : ℕ → ℕ)
        → IsBetween (area.memory) m n
        → Represents [] (do_update (record area { memory = n })))
    × All (λ s. Represents [] (do_update s)) (logging area m t)
    × All (λ s. Represents (codes "abc" ∷ []) (do_update s)) (committing area m t)
    × (push_back (codes "abc") area ≡ done (true, last_of area (committing area m t)))
unfolding queue_size
push_back-atomic_example = push_back-atomic [] (codes "abc") area area-Represents (omega arith)

-- The queue has been used and is empty, and its bottom is not at the start of the area.
abbrev used : Queue
used = record {
  size = 200;
  top = 5;
  bot = 5;
  pushed = 7;
  popped = 7;
  status = 0;
  entries = [];
  memory = zeros;
}

used-Represents : Represents [] used
unfolding queue_size advance
used-Represents = record {
  settled = refl;
  no_entries = refl;
  small = omega arith;
  bottom = omega arith;
  room = omega arith;
  top = refl;
  laid = tt;
  count = refl;
  popped = omega arith;
}

get_free_size_lem_example : get_free_size used ≡ 66
unfolding queue_size
get_free_size_lem_example = get_free_size_lem [] used used-Represents

abbrev filling : Bytes
filling = codes "0123456789012345678901234567890123456789012345678901234567"
