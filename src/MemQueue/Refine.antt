-- ===== src/MemQueue/Refine.antt =====
-- The queue as a first-in first-out queue with a bounded number of bytes.
use ab_dyeing.Base.{
  ℕ, zero, suc, ◌+◌, ◌^◌, ◌<◌, ◌≡◌, inl, inr, refl, sym, subst, ap, ◌∙◌, Bool, true, false, Option,
  none, some, List, [], ◌∷◌, ◌++◌, Bytes, All, length, ltb, if◌then◌else◌, arith,
}
use ab_dyeing.Outcome.{Outcome, done, ◌>>=◌}
use ab_dyeing.MemQueue.{Queue, create, queue_size, push_back, pop_front}
use ab_dyeing.MemQueue.Ring.{lt_cases, advance}
use ab_dyeing.MemQueue.Laid.{total}
use ab_dyeing.MemQueue.Fifo.{Represents}
use ab_dyeing.MemQueue.Transfer.{push_back-fits, push_back-refused, pop_front-nil, pop_front-cons}

pub data Call : Type 0 where
  push : Bytes → Call
  pop : Call

pub data Answer : Type 0 where
  taken : Bool → Answer
  given : Option Bytes → Answer

abbrev answer_push : Bool × Queue → Answer × Queue
answer_push (b, q) = (taken b, q)

abbrev answer_pop : Option Bytes × Queue → Answer × Queue
answer_pop (o, q) = (given o, q)

abbrev pub call : Call → Queue → Outcome (Answer × Queue)
call (push x) q = push_back x q >>= λ r. done (answer_push r)
call pop q = pop_front q >>= λ r. done (answer_pop r)

abbrev pub cons_answer : Answer → List Answer × Queue → List Answer × Queue
cons_answer a (answers, q) = (a ∷ answers, q)

unfoldable pub calls : List Call → Queue → Outcome (List Answer × Queue)
calls [] q = done ([], q)
calls (c ∷ cs) q = call c q >>= λ r. (calls cs (r.1) >>= λ rs. done (cons_answer (r.0) rs))

-- A list of strings that takes a string at its end while all their frames stay below `size` bytes,
-- and gives the first.
abbrev pub fifo_call : ℕ → Call → List Bytes → Answer × List Bytes
fifo_call size (push x) xs =
    if ltb (total xs + (length x + 8)) size then (taken true, xs ++ x ∷ []) else (taken false, xs)
fifo_call size pop [] = (given none, [])
fifo_call size pop (x ∷ xs) = (given (some x), xs)

unfoldable pub fifo_answers : ℕ → List Call → List Bytes → List Answer
fifo_answers size [] xs = []
fifo_answers size (c ∷ cs) xs =
    (fifo_call size c xs).0 ∷ fifo_answers size cs ((fifo_call size c xs).1)

-- The string and the eight bytes before it are shorter, together, than the area.
abbrev pub IsShort : ℕ → Call → Type 0
IsShort size (push x) = length x + 8 < size
IsShort size pop = Unit

call-fifo :
    (c : Call) (xs : List Bytes) (q : Queue)
    → Represents xs q
    → IsShort (queue_size q) c
    → (q' : Queue) × (call c q ≡ done ((fifo_call (queue_size q) c xs).0, q'))
      × Represents ((fifo_call (queue_size q) c xs).1) q'
      × (queue_size q' ≡ queue_size q)
call-fifo (push x) xs q r s = elim (lt_cases (total xs + (length x + 8)) (queue_size q)) [
  | inl fits ↦
      let (q', e, r', same) = push_back-fits xs x q r fits in
      let test : ltb (total xs + (length x + 8)) (queue_size q) ≡ true = ground arith in
      rw test (q', rw e refl, r', same)
  | inr over ↦
      let e = push_back-refused xs x q r s over in
      let test : ltb (total xs + (length x + 8)) (queue_size q) ≡ false = ground arith in
      rw test (q, rw e refl, r, refl)
]
call-fifo pop [] q r s = (q, rw (pop_front-nil q r) refl, r, refl)
call-fifo pop (x ∷ xs) q r s =
    let (q', e, r', same) = pop_front-cons x xs q r in (q', rw e refl, r', same)

unfoldable pub fifo_left : ℕ → List Call → List Bytes → List Bytes
fifo_left size [] xs = xs
fifo_left size (c ∷ cs) xs = fifo_left size cs ((fifo_call size c xs).1)

calls-cons :
    (c : Call) (cs : List Call) (q q₁ q₂ : Queue) (a : Answer) (answers : List Answer)
    → call c q ≡ done (a, q₁)
    → calls cs q₁ ≡ done (answers, q₂)
    → calls (c ∷ cs) q ≡ done (a ∷ answers, q₂)
unfolding calls
calls-cons c cs q q₁ q₂ a answers e f = rw (e, f)

-- Any calls on a queue, with strings that are shorter than its area by more than eight bytes, return
-- and answer what the list answers, and leave the strings that the list is left with.
pub calls-fifo :
    (cs : List Call) (xs : List Bytes) (q : Queue)
    → Represents xs q
    → All (IsShort (queue_size q)) cs
    → (q' : Queue) × (calls cs q ≡ done (fifo_answers (queue_size q) cs xs, q'))
      × Represents (fifo_left (queue_size q) cs xs) q'
unfolding fifo_answers fifo_left
calls-fifo [] xs q r h = (q, (unfold calls in refl), r)
calls-fifo (c ∷ cs) xs q r h =
    let (q₁, e, r₁, same) = call-fifo c xs q r h.0 in
    let ys = (fifo_call (queue_size q) c xs).1 in
    let (q₂, f, r₂) = calls-fifo cs ys q₁ r₁ (subst (λ n. All (IsShort n) cs) (sym same) h.1) in
    (
      q₂,
      calls-cons c cs q q₁ q₂ ((fifo_call (queue_size q) c xs).0) _ e
          (subst (λ n. calls cs q₁ ≡ done (fifo_answers n cs ys, q₂)) same f),
      subst (λ n. Represents (fifo_left n cs ys) q₂) same r₂,
    )

-- A queue in fresh memory holds nothing.
pub create-Represents :
    (size : ℕ) (memory : ℕ → ℕ) → 134 < size → size < 2 ^ 62 → Represents [] (create size memory)
unfolding queue_size advance
create-Represents size memory h l = record {
  settled = refl;
  no_entries = refl;
  small = omega arith;
  bottom = omega arith;
  room = omega arith;
  top = ground arith;
  laid = tt;
  count = refl;
  popped = omega arith;
}

abbrev pub pops : ℕ → List Call
pops zero = []
pops (suc n) = pop ∷ pops n

abbrev pub all_given : List Bytes → List Answer
all_given [] = []
all_given (x ∷ xs) = given (some x) ∷ all_given xs

fifo_answers-pops :
    (size : ℕ) (xs : List Bytes) → fifo_answers size (pops (length xs)) xs ≡ all_given xs
unfolding fifo_answers
fifo_answers-pops size [] = refl
fifo_answers-pops size (x ∷ xs) =
    ap (λ answers. given (some x) ∷ answers) (fifo_answers-pops size xs)

pops-IsShort : (size n : ℕ) → All (IsShort size) (pops n)
pops-IsShort size zero = tt
pops-IsShort size (suc n) = (tt, pops-IsShort size n)

-- A string for which there is room comes out behind those that were there, after as many calls.
pub push_back-arrives :
    (xs : List Bytes) (x : Bytes) (q : Queue)
    → Represents xs q
    → total xs + (length x + 8) < queue_size q
    → (q' : Queue) × (calls (push x ∷ pops (length (xs ++ x ∷ []))) q
        ≡ done (taken true ∷ all_given (xs ++ x ∷ []), q'))
push_back-arrives xs x q r h =
    let (q₁, e, r₁, same) = push_back-fits xs x q r h in
    let n = length (xs ++ x ∷ []) in
    let (q₂, f, r₂) = calls-fifo (pops n) (xs ++ x ∷ []) q₁ r₁ (pops-IsShort (queue_size q₁) n) in
    (
      q₂,
      calls-cons (push x) (pops n) q q₁ q₂ (taken true) _ (rw e refl) (
          f
          ∙ ap (λ answers. done (answers, q₂)) (fifo_answers-pops (queue_size q₁) (xs ++ x ∷ []))),
    )
