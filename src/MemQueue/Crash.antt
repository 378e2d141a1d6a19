-- ===== src/MemQueue/Crash.antt =====
-- A process that dies in `push_back` at any of its writes, which reach the memory in the order of
-- the code, and what the next call finds after its `doUpdate`.
use ab_dyeing.Base.{
  ℕ, ◌+◌, ◌<◌, ◌≡◌, ◌⊎◌, inl, inr, refl, sym, subst, ap, ◌∙◌, true, List, [], ◌∷◌, ◌++◌, Bytes, All,
  length, arith,
}
use ab_dyeing.Outcome.{done}
use ab_dyeing.MemQueue.{
  Queue, Field, top_index, push_count, add64, queue_size, write_field, write_entries, do_update,
  write_frame, push_back,
}
use ab_dyeing.MemQueue.Ring.{ring, advance, IsFramed, write_frame-IsFramed}
use ab_dyeing.MemQueue.Laid.{total, IsLaid-agree, frame-kept}
use ab_dyeing.MemQueue.Fifo.{Represents, top_le}
use ab_dyeing.MemQueue.Transfer.{written_back, written_back-Represents, push_back_written}

-- The single writes of `update` and of `doUpdate(true)`.
abbrev pub mark : ℕ → Queue → Queue
mark s q = record q { status = s }

abbrev pub append_entry : Field → ℕ → Queue → Queue
append_entry f v q = record q { entries = q.entries ++ (f, v) ∷ [] }

abbrev pub drop_entries : Queue → Queue
drop_entries q = record q { entries = [] }

-- The states after each write, when the frame is copied: to the end of the second `update`, and
-- from the start of `doUpdate(true)` to its end.
unfoldable pub logging : Queue → (ℕ → ℕ) → ℕ → List Queue
logging q m t =
    let a = record q { memory = m } in
    let b = mark 1 a in
    let c = append_entry top_index t b in
    let d = mark 1 c in
    let e = append_entry push_count (add64 q.pushed 1) d in a ∷ b ∷ c ∷ d ∷ e ∷ []

unfoldable pub committing : Queue → (ℕ → ℕ) → ℕ → List Queue
committing q m t =
    let v = add64 q.pushed 1 in
    let a =
      mark 2 (append_entry push_count v (append_entry top_index t (record q { memory = m }))) in
    let b = write_field top_index t a in
    let c = write_field push_count v b in let d = drop_entries c in a ∷ b ∷ c ∷ d ∷ mark 0 d ∷ []

-- The memory in the middle of the copies: each byte is the old or the new one.
pub IsBetween : (ℕ → ℕ) → (ℕ → ℕ) → (ℕ → ℕ) → Type 0
IsBetween m m' n = (a : ℕ) → (n a ≡ m a) ⊎ (n a ≡ m' a)

-- What is done to the bytes of no string leaves the strings.
kept-Represents :
    (xs : List Bytes) (q : Queue) (m : ℕ → ℕ)
    → Represents xs q
    → ((o : ℕ)
        → o < total xs
        → m (ring (q.bot) (queue_size q) o) ≡ q.memory (ring (q.bot) (queue_size q) o))
    → Represents xs (record q { memory = m; status = 0; entries = [] })
unfolding queue_size
kept-Represents xs q m r h = record {
  settled = refl;
  no_entries = refl;
  small = r.small;
  bottom = r.bottom;
  room = r.room;
  top = r.top;
  laid = IsLaid-agree (q.bot) (queue_size q) 0 (total xs) xs (q.memory) m (omega arith) h (r.laid);
  count = r.count;
  popped = r.popped;
}

-- The queue with an empty journal, and the states of a call on it after the next `doUpdate`.
cleared : Queue → Queue
cleared q = record q { status = 0; entries = [] }

copying_kept :
    (P : Queue → Type 0) (q : Queue) (n : ℕ → ℕ)
    → P (record q { memory = n; status = 0; entries = [] })
    → P (do_update (record (cleared q) { memory = n }))
unfolding do_update cleared
copying_kept P q n h = h

logging-kept :
    (P : Queue → Type 0) (q : Queue) (m : ℕ → ℕ) (t : ℕ)
    → P (record q { memory = m; status = 0; entries = [] })
    → All (λ s. P (do_update s)) (logging (cleared q) m t)
unfolding logging do_update cleared
logging-kept P q m t h = (h, (h, (h, (h, (h, tt)))))

committing-written :
    (P : Queue → Type 0) (q : Queue) (m : ℕ → ℕ) (t : ℕ)
    → P (written_back q m t)
    → All (λ s. P (do_update s)) (committing (cleared q) m t)
unfolding committing do_update write_entries cleared
committing-written P q m t h = (h, (h, (h, (h, (h, tt)))))

cleared-settled : (xs : List Bytes) (q : Queue) → Represents xs q → cleared q ≡ q
unfolding cleared
cleared-settled xs q r = sym (
    ap (λ s. record q { status = s }) (r.settled)
    ∙ ap (λ es. record q { status = 0; entries = es }) (r.no_entries))

abbrev pub last_of : Queue → List Queue → Queue
last_of q [] = q
last_of q (s ∷ ss) = last_of s ss

last_of-committing :
    (q : Queue) (m : ℕ → ℕ) (t : ℕ) → last_of q (committing (cleared q) m t) ≡ written_back q m t
unfolding committing cleared
last_of-committing q m t = refl

-- Where the process dies in `push_back` of a string that fits, in the copies or in the journal, the
-- next call finds the strings as before; in the commit it finds them with the new one behind. The
-- last of these states is the one that `push_back` leaves.
pub push_back-atomic :
    (xs : List Bytes) (x : Bytes) (q : Queue)
    → Represents xs q
    → total xs + (length x + 8) < queue_size q
    → (m : ℕ → ℕ) × (t : ℕ) × (write_frame x (q.top) (queue_size q) (q.memory) ≡ done (m, t))
      × ((n : ℕ → ℕ)
          → IsBetween (q.memory) m n
          → Represents xs (do_update (record q { memory = n })))
      × All (λ s. Represents xs (do_update s)) (logging q m t)
      × All (λ s. Represents (xs ++ x ∷ []) (do_update s)) (committing q m t)
      × (push_back x q ≡ done (true, last_of q (committing q m t)))
unfolding IsBetween
push_back-atomic xs x q r h =
    let (m, w, f) =
      write_frame-IsFramed x (q.top) (queue_size q) (q.memory) (top_le xs q r) (omega arith)
        (r.small) in
    let t = advance (q.top) (queue_size q) (length x + 8) in
    let same = cleared-settled xs q r in
    let kept : (o : ℕ)
        → o < total xs
        → m (ring (q.bot) (queue_size q) o) ≡ q.memory (ring (q.bot) (queue_size q) o) =
      λ o l.
        frame-kept (q.bot) (queue_size q) (total xs) o x (q.memory) m (r.bottom) (omega arith)
          (subst (λ p. IsFramed p (queue_size q) x (q.memory) m) (r.top) f) l in
    (
      m,
      t,
      w,
      λ n b.
          subst (λ s. Represents xs (do_update (record s { memory = n }))) same
            (copying_kept (Represents xs) q n (
              kept-Represents xs q n r (λ o l. elim (b (ring (q.bot) (queue_size q) o)) [
                | inl e ↦ e
                | inr e ↦ e ∙ kept o l
              ]))),
      subst (λ s. All (λ s. Represents xs (do_update s)) (logging s m t)) same
          (logging-kept (Represents xs) q m t (kept-Represents xs q m r kept)),
      subst (λ s. All (λ s. Represents (xs ++ x ∷ []) (do_update s)) (committing s m t)) same
          (committing-written (Represents (xs ++ x ∷ [])) q m t
            (written_back-Represents xs x q m r h f)),
      push_back_written xs x q m t r h w
          ∙ ap (λ s. done (true, s))
              (sym (last_of-committing q m t) ∙ ap (λ s. last_of q (committing s m t)) same),
    )
