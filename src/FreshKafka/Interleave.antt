-- ===== src/FreshKafka/Interleave.antt =====
-- `set` and `clear` of src/fresh_kafka.cc as the two threads run them: each takes the lock of the
-- records first and the lock of the queue afterwards, `clear` once for each user, so the other
-- thread runs in between.
use ab_dyeing.Base.{
  ℕ, ◌≤◌, ◌≡◌, subst, Bool, true, false, ◌&&◌, ◌||◌, Option, none, some, List, [], ◌∷◌, Bytes, put,
  remove, has, find-put, find-remove, eqb, eqb_iff, eqb_refl, ◌==◌, keep, arith,
}
use ab_dyeing.FreshKafka.{
  CurrentFresh, put_time, rubsh, erase_times, cut_time, set, clear, remove_uids,
}
use ab_dyeing.FreshKafka.Expiry.{
  Rises, IsTracked, named, taken, from, put_time-Rises, named-put_time, erase_times-rubsh,
  scan-keep, keep-Rises, named-keep,
}

-- The queue, the call of `set` that has released the first lock, and the users that a call of
-- `clear` still has to take off the queue.
pub record Busy : Type 0 where
  pub current : CurrentFresh
  pub setting : Option (ℕ × Bytes)
  pub rubbish : List (ℕ × Bytes)

abbrev pub busy : CurrentFresh → Option (ℕ × Bytes) → List (ℕ × Bytes) → Busy
busy c p g = record { current = c; setting = p; rubbish = g }

-- The first half of `set`.
unfoldable pub set_time : ℕ → Bytes → CurrentFresh → CurrentFresh
unfolding put_time
set_time now uid c = record c { time_kmsg = put_time now uid c.time_kmsg }

-- The second half of `set`.
unfoldable pub set_queue : Bytes → ℕ → CurrentFresh → CurrentFresh
unfolding put
set_queue uid later c = record c { kq = put uid later c.kq }

-- The first half of `clear`, which leaves `rubsh` for the second.
unfoldable pub clear_records : ℕ → ℕ → CurrentFresh → CurrentFresh
clear_records window now c = record c {
  time_kmsg = erase_times (rubsh (cut_time window now) c.time_kmsg) c.time_kmsg;
}

-- One round of the second half of `clear`.
unfoldable pub clear_user : Bytes → CurrentFresh → CurrentFresh
unfolding remove
clear_user uid c = record c { kq = remove uid c.kq }

-- The call of `set` in progress, if any, is younger than the cut.
abbrev pub IsYoung : ℕ → Option (ℕ × Bytes) → Type 0
IsYoung cut none = Unit
IsYoung cut (some (t, uid)) = cut ≤ t

pub data Move : Busy → Busy → Type 0 where
  set_first :
      (now : ℕ) (uid : Bytes) (c : CurrentFresh) (g : List (ℕ × Bytes))
      → taken now c.time_kmsg ≡ false
      → Move (busy c none g) (busy (set_time now uid c) (some (now, uid)) g)
  set_second :
      (now later : ℕ) (uid : Bytes) (c : CurrentFresh) (g : List (ℕ × Bytes))
      → Move (busy c (some (now, uid)) g) (busy (set_queue uid later c) none g)
  clear_first :
      (window now : ℕ) (c : CurrentFresh) (p : Option (ℕ × Bytes))
      → IsYoung (cut_time window now) p
      → Move
          (busy c p [])
          (busy (clear_records window now c) p (rubsh (cut_time window now) c.time_kmsg))
  clear_second :
      (t : ℕ) (uid : Bytes) (c : CurrentFresh) (p : Option (ℕ × Bytes)) (g : List (ℕ × Bytes))
      → Move (busy c p ((t, uid) ∷ g)) (busy (clear_user uid c) p g)

pub data Moves (s : Busy) : Busy → Type 0 where
  at_rest : Moves s s
  then_move : {t u : Busy} → Moves s t → Move t u → Moves s u

-- The map has the record.
abbrev pub records : ℕ → Bytes → List (ℕ × Bytes) → Bool
records t uid [] = false
records t uid ((s, v) ∷ m) = (s == t && eqb v uid) || records t uid m

abbrev IsRecorded : Option (ℕ × Bytes) → List (ℕ × Bytes) → Type 0
IsRecorded none m = Unit
IsRecorded (some (t, uid)) m = records t uid m ≡ true

-- Each queued user has a record, or is about to be taken off the queue.
record IsAccounted (s : Busy) : Type 0 where
  rises : Rises 0 s.current.time_kmsg
  recorded :
      (uid : Bytes)
      → has uid s.current.kq ≡ true
      → (named uid s.current.time_kmsg || named uid s.rubbish) ≡ true
  pending : IsRecorded s.setting s.current.time_kmsg

records-put_time :
    (t : ℕ) (uid : Bytes) (m : List (ℕ × Bytes)) → records t uid (put_time t uid m) ≡ true
unfolding put_time
records-put_time t uid [] = ground (arith, eqb_refl uid)
records-put_time t uid ((s, v) ∷ m) = ground (arith, eqb_refl uid, records-put_time t uid m)

records-named :
    (t : ℕ) (uid : Bytes) (m : List (ℕ × Bytes)) → records t uid m ≡ true → named uid m ≡ true
records-named t uid [] h = cc
records-named t uid ((s, v) ∷ m) h = ground (arith, records-named t uid m)

records-keep :
    (cut t : ℕ) (uid : Bytes) (m : List (ℕ × Bytes))
    → cut ≤ t
    → records t uid m ≡ true
    → records t uid (keep (from cut) m) ≡ true
records-keep cut t uid [] h r = r
records-keep cut t uid ((s, v) ∷ m) h r = ground (arith, records-keep cut t uid m h)

keep-IsRecorded :
    (cut : ℕ) (p : Option (ℕ × Bytes)) (m : List (ℕ × Bytes))
    → IsYoung cut p
    → IsRecorded p m
    → IsRecorded p (keep (from cut) m)
keep-IsRecorded cut none m h r = tt
keep-IsRecorded cut (some (t, uid)) m h r = records-keep cut t uid m h r

Move-IsAccounted : {s s' : Busy} → Move s s' → IsAccounted s → IsAccounted s'
Move-IsAccounted (set_first now uid c g new) i =
    unfold set_time in
    record {
      rises = put_time-Rises 0 now uid c.time_kmsg (omega arith) i.rises;
      recorded = λ j h. ground (arith, named-put_time now uid j c.time_kmsg new, i.recorded j h);
      pending = records-put_time now uid c.time_kmsg;
    }
Move-IsAccounted (set_second now later uid c g) i =
    unfold set_queue in
    record {
      rises = i.rises;
      recorded = λ j h. ground (
        arith,
        find-put uid j later c.kq,
        eqb_iff uid j,
        records-named now uid c.time_kmsg i.pending,
        i.recorded j,
      );
      pending = tt;
    }
Move-IsAccounted (clear_first window now c p young) i =
    let stay = erase_times-rubsh (cut_time window now) c.time_kmsg in
    let (same, gone) = scan-keep (cut_time window now) 0 c.time_kmsg i.rises in
    unfold clear_records in
    record {
      rises =
          rw (stay, same) (keep-Rises (cut_time window now) 0 0 c.time_kmsg (omega arith) i.rises);
      recorded = λ j h.
          rw (stay, same, gone)
            (ground (arith, named-keep (cut_time window now) j c.time_kmsg, i.recorded j h));
      pending =
          rw (stay, same) (keep-IsRecorded (cut_time window now) p c.time_kmsg young i.pending);
    }
Move-IsAccounted (clear_second t uid c p g) i =
    unfold clear_user in
    record {
      rises = i.rises;
      recorded = λ j h. ground (arith, find-remove uid j c.kq, i.recorded j);
      pending = i.pending;
    }

Moves-IsAccounted : {s s' : Busy} → Moves s s' → IsAccounted s → IsAccounted s'
Moves-IsAccounted at_rest i = i
Moves-IsAccounted (then_move ms m) i = Move-IsAccounted m (Moves-IsAccounted ms i)

-- However the halves of the calls of `set` and `clear` are interleaved, when no call is in progress
-- the records are in order of time and each queued user has a record; provided that no two messages
-- come in at the same microsecond, and that no `set` is held up until `clear` cuts its own record.
pub Moves-IsTracked :
    (c c' : CurrentFresh) → Moves (busy c none []) (busy c' none []) → IsTracked c → IsTracked c'
Moves-IsTracked c c' ms i =
    let k = Moves-IsAccounted ms (record {
      rises = i.rises;
      recorded = λ j h. ground (arith, i.recorded j h);
      pending = tt;
    }) in
    record { rises = k.rises; recorded = λ j h. ground (arith, k.recorded j h) }

Moves-clear_second :
    (s : Busy) (g : List (ℕ × Bytes)) (c : CurrentFresh)
    → Moves s (busy c none g)
    → Moves s (busy (record c { kq = remove_uids g c.kq }) none [])
unfolding remove_uids clear_user
Moves-clear_second s [] c ms = ms
Moves-clear_second s ((t, uid) ∷ g) c ms =
    Moves-clear_second s g (clear_user uid c) (then_move ms (clear_second t uid c none g))

-- A call of `set` at a time that no record has, and a call of `clear`, that are not interrupted are
-- sequences of their halves.
pub Moves-calls :
    (window now later : ℕ) (uid : Bytes) (c : CurrentFresh)
    → taken now c.time_kmsg ≡ false
    → Moves (busy c none []) (busy (set now later uid c) none [])
      × Moves (busy c none []) (busy (clear window now c) none [])
unfolding set clear set_time set_queue clear_records
Moves-calls window now later uid c new = (
  then_move (then_move at_rest (set_first now uid c [] new))
      (set_second now later uid (set_time now uid c) []),
  Moves-clear_second (busy c none []) (rubsh (cut_time window now) c.time_kmsg)
      (clear_records window now c) (then_move at_rest (clear_first window now c none tt)),
)

-- A message for a user whose old record `clear` is removing, between the two locks of `clear`, is
-- lost: both calls end, the user has a record of the message, and is not on the queue.
pub set_during_clear :
    (window now t old later : ℕ) (uid : Bytes) (c : CurrentFresh)
    → rubsh (cut_time window now) c.time_kmsg ≡ (old, uid) ∷ []
    → taken t (clear_records window now c).time_kmsg ≡ false
    → (c' : CurrentFresh) × Moves (busy c none []) (busy c' none [])
      × (records t uid c'.time_kmsg ≡ true)
      × (has uid c'.kq ≡ false)
set_during_clear window now t old later uid c found new =
    let c₁ = clear_records window now c in
    let c₂ = set_time t uid c₁ in
    let c₃ = set_queue uid later c₂ in
    let first =
      subst (λ g. Moves (busy c none []) (busy c₁ none g)) found
        (then_move at_rest (clear_first window now c none tt)) in
    (
      clear_user uid c₃,
      then_move
          (then_move (then_move first (set_first t uid c₁ ((old, uid) ∷ []) new))
            (set_second t later uid c₂ ((old, uid) ∷ [])))
          (clear_second old uid c₃ none []),
      (unfold clear_user set_queue set_time in records-put_time t uid c₁.time_kmsg),
      (unfold clear_user in ground (arith, find-remove uid uid c₃.kq, eqb_refl uid)),
    )
