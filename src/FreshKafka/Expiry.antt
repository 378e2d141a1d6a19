-- ===== src/FreshKafka/Expiry.antt =====
-- Which users `clear` removes, and that the two maps of the queue agree.
use ab_dyeing.Base.{
  ℕ, suc, ◌+◌, ◌^◌, ◌≤◌, ◌<◌, ◌≡◌, refl, ap, ◌∙◌, Bool, true, false, not, ◌&&◌, ◌||◌, List, [], ◌∷◌,
  Bytes, Dict, remove, has, find-put, find-remove, eqb, eqb_iff, ltb, ◌==◌, keep, sym,
  if◌then◌else◌, Bool-cases, inl, inr, arith,
}
use ab_dyeing.FreshKafka.{
  CurrentFresh, put_time, erase_time, set, cut_time, rubsh, erase_times, remove_uids, clear,
}

-- The times rise along the map, from `n` on.
abbrev pub Rises : ℕ → List (ℕ × Bytes) → Type 0
Rises n [] = Unit
Rises n ((t, uid) ∷ m) = (n ≤ t) × Rises (suc t) m

-- A record of the map names the user.
abbrev pub named : Bytes → List (ℕ × Bytes) → Bool
named uid [] = false
named uid ((t, v) ∷ m) = eqb v uid || named uid m

-- A record has the time.
abbrev pub taken : ℕ → List (ℕ × Bytes) → Bool
taken t [] = false
taken t ((s, v) ∷ m) = (s == t) || taken t m

-- The map is in order, and each queued user has a record in it, so that it can expire.
pub record IsTracked (c : CurrentFresh) : Type 0 where
  pub rises : Rises 0 c.time_kmsg
  pub recorded : (uid : Bytes) → has uid c.kq ≡ true → named uid c.time_kmsg ≡ true

pub put_time-Rises :
    (n t : ℕ) (uid : Bytes) (m : List (ℕ × Bytes)) → n ≤ t → Rises n m → Rises n (put_time t uid m)
unfolding put_time
put_time-Rises n t uid [] h r = (h, tt)
put_time-Rises n t uid ((s, v) ∷ m) h r = ground (arith, put_time-Rises (suc s) t uid m)

-- A record at a new time displaces no other.
pub named-put_time :
    (t : ℕ) (uid j : Bytes) (m : List (ℕ × Bytes))
    → taken t m ≡ false
    → named j (put_time t uid m) ≡ (eqb uid j || named j m)
unfolding put_time
named-put_time t uid j [] h = refl
named-put_time t uid j ((s, v) ∷ m) h = ground (arith, named-put_time t uid j m)

-- A user that is set at a time that no record has is queued and keeps the queue tracked.
pub set-IsTracked :
    (now later : ℕ) (uid : Bytes) (c : CurrentFresh)
    → taken now c.time_kmsg ≡ false
    → IsTracked c
    → IsTracked (set now later uid c) × (has uid (set now later uid c).kq ≡ true)
set-IsTracked now later uid c new i =
    unfold set in
    (
      record {
        rises = put_time-Rises 0 now uid c.time_kmsg (omega arith) i.rises;
        recorded = λ j h. ground (
          arith,
          named-put_time now uid j c.time_kmsg new,
          find-put uid j later c.kq,
          i.recorded j,
        );
      },
      ground (arith, find-put uid uid later c.kq, eqb_iff uid uid),
    )

-- What stays in the map: the records from the first that is not before `cnow`.
abbrev pub kept : ℕ → List (ℕ × Bytes) → List (ℕ × Bytes)
kept cnow [] = []
kept cnow ((t, uid) ∷ m) = if ltb t cnow then kept cnow m else (t, uid) ∷ m

pub erase_times-rubsh :
    (cnow : ℕ) (m : List (ℕ × Bytes)) → erase_times (rubsh cnow m) m ≡ kept cnow m
unfolding erase_times rubsh erase_time
erase_times-rubsh cnow [] = refl
erase_times-rubsh cnow ((t, uid) ∷ m) = ground (arith, erase_times-rubsh cnow m)

abbrev pub before : ℕ → ℕ × Bytes → Bool
before cnow r = ltb r.0 cnow

abbrev pub from : ℕ → ℕ × Bytes → Bool
from cnow r = not (ltb r.0 cnow)

keep_later :
    (cnow n : ℕ) (m : List (ℕ × Bytes))
    → cnow ≤ n
    → Rises n m
    → (keep (from cnow) m ≡ m) × (keep (before cnow) m ≡ [])
keep_later cnow n [] h r = (refl, refl)
keep_later cnow n ((t, uid) ∷ m) h r =
    let rest = keep_later cnow (suc t) m (omega arith) r.1 in
    let off : ltb t cnow ≡ false = ground arith in
    (rw off (ap (λ l. (t, uid) ∷ l) rest.0), rw off rest.1)

-- On a map in order the loop with its early stop is a filter.
pub scan-keep :
    (cnow n : ℕ) (m : List (ℕ × Bytes))
    → Rises n m
    → (kept cnow m ≡ keep (from cnow) m) × (rubsh cnow m ≡ keep (before cnow) m)
unfolding rubsh
scan-keep cnow n [] r = (refl, refl)
scan-keep cnow n ((t, uid) ∷ m) r = elim (Bool-cases (ltb t cnow)) [
  | inl e ↦
      let rest = scan-keep cnow (suc t) m r.1 in
      (rw (e, kept) rest.0, rw (e, rubsh) (ap (λ l. (t, uid) ∷ l) rest.1))
  | inr e ↦
      let rest = keep_later cnow (suc t) m (ground arith) r.1 in
      (rw (e, kept) (ap (λ l. (t, uid) ∷ l) (sym rest.0)), rw (e, rubsh) (sym rest.1))
]

has-remove_uids :
    (rs : List (ℕ × Bytes)) (kq : Dict ℕ) (uid : Bytes)
    → has uid (remove_uids rs kq) ≡ (has uid kq && not (named uid rs))
unfolding remove_uids
has-remove_uids [] kq uid = ground arith
has-remove_uids ((t, v) ∷ rs) kq uid =
    has-remove_uids rs (remove v kq) uid ∙ rw find-remove (ground arith)

-- On a map in order, `clear` keeps exactly the records that are not before the cut time, and
-- takes off the queue exactly the users whom a record before it names.
pub clear_lem :
    (window now : ℕ) (c : CurrentFresh)
    → Rises 0 c.time_kmsg
    → ((clear window now c).time_kmsg ≡ keep (from (cut_time window now)) c.time_kmsg)
      × ((uid : Bytes)
          → has uid (clear window now c).kq
            ≡ (has uid c.kq && not (named uid (keep (before (cut_time window now)) c.time_kmsg))))
unfolding clear
clear_lem window now c r =
    let (stay, go) = scan-keep (cut_time window now) 0 c.time_kmsg r in
    (erase_times-rubsh (cut_time window now) c.time_kmsg ∙ stay, λ uid. rw (has-remove_uids, go))

pub keep-Rises :
    (cnow n k : ℕ) (m : List (ℕ × Bytes)) → k ≤ n → Rises n m → Rises k (keep (from cnow) m)
keep-Rises cnow n k [] h r = tt
keep-Rises cnow n k ((t, uid) ∷ m) h r = elim (Bool-cases (ltb t cnow)) [
  | inl e ↦ rw e (keep-Rises cnow (suc t) k m (omega arith) r.1)
  | inr e ↦ rw e (omega arith, keep-Rises cnow (suc t) (suc t) m (omega arith) r.1)
]

pub named-keep :
    (cnow : ℕ) (uid : Bytes) (m : List (ℕ × Bytes))
    → named uid m ≡ (named uid (keep (before cnow) m) || named uid (keep (from cnow) m))
named-keep cnow uid [] = refl
named-keep cnow uid ((t, v) ∷ m) = ground (arith, named-keep cnow uid m)

-- Clearing keeps the queue tracked.
pub clear-IsTracked :
    (window now : ℕ) (c : CurrentFresh) → IsTracked c → IsTracked (clear window now c)
clear-IsTracked window now c i =
    let (stay, go) = clear_lem window now c i.rises in
    record {
      rises = rw stay (keep-Rises (cut_time window now) 0 0 c.time_kmsg (omega arith) i.rises);
      recorded = λ uid h. rw stay (
          ground (arith, go uid, named-keep (cut_time window now) uid c.time_kmsg, i.recorded uid));
    }

keep-ext :
    (p q : ℕ × Bytes → Bool) (m : List (ℕ × Bytes))
    → ((r : ℕ × Bytes) → p r ≡ q r)
    → keep p m ≡ keep q m
keep-ext p q [] e = refl
keep-ext p q (r ∷ m) e = rw (e r, keep-ext p q m e)

-- On a map in order, `clear` takes a user off the queue if some record of the user is older than
-- the window; also if a newer record names the user.
pub clear_early :
    (window now : ℕ) (uid : Bytes) (c : CurrentFresh)
    → Rises 0 c.time_kmsg
    → window ≤ now
    → now < 2 ^ 63
    → named uid (keep (λ r. ltb (r.0 + window) now) c.time_kmsg) ≡ true
    → has uid (clear window now c).kq ≡ false
clear_early window now uid c r low high old =
    let same =
      keep-ext (before (cut_time window now)) (λ r. ltb (r.0 + window) now) c.time_kmsg
        (λ r. unfold cut_time in ground arith) in
    (clear_lem window now c r).1 uid ∙ rw (same, old) (ground arith)
