-- ===== src/FreshKafka.antt =====
-- `DyeingCurrentFresh` of src/fresh_kafka.h and src/fresh_kafka.cc: the users that came in over
-- Kafka. Times are microseconds, the value of `TNOWUS`, below 2 ^ 63. Each call is one step; the
-- source releases one lock and takes another between the two halves of a call, which Interleave has.
pub mod Expiry
pub mod Interleave
pub mod Receive
pub mod Message
use ab_dyeing.Base.{
  ℕ, ◌+◌, ◌-◌, ◌*◌, ◌%◌, ◌^◌, List, [], ◌∷◌, map, Bytes, Dict, put, remove, ltb, ◌==◌,
  if◌then◌else◌,
}

-- `_time_kmsg`, a `std::map` by time, and `_kmq->kq`. (`_kmsg` is never used.)
pub record CurrentFresh : Type 0 where
  pub time_kmsg : List (ℕ × Bytes)
  pub kq : Dict ℕ

-- `m[t] = uid` on the ordered map.
unfoldable pub put_time : ℕ → Bytes → List (ℕ × Bytes) → List (ℕ × Bytes)
put_time t uid [] = (t, uid) ∷ []
put_time t uid ((s, v) ∷ m) =
    if ltb t s
    then (t, uid) ∷ (s, v) ∷ m
    else if t == s
    then (t, uid) ∷ m
    else (s, v) ∷ put_time t uid m

-- `m.erase(t)`.
unfoldable pub erase_time : ℕ → List (ℕ × Bytes) → List (ℕ × Bytes)
erase_time t [] = []
erase_time t ((s, v) ∷ m) = if s == t then m else (s, v) ∷ erase_time t m

-- `set`, which reads the clock twice.
unfoldable pub set : ℕ → ℕ → Bytes → CurrentFresh → CurrentFresh
unfolding put_time put
set now later uid c = record { time_kmsg = put_time now uid c.time_kmsg; kq = put uid later c.kq }

-- `uint64_t cnow = TNOWUS - 24*3600*1000*1000`. The product does not fit an `int`, and C++ does not
-- define what it comes to: `window` is what the build makes of it, in microseconds and as a
-- uint64_t, and may be any.
unfoldable pub cut_time : ℕ → ℕ → ℕ
cut_time window now = (now + 2 ^ 64 - window) % 2 ^ 64

-- The loop that collects the records before `cnow` and stops at the first that is not.
unfoldable pub rubsh : ℕ → List (ℕ × Bytes) → List (ℕ × Bytes)
rubsh cnow [] = []
rubsh cnow ((t, uid) ∷ m) = if ltb t cnow then (t, uid) ∷ rubsh cnow m else []

unfoldable pub erase_times : List (ℕ × Bytes) → List (ℕ × Bytes) → List (ℕ × Bytes)
erase_times [] m = m
erase_times ((t, uid) ∷ rs) m = erase_times rs (erase_time t m)

unfoldable pub remove_uids : List (ℕ × Bytes) → Dict ℕ → Dict ℕ
remove_uids [] kq = kq
remove_uids ((t, uid) ∷ rs) kq = remove_uids rs (remove uid kq)

unfoldable pub clear : ℕ → ℕ → CurrentFresh → CurrentFresh
clear window now c =
    let old = rubsh (cut_time window now) c.time_kmsg in
    record { time_kmsg = erase_times old c.time_kmsg; kq = remove_uids old c.kq }
