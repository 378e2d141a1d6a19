-- ===== src/FreshKafka/Message/Queue.antt =====
-- The queue under any sequence of messages and of calls of `clear`.
use ab_dyeing.Base.{
  ℕ, ◌≡◌, subst, ◌⊎◌, false, Option, none, some, List, Bytes, codes, find, inl, inr,
}
use ab_dyeing.Outcome.{done, undefined, >>=-eq-done, done-injective}
use ab_dyeing.FreshKafka.{CurrentFresh, set, clear}
use ab_dyeing.FreshKafka.Expiry.{IsTracked, taken, set-IsTracked, clear-IsTracked}
use ab_dyeing.FreshKafka.Message.{
  Json, json_string, json_other, Document, parse_error, not_object, object, c_string, get_string,
  process_member, process_document, process_kafka,
}

process_member-cases :
    (o : Option Json) (members : List (Bytes × Json)) (now later : ℕ) (c c' : CurrentFresh)
    → process_member o members now later c ≡ done c'
    → (c ≡ c') ⊎ ((uid : Bytes) × (set now later uid c ≡ c'))
process_member-cases none members now later c c' h = inl (done-injective h)
process_member-cases (some m) members now later c c' h =
    let (uid, _, h₁) = >>=-eq-done (get_string (some m)) _ h in
    let (time, _, h₂) = >>=-eq-done (get_string (find (codes "event_time") members)) _ h₁ in
    inr (uid, done-injective h₂)

process_document-cases :
    (d : Document) (now later : ℕ) (c c' : CurrentFresh)
    → process_document d now later c ≡ done c'
    → (c ≡ c') ⊎ ((uid : Bytes) × (set now later uid c ≡ c'))
process_document-cases parse_error now later c c' h = inl (done-injective h)
process_document-cases not_object now later c c' h = inl (done-injective h)
process_document-cases (object members) now later c c' h =
    process_member-cases (find (codes "uid") members) members now later c c' h

module _ (parse : Bytes → Document) where
  -- A message of an object with a uid and an event time, both strings, sets the user.
  pub process_kafka-set :
      (msg uid time : Bytes) (members : List (Bytes × Json)) (now later : ℕ) (c : CurrentFresh)
      → parse (c_string msg) ≡ object members
      → find (codes "uid") members ≡ some (json_string uid)
      → find (codes "event_time") members ≡ some (json_string time)
      → process_kafka parse msg now later c ≡ done (set now later (c_string uid) c)
  unfolding process_kafka get_string
  process_kafka-set msg uid time members now later c p u t = rw (p, process_kafka, u, t)

  -- An object with a uid and no event time runs into the parser's assertion.
  pub process_kafka-undefined :
      (msg : Bytes) (uid : Json) (members : List (Bytes × Json)) (now later : ℕ) (c : CurrentFresh)
      → parse (c_string msg) ≡ object members
      → find (codes "uid") members ≡ some uid
      → find (codes "event_time") members ≡ none
      → process_kafka parse msg now later c ≡ undefined
  unfolding process_kafka get_string
  process_kafka-undefined msg (json_string uid) members now later c p u t =
      rw (p, process_kafka, u, t)
  process_kafka-undefined msg json_other members now later c p u t = rw (p, process_kafka, u)

  -- A message that is processed leaves the queue alone or sets one user.
  process_kafka-cases :
      (msg : Bytes) (now later : ℕ) (c c' : CurrentFresh)
      → process_kafka parse msg now later c ≡ done c'
      → (c ≡ c') ⊎ ((uid : Bytes) × (set now later uid c ≡ c'))
  unfolding process_kafka
  process_kafka-cases msg now later c c' h =
      process_document-cases (parse (c_string msg)) now later c c' h

  -- Messages at times that no record has, and calls of `clear`, in any order.
  pub data Step (c c' : CurrentFresh) : Type 0 where
    receive :
        (msg : Bytes) (now later : ℕ)
        → taken now c.time_kmsg ≡ false
        → process_kafka parse msg now later c ≡ done c'
        → Step c c'
    expire : (window now : ℕ) → clear window now c ≡ c' → Step c c'

  pub data Reach (c : CurrentFresh) : CurrentFresh → Type 0 where
    begin : Reach c c
    after : {d e : CurrentFresh} → Reach c d → Step d e → Reach c e

  Step-IsTracked : {c c' : CurrentFresh} → Step c c' → IsTracked c → IsTracked c'
  Step-IsTracked {c} {c'} (receive msg now later new e) i =
      elim (process_kafka-cases msg now later c c' e) [
        | inl same ↦ subst IsTracked same i
        | inr (uid, same) ↦ subst IsTracked same (set-IsTracked now later uid c new i).0
      ]
  Step-IsTracked {c} {c'} (expire window now e) i =
      subst IsTracked e (clear-IsTracked window now c i)

  -- In every state that messages at new times and calls of `clear` reach from a tracked one, the
  -- records are in order of time and each queued user has a record.
  pub Reach-IsTracked : {c c' : CurrentFresh} → Reach c c' → IsTracked c → IsTracked c'
  Reach-IsTracked begin i = i
  Reach-IsTracked (after r s) i = Step-IsTracked s (Reach-IsTracked r i)
