-- ===== src/FreshKafka/Receive/Run.antt =====
-- What a run of the receiving loop leaves in the queue.
use ab_dyeing.Base.{
  ℕ, ◌≡◌, refl, ap, ◌∙◌, true, Option, none, some, List, [], ◌∷◌, Bytes, Dict, codes, find, All,
}
use ab_dyeing.Outcome.{done}
use ab_dyeing.KafkaConsumer.{
  Consumer, Poll, no_message, unknown_partition_or_topic, partition_eof, poll_error, message, Saved,
  fetch_msg, polled, eof_text, save_offset,
}
use ab_dyeing.FreshKafka.{CurrentFresh, set}
use ab_dyeing.FreshKafka.Message.{
  Json, json_string, Document, parse_error, not_object, object, c_string, get_string, process_kafka,
}
use ab_dyeing.FreshKafka.Receive.{Receiver, Input, process_fetched, receive_round, receive_all}

-- The user of a message, if it is an object whose member "uid" is a string.
abbrev pub uid_of : Option Json → Option Bytes
uid_of (some (json_string uid)) = some (c_string uid)
uid_of _ = none

abbrev pub user_in : Document → Option Bytes
user_in (object members) = uid_of (find (codes "uid") members)
user_in _ = none

-- The document is processed: where it has a uid, that and the event time are strings.
pub data IsFine : Document → Type 0 where
  no_json : IsFine parse_error
  no_object : IsFine not_object
  no_uid : {members : Dict Json} → find (codes "uid") members ≡ none → IsFine (object members)
  has_uid :
      {members : Dict Json} (uid time : Bytes)
      → find (codes "uid") members ≡ some (json_string uid)
      → find (codes "event_time") members ≡ some (json_string time)
      → IsFine (object members)

-- The reply to a poll is handled: it is not the error that the code asserts against, and a message
-- is one that is processed.
abbrev pub IsHandled : (Bytes → Document) → Poll → Type 0
IsHandled parse no_message = Unit
IsHandled parse unknown_partition_or_topic = ⊥
IsHandled parse (partition_eof p o) = Unit
IsHandled parse (poll_error e) = Unit
IsHandled parse (message p o msg) = IsFine (parse (c_string msg))

abbrev pub user_polled : (Bytes → Document) → Poll → Option Bytes
user_polled parse (message p o msg) = user_in (parse (c_string msg))
user_polled parse _ = none

abbrev pub set_some : ℕ → ℕ → Option Bytes → CurrentFresh → CurrentFresh
set_some now later none c = c
set_some now later (some uid) c = set now later uid c

-- The users of the messages, set in the order in which they come in.
abbrev pub set_all : (Bytes → Document) → List Input → CurrentFresh → CurrentFresh
set_all parse [] c = c
set_all parse (i ∷ is) c = set_all parse is (set_some i.now i.later (user_polled parse i.poll) c)

abbrev told : Consumer → Bytes → Saved → CurrentFresh → Receiver
told k errmsg s c = record { consumer = record k { errmsg = errmsg }; saved = s; current = c }

module _ (parse : Bytes → Document) where
  process_kafka-user_in :
      (msg : Bytes) (d : Document) (now later : ℕ) (c : CurrentFresh)
      → parse (c_string msg) ≡ d
      → IsFine d
      → process_kafka parse msg now later c ≡ done (set_some now later (user_in d) c)
  unfolding process_kafka get_string
  process_kafka-user_in msg parse_error now later c e no_json = rw (e, process_kafka)
  process_kafka-user_in msg not_object now later c e no_object = rw (e, process_kafka)
  process_kafka-user_in msg (object members) now later c e (no_uid u) = rw (e, process_kafka, u)
  process_kafka-user_in msg (object members) now later c e (has_uid uid time u t) =
      rw (e, process_kafka, u, t)

  -- What a round does for each reply to its poll.
  receive_round-polled :
      (poll : Poll) (tm_hour tm_min now later : ℕ) (k : Consumer) (s : Saved) (c : CurrentFresh)
      → k.inited ≡ true
      → IsHandled parse poll
      → (r : Receiver) × (receive_round parse
            (record { tm_hour = tm_hour; tm_min = tm_min; poll = poll; now = now; later = later })
            (record { consumer = k; saved = s; current = c })
          ≡ done r)
        × (r.consumer.inited ≡ true)
        × (r.current ≡ set_some now later (user_polled parse poll) c)
  unfolding receive_round fetch_msg polled process_fetched
  receive_round-polled no_message tm_hour tm_min now later k s c e h =
      (told k (codes "No message") s c, rw e refl, e, refl)
  receive_round-polled unknown_partition_or_topic tm_hour tm_min now later k s c e h = absurd h
  receive_round-polled (partition_eof p o) tm_hour tm_min now later k s c e h =
      (told k (eof_text p o) s c, rw e refl, e, refl)
  receive_round-polled (poll_error t) tm_hour tm_min now later k s c e h =
      (told k t s c, rw e refl, e, refl)
  receive_round-polled (message p o msg) tm_hour tm_min now later k s c e h = (
    told k k.errmsg (save_offset tm_hour tm_min p o s)
        (set_some now later (user_in (parse (c_string msg))) c),
    rw (e, process_kafka-user_in msg (parse (c_string msg)) now later c refl h) refl,
    e,
    refl,
  )

  -- A started thread whose polls are all handled runs on, and leaves in the queue the users of its
  -- messages, set in order; polls without a message and messages without a uid change nothing.
  pub receive_all-set_all :
      (is : List Input) (r : Receiver)
      → r.consumer.inited ≡ true
      → All (λ i. IsHandled parse i.poll) is
      → (r' : Receiver) × (receive_all parse is r ≡ done r')
        × (r'.consumer.inited ≡ true)
        × (r'.current ≡ set_all parse is r.current)
  unfolding receive_all
  receive_all-set_all [] r e h = (r, refl, e, refl)
  receive_all-set_all (i ∷ is) r e h =
      let (r₁, got, e₁, c₁) =
        receive_round-polled i.poll i.tm_hour i.tm_min i.now i.later r.consumer r.saved r.current e
          h.0 in
      let (r₂, rest, e₂, c₂) = receive_all-set_all is r₁ e₁ h.1 in
      (r₂, rw got rest, e₂, c₂ ∙ ap (set_all parse is) c₁)
