-- ===== src/Tests/Receive.antt =====
-- The receiving loop on a poll without a message and on a message.
use ab_dyeing.Base.{◌≡◌, refl, true, List, [], ◌∷◌, Bytes, codes, find, eqb}
use ab_dyeing.Outcome.{done}
use ab_dyeing.KafkaConsumer.{Poll, no_message, message}
use ab_dyeing.FreshKafka.Message.{Document, object, json_string, c_string}
use ab_dyeing.FreshKafka.Receive.{Receiver, Input, receive_all}
use ab_dyeing.FreshKafka.Receive.Run.{IsFine, has_uid, set_all, receive_all-set_all}
use ab_dyeing.Tests.Kafka.{started, unsaved}

abbrev parse : Bytes → Document
parse msg =
    object ((codes "uid", json_string (codes "u1")) ∷ (codes "event_time", json_string msg) ∷ [])

abbrev input : Poll → Input
input poll = record { tm_hour = 1; tm_min = 4; poll = poll; now = 1000; later = 1001 }

abbrev inputs : List Input
inputs = input no_message ∷ input (message 1 42 (codes "7")) ∷ []

abbrev receiver : Receiver
receiver = record {
  consumer = started;
  saved = unsaved;
  current = record { time_kmsg = []; kq = [] };
}

fine : IsFine (parse (codes "7"))
unfolding find eqb
fine = has_uid (codes "u1") (codes "7") refl refl

receive_all-set_all_example :
    (r' : Receiver) × (receive_all parse inputs receiver ≡ done r')
    × (r'.consumer.inited ≡ true)
    × (r'.current ≡ set_all parse inputs receiver.current)
unfolding c_string
receive_all-set_all_example = receive_all-set_all parse inputs receiver refl (tt, (fine, tt))
