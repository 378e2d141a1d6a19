-- ===== src/FreshKafka/Receive.antt =====
-- The loop of `KafkaThread::run` of src/fresh_kafka.cc: each round fetches from the consumer of
-- src/kafka_consumer.cc and hands a message on to the queue.
pub mod Run
use ab_dyeing.Base.{ℕ, List, [], ◌∷◌, Bytes}
use ab_dyeing.Outcome.{Outcome, done, ◌>>=◌}
use ab_dyeing.KafkaConsumer.{
  Consumer, Poll, Saved, Fetched, Ret, zero_ret, one_ret, minus_one_ret, fetch_msg,
}
use ab_dyeing.FreshKafka.{CurrentFresh}
use ab_dyeing.FreshKafka.Message.{Document, process_kafka}

-- What the thread works on: its consumer, the saved offsets and the queue.
pub record Receiver : Type 0 where
  pub consumer : Consumer
  pub saved : Saved
  pub current : CurrentFresh

-- What a round reads from outside: the time of day, the reply to the poll, and the clock of `set`.
pub record Input : Type 0 where
  pub tm_hour : ℕ
  pub tm_min : ℕ
  pub poll : Poll
  pub now : ℕ
  pub later : ℕ

-- `if (consumer.FetchMsg(msg)) continue;`, else the message is processed.
unfoldable pub process_fetched :
    (Bytes → Document) → Ret → Bytes → ℕ → ℕ → CurrentFresh → Outcome CurrentFresh
process_fetched parse zero_ret msg now later c = process_kafka parse msg now later c
process_fetched parse one_ret msg now later c = done c
process_fetched parse minus_one_ret msg now later c = done c

-- One round of the loop.
unfoldable pub receive_round : (Bytes → Document) → Input → Receiver → Outcome Receiver
receive_round parse i r = do
  f ← fetch_msg i.tm_hour i.tm_min i.poll r.consumer r.saved
  c ← process_fetched parse f.ret f.msg i.now i.later r.current
  done (record {
    consumer = record (r.consumer) { errmsg = f.errmsg };
    saved = f.saved;
    current = c;
  })

unfoldable pub receive_all : (Bytes → Document) → List Input → Receiver → Outcome Receiver
receive_all parse [] r = done r
receive_all parse (i ∷ is) r = do r' ← receive_round parse i r; receive_all parse is r'
