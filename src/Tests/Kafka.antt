-- ===== src/Tests/Kafka.antt =====
-- The Kafka consumer on concrete replies of its client library.
use ab_dyeing.Base.{◌≡◌, refl, true, none, [], ◌∷◌, codes, find, put, eqb, arith}
use ab_dyeing.Outcome.{done}
use ab_dyeing.Util.Decimal.{show}
use ab_dyeing.KafkaConsumer.{
  Consumer, RdInit, message, Saved, Fetched, Started, zero_ret, read_line, first_line, read_name,
  topics, init, init_topics, subscribed, save_offset, polled, fetch_msg,
}
use ab_dyeing.KafkaConsumer.Offsets.{IsSaved, fetch_msg-unread}

abbrev pub started : Consumer
started = record {
  errmsg = [];
  inited = true;
  brokers = (codes "10.0.0.1", 9092) ∷ [];
  group = codes "g";
  topic = codes "t";
}

abbrev pub unsaved : Saved
unsaved = record { max_partition = 0; files = [] }

-- A message of partition 1 at five past one.
abbrev fetched : Fetched
fetched = record {
  ret = zero_ret;
  msg = codes "{}";
  errmsg = [];
  saved = record {
    max_partition = 1;
    files = (codes "offset.partition1", codes "42") ∷ (codes "offset.txt", codes "1") ∷ [];
  };
}

fetched-fetch_msg : fetch_msg 1 4 (message 1 42 (codes "{}")) started unsaved ≡ done fetched
unfolding fetch_msg polled save_offset put eqb show
fetched-fetch_msg = refl

unsaved-IsSaved : IsSaved unsaved
unsaved-IsSaved = record { highest = λ h. absurd (omega arith) }

-- A start looks for the offset of partition 1 in the file "ffset.partition".
fetch_msg-unread_example :
    find (codes "ffset.partition") fetched.saved.files
    ≡ find (codes "ffset.partition") unsaved.files
unfolding read_name
fetch_msg-unread_example =
    fetch_msg-unread 1 4 1 (message 1 42 (codes "{}")) started unsaved fetched
      (codes "ffset.partition") refl fetched-fetch_msg

abbrev rd_good : RdInit
rd_good = record {
  group_id = none;
  offset_store_method = none;
  kafka_new = none;
  brokers_add = λ s. 1;
  subscribe = none;
}

abbrev rd_started : Started
rd_started = record {
  consumer = started;
  ok = true;
  topics = record { topic = codes "t"; partition = none; offset = none } ∷ [];
}

init-rd_started : init rd_good [] started ≡ done rd_started
unfolding init init_topics topics read_line first_line find subscribed
init-rd_started = refl
