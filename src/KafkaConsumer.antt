-- ===== src/KafkaConsumer.antt =====
-- `KafkaConsumer` of src/kafka_consumer.h and src/kafka_consumer.cc. The Kafka client library
-- (librdkafka) is not in the repository: what its calls return are arguments. `files` are the
-- files of the working directory.
pub mod Offsets
pub mod Start
use ab_dyeing.Base.{
  ℕ, zero, suc, ◌+◌, ◌^◌, Bool, true, false, ◌&&◌, Option, none, some, List, [], ◌∷◌, ◌++◌, map,
  Bytes, codes, Dict, find, put, drop, is_empty, ltb, leb, ◌==◌, if◌then◌else◌,
}
use ab_dyeing.Outcome.{Outcome, done, throws, undefined, assertion_failed, ◌>>=◌}
use ab_dyeing.Util.Sepstr.Join.{join}
use ab_dyeing.Util.Decimal.{show, atoi_u32}

pub record Consumer : Type 0 where
  pub errmsg : Bytes
  pub inited : Bool
  pub brokers : List (Bytes × ℕ)
  pub group : Bytes
  pub topic : Bytes

abbrev pub new : List (Bytes × ℕ) → Bytes → Bytes → Consumer
new brokers group topic = record {
  errmsg = [];
  inited = false;
  brokers = brokers;
  group = group;
  topic = topic;
}

-- What the calls of `Init` return: an error text, or `none` where they succeed; the number of
-- brokers that are added.
pub record RdInit : Type 0 where
  pub group_id : Option Bytes
  pub offset_store_method : Option Bytes
  pub kafka_new : Option Bytes
  pub brokers_add : Bytes → ℕ
  pub subscribe : Option Bytes

-- An entry of the partition list; a partition of -1 is `none`, and has no offset. The offset is
-- the bit pattern of the `int` that `atoi` returns.
pub record TopicPartition : Type 0 where
  pub topic : Bytes
  pub partition : Option ℕ
  pub offset : Option ℕ

-- `getline` on a file, the empty string if there is none.
unfoldable pub first_line : Bytes → Bytes
first_line [] = []
first_line (c ∷ s) = if c == 10 then [] else c ∷ first_line s

abbrev contents : Option Bytes → Bytes
contents none = []
contents (some s) = s

unfoldable pub read_line : Bytes → Dict Bytes → Bytes
unfolding first_line find
read_line name files = first_line (contents (find name files))

abbrev pub offset_prefix : Bytes
offset_prefix = codes "offset.partition"

-- `"offset.partition" + p_size` moves the pointer into the literal, whose end is at 16.
unfoldable pub read_name : ℕ → Outcome Bytes
read_name p_size = if leb p_size 16 then done (drop p_size offset_prefix) else undefined

-- The loop over the partitions, for the rounds that are left.
unfoldable pub add_partitions :
    ℕ → ℕ → Bytes → Dict Bytes → List TopicPartition → Outcome (List TopicPartition)
add_partitions zero p topic files ps = done ps
add_partitions (suc n) p topic files ps = do
  name ← read_name p
  let offset = atoi_u32 (read_line name files)
  add_partitions n (p + 1) topic files
      (ps ++ record { topic = topic; partition = some p; offset = some offset } ∷ [])

-- The rounds of the loop up to `p_max`, none if that is negative.
abbrev rounds : ℕ → ℕ
rounds p_max = if ltb p_max (2 ^ 31) then p_max + 1 else 0

unfoldable pub topics : Bytes → Dict Bytes → Outcome (List TopicPartition)
topics topic files =
    let str_p_max = read_line (codes "offset.txt") files in
    if is_empty str_p_max
    then done (record { topic = topic; partition = none; offset = none } ∷ [])
    else add_partitions (rounds (atoi_u32 str_p_max)) 0 topic files []

-- `ip:port,ip:port`.
unfoldable pub broker_text : List (Bytes × ℕ) → Bytes
unfolding join show
broker_text brokers = join b',' (map (λ b. b.0 ++ (codes ":" ++ show b.1)) brokers)

-- The result of `Init`: the consumer, the value returned and the partition list.
pub record Started : Type 0 where
  pub consumer : Consumer
  pub ok : Bool
  pub topics : List TopicPartition

abbrev pub fails : Consumer → Bytes → List TopicPartition → Outcome Started
fails k errmsg ts =
    done (record { consumer = record k { errmsg = errmsg }; ok = false; topics = ts })

unfoldable pub subscribed : Option Bytes → Consumer → List TopicPartition → Outcome Started
subscribed none k ts =
    done (record { consumer = record k { inited = true }; ok = true; topics = ts })
subscribed (some e) k ts = fails k (codes "Failed to start consuming" ++ e) ts

-- `Init`, from the connection to the brokers on.
unfoldable pub init_topics : RdInit → Dict Bytes → Consumer → Outcome Started
init_topics rd files k =
    if rd.brokers_add (broker_text k.brokers) == 0
    then fails k (codes "No valid brokers specified") []
    else (do ts ← topics k.topic files; subscribed rd.subscribe k ts)

abbrev pub or_else : Option Bytes → Consumer → Outcome Started → Outcome Started
or_else none k next = next
or_else (some errstr) k next = fails k errstr []

unfoldable pub init : RdInit → Dict Bytes → Consumer → Outcome Started
init rd files old =
    let k = record old { inited = false } in
    or_else rd.group_id k
      (or_else rd.offset_store_method k (or_else rd.kafka_new k (init_topics rd files k)))

-- What `rd_kafka_consumer_poll` returns.
pub data Poll : Type 0 where
  no_message : Poll
  unknown_partition_or_topic : Poll
  partition_eof : ℕ → ℕ → Poll
  poll_error : Bytes → Poll
  message : ℕ → ℕ → Bytes → Poll

pub data Ret : Type 0 where
  zero_ret one_ret minus_one_ret : Ret

-- The static `max_partition` and the files.
pub record Saved : Type 0 where
  pub max_partition : ℕ
  pub files : Dict Bytes

pub record Fetched : Type 0 where
  pub ret : Ret
  pub msg : Bytes
  pub errmsg : Bytes
  pub saved : Saved

abbrev pub write_name : ℕ → Bytes
write_name partition = offset_prefix ++ show partition

-- The block that saves the position, in the first five minutes after one o'clock.
unfoldable pub save_offset : ℕ → ℕ → ℕ → ℕ → Saved → Saved
unfolding put
save_offset tm_hour tm_min partition offset s =
    if 1 == tm_hour && ltb tm_min 5
    then (let files = put (write_name partition) (show offset) s.files in
        if ltb s.max_partition partition
        then record {
          max_partition = partition;
          files = put (codes "offset.txt") (show partition) files;
        }
        else record s { files = files })
    else s

unfoldable pub eof_text : ℕ → ℕ → Bytes
eof_text partition offset =
    codes "Consumer reached end of message queue partition: "
    ++ (show partition ++ (codes "at offset: " ++ show offset))

unfoldable pub polled : ℕ → ℕ → Poll → Consumer → Saved → Outcome Fetched
unfolding save_offset eof_text
polled tm_hour tm_min no_message k s =
    done (record { ret = one_ret; msg = []; errmsg = codes "No message"; saved = s })
polled tm_hour tm_min unknown_partition_or_topic k s = throws assertion_failed
polled tm_hour tm_min (partition_eof partition offset) k s =
    done (record { ret = one_ret; msg = []; errmsg = eof_text partition offset; saved = s })
polled tm_hour tm_min (poll_error text) k s =
    done (record { ret = minus_one_ret; msg = []; errmsg = text; saved = s })
polled tm_hour tm_min (message partition offset payload) k s = done (record {
  ret = zero_ret;
  msg = payload;
  errmsg = k.errmsg;
  saved = save_offset tm_hour tm_min partition offset s;
})

-- `FetchMsg`, at the time of day that it reads.
unfoldable pub fetch_msg : ℕ → ℕ → Poll → Consumer → Saved → Outcome Fetched
unfolding polled
fetch_msg tm_hour tm_min poll k s =
    if k.inited
    then polled tm_hour tm_min poll k s
    else done (record { ret = minus_one_ret; msg = []; errmsg = k.errmsg; saved = s })
