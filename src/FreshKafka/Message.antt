-- ===== src/FreshKafka/Message.antt =====
-- `KafkaThread` of src/fresh_kafka.cc: its settings, and one message of the topic. The JSON parser
-- (rapidjson) is not in the repository: it is the argument `parse`.
pub mod Queue
use ab_dyeing.Base.{
  ℕ, ◌%◌, ◌^◌, Option, none, some, false, List, [], ◌∷◌, ◌++◌, Bytes, codes, Dict, find, is_empty,
  ◌==◌, if◌then◌else◌,
}
use ab_dyeing.Outcome.{Outcome, done, throws, undefined, process_exit, ◌>>=◌}
use ab_dyeing.Util.Sepstr.{sepstr}
use ab_dyeing.Util.Decimal.{atoi_u32}
use ab_dyeing.FreshKafka.{CurrentFresh, set}

pub data Json : Type 0 where
  json_string : Bytes → Json
  json_other : Json

-- What the parser makes of a message; the members of an object in order.
pub data Document : Type 0 where
  parse_error not_object : Document
  object : Dict Json → Document

-- A `const char*` as a string: it ends at the first zero byte.
unfoldable pub c_string : Bytes → Bytes
c_string [] = []
c_string (c ∷ s) = if c == 0 then [] else c ∷ c_string s

-- `d[name].GetString()`, an assertion of the parser where the member is missing or no string.
unfoldable pub get_string : Option Json → Outcome Bytes
unfolding c_string
get_string none = undefined
get_string (some (json_string s)) = done (c_string s)
get_string (some json_other) = undefined

-- The end of `processkafka`, from the result of `FindMember("uid")` on.
abbrev pub process_member : Option Json → Dict Json → ℕ → ℕ → CurrentFresh → Outcome CurrentFresh
process_member none members now later c = done c
process_member (some member) members now later c = do
  uid ← get_string (some member)
  event_time ← get_string (find (codes "event_time") members)
  done (set now later uid c)

abbrev pub process_document : Document → ℕ → ℕ → CurrentFresh → Outcome CurrentFresh
process_document parse_error now later c = done c
process_document not_object now later c = done c
process_document (object members) now later c =
    process_member (find (codes "uid") members) members now later c

-- `now` and `later` are the times that `set` reads.
unfoldable pub process_kafka :
    (Bytes → Document) → Bytes → ℕ → ℕ → CurrentFresh → Outcome CurrentFresh
process_kafka parse msg now later c = process_document (parse (c_string msg)) now later c

-- `v[i]`, which is undefined past the end.
abbrev pub at_0 : List Bytes → Outcome Bytes
at_0 [] = undefined
at_0 (a ∷ rest) = done a

abbrev pub at_1 : List Bytes → Outcome Bytes
at_1 (a ∷ b ∷ rest) = done b
at_1 _ = undefined

-- A line `name=ip:port`; the port is cut to 16 bits.
unfoldable pub parse_broker : Bytes → Outcome (Bytes × ℕ)
unfolding sepstr atoi_u32
parse_broker line = do
  address ← at_1 (sepstr line (codes "=") false)
  ip ← at_0 (sepstr address (codes ":") false)
  port ← at_1 (sepstr address (codes ":") false)
  done (ip, atoi_u32 port % 2 ^ 16)

unfoldable pub parse_brokers : List Bytes → Outcome (List (Bytes × ℕ))
unfolding parse_broker
parse_brokers [] = done []
parse_brokers (line ∷ lines) = do
  broker ← parse_broker line
  brokers ← parse_brokers lines
  done (broker ∷ brokers)

abbrev or_exit {ℓ} : {A : Type ℓ} → List A → Outcome (List A)
or_exit [] = throws process_exit
or_exit (a ∷ rest) = done (a ∷ rest)

pub record Base : Type 0 where
  pub brokers : List (Bytes × ℕ)
  pub topic : Bytes
  pub group : Bytes

-- `lines` are the lines of the domain /main/fresh/brokers, `conf` gives the other parameters.
unfoldable pub loadbase : List Bytes → (Bytes → Bytes) → Outcome Base
unfolding parse_brokers
loadbase lines conf = do
  parsed ← parse_brokers lines
  brokers ← or_exit parsed
  topic ← or_exit (conf (codes "/main/fresh/[topic]"))
  group ← or_exit (conf (codes "/main/fresh/[group]"))
  done (record { brokers = brokers; topic = topic; group = group })
