-- ===== src/KafkaConsumer/Start.antt =====
-- The partition list that a start makes, and when it succeeds.
use ab_dyeing.Base.{
  ℕ, zero, suc, ◌+◌, ◌^◌, ◌≤◌, ◌<◌, ◌≡◌, refl, sym, ap, ◌∙◌, Bool, true, false, Option, none, some,
  List, [], ◌∷◌, ◌++◌, append_assoc, append-nil, Bytes, codes, Dict, drop, is_empty, leb, ltb, ◌==◌,
  if◌then◌else◌, Bool-cases, inl, inr, arith,
}
use ab_dyeing.Outcome.{Outcome, done, undefined, ◌>>=◌, >>=-eq-done}
use ab_dyeing.Util.Decimal.{show, atoi_u32}
use ab_dyeing.Util.Decimal.RoundTrip.{Digits, digits, show-Digits, atoi_u32-show}
use ab_dyeing.KafkaConsumer.{
  Consumer, RdInit, TopicPartition, Started, read_line, read_name, offset_prefix, add_partitions,
  topics, broker_text, subscribed, fails, or_else, init_topics, init,
}

-- The entry of a partition, with the offset of the file that the pointer arithmetic names.
abbrev pub partition_entry : Bytes → Dict Bytes → ℕ → TopicPartition
partition_entry topic files p = record {
  topic = topic;
  partition = some p;
  offset = some (atoi_u32 (read_line (drop p offset_prefix) files));
}

-- The entries of `n` partitions from `p` on.
abbrev pub entries_from : Bytes → Dict Bytes → ℕ → ℕ → List TopicPartition
entries_from topic files zero p = []
entries_from topic files (suc n) p =
    partition_entry topic files p ∷ entries_from topic files n (p + 1)

read_name-done : (p : ℕ) → p ≤ 16 → read_name p ≡ done (drop p offset_prefix)
unfolding read_name
read_name-done p h = ground arith

read_name-undefined : (p : ℕ) → 16 < p → read_name p ≡ undefined
unfolding read_name
read_name-undefined p h = ground arith

module _ (topic : Bytes) (files : Dict Bytes) where
  add_partitions-done :
      (n p : ℕ) (ps : List TopicPartition)
      → p + n ≤ 17
      → add_partitions n p topic files ps ≡ done (ps ++ entries_from topic files n p)
  add_partitions-done zero p ps h = unfold add_partitions in ap done (sym (append-nil ps))
  add_partitions-done (suc n) p ps h =
      step ∙ add_partitions-done n (p + 1) _ (omega arith) ∙ ap done (append_assoc ps _ _)
    where
      step :
          add_partitions (suc n) p topic files ps
          ≡ add_partitions n (p + 1) topic files (ps ++ partition_entry topic files p ∷ [])
      step = unfold add_partitions in rw (read_name-done p (omega arith))

  add_partitions-undefined :
      (n p : ℕ) (ps : List TopicPartition)
      → p ≤ 17
      → 17 < p + n
      → add_partitions n p topic files ps ≡ undefined
  unfolding add_partitions
  add_partitions-undefined zero p ps h k = absurd (omega arith)
  add_partitions-undefined (suc n) p ps h k = elim (Bool-cases (leb p 16)) [
    | inl e ↦
        rw (read_name-done p (ground arith))
          (add_partitions-undefined n (p + 1) _ (ground arith) (omega arith))
    | inr e ↦ rw (read_name-undefined p (ground arith))
  ]

  topics-add :
      (n : ℕ)
      → n < 2 ^ 31
      → read_line (codes "offset.txt") files ≡ show n
      → topics topic files ≡ add_partitions (n + 1) 0 topic files []
  unfolding topics
  topics-add n h e =
      rw (e, filled (show n) (show-Digits n), atoi_u32-show n (omega arith)) (rw small)
    where
      filled : (s : Bytes) → Digits s → is_empty s ≡ false
      filled s (digits c t e _ _) = rw e

      small : ltb n (2 ^ 31) ≡ true
      small = ground arith

  -- With the highest partition `n` saved, up to 16, a start lists the partitions from 0 to `n`.
  pub topics-entries :
      (n : ℕ)
      → n ≤ 16
      → read_line (codes "offset.txt") files ≡ show n
      → topics topic files ≡ done (entries_from topic files (n + 1) 0)
  topics-entries n h e =
      topics-add n (omega arith) e ∙ add_partitions-done (n + 1) 0 [] (omega arith)

  -- With a highest partition saved that is above 16 and fits an `int`, a start moves a pointer past
  -- the end of its literal.
  pub topics-undefined :
      (n : ℕ)
      → 16 < n
      → n < 2 ^ 31
      → read_line (codes "offset.txt") files ≡ show n
      → topics topic files ≡ undefined
  topics-undefined n h k e =
      topics-add n k e ∙ add_partitions-undefined (n + 1) 0 [] (omega arith) (omega arith)

-- What a start returns agrees with what it leaves: it succeeds exactly if the consumer is started.
abbrev Agrees : Outcome Started → Type 0
Agrees o = (st : Started) → o ≡ done st → st.ok ≡ st.consumer.inited

subscribed-Agrees :
    (r : Option Bytes) (k : Consumer) (ts : List TopicPartition)
    → k.inited ≡ false
    → Agrees (subscribed r k ts)
unfolding subscribed
subscribed-Agrees none k ts e st h = ground arith
subscribed-Agrees (some t) k ts e st h = ground arith

fails-Agrees :
    (k : Consumer) (text : Bytes) (ts : List TopicPartition)
    → k.inited ≡ false
    → Agrees (fails k text ts)
fails-Agrees k text ts e st h = ground arith

if-Agrees : (b : Bool) (x y : Outcome Started) → Agrees x → Agrees y → Agrees (if b then x else y)
if-Agrees true x y hx hy = hx
if-Agrees false x y hx hy = hy

or_else-Agrees :
    (r : Option Bytes) (k : Consumer) (next : Outcome Started)
    → k.inited ≡ false
    → Agrees next
    → Agrees (or_else r k next)
or_else-Agrees none k next e a = a
or_else-Agrees (some t) k next e a = fails-Agrees k t [] e

init_topics-Agrees :
    (rd : RdInit) (files : Dict Bytes) (k : Consumer)
    → k.inited ≡ false
    → Agrees (init_topics rd files k)
unfolding init_topics
init_topics-Agrees rd files k e =
    if-Agrees (rd.brokers_add (broker_text k.brokers) == 0)
      (fails k (codes "No valid brokers specified") [])
      (topics k.topic files >>= subscribed rd.subscribe k)
      (fails-Agrees k (codes "No valid brokers specified") [] e)
      (λ st h.
        let (ts, _, rest) = >>=-eq-done (topics k.topic files) (subscribed rd.subscribe k) h in
        subscribed-Agrees rd.subscribe k ts e st rest)

-- An `Init` that returns gives 0 exactly if it leaves the consumer started, whatever the Kafka calls
-- return.
pub init-Started :
    (rd : RdInit) (files : Dict Bytes) (old : Consumer) (st : Started)
    → init rd files old ≡ done st
    → st.ok ≡ st.consumer.inited
unfolding init
init-Started rd files old =
    let k = record old { inited = false } in
    or_else-Agrees rd.group_id k _ refl (
      or_else-Agrees rd.offset_store_method k _ refl
        (or_else-Agrees rd.kafka_new k _ refl (init_topics-Agrees rd files k refl)))
