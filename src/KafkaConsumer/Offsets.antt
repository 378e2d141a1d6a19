-- ===== src/KafkaConsumer/Offsets.antt =====
-- The saved offsets: what a fetch writes, and what a start reads.
use ab_dyeing.Base.{
  ℕ, zero, suc, ◌≤◌, ◌<◌, ◌≡◌, ◌≢◌, ◌⊎◌, refl, sym, ap, ◌∙◌, Bool, true, false, ◌||◌, some, [], ◌∷◌,
  Bytes, codes, Dict, find, put, find-put, eqb, eqb_iff, eqb_refl, length, length-append, drop,
  length-drop, leb, Bool-cases, inl, inr, arith,
}
use ab_dyeing.Outcome.{done, done-injective}
use ab_dyeing.Util.Decimal.{show}
use ab_dyeing.Util.Decimal.RoundTrip.{Digits, digits, show-Digits}
use ab_dyeing.KafkaConsumer.{
  Consumer, Saved, Fetched, Poll, no_message, unknown_partition_or_topic, partition_eof, poll_error,
  message, zero_ret, minus_one_ret, offset_prefix, read_name, write_name, save_offset, polled,
  fetch_msg,
}

Digits-length : {s : Bytes} → Digits s → 0 < length s
Digits-length (digits c t e _ _) = omega (arith, ap length e)

-- A name that is read is no longer than the literal; a name that is written is longer.
read-ne-write : (p q : ℕ) → drop p offset_prefix ≢ write_name q
read-ne-write p q e =
    let n : 0 < length (show q) = Digits-length (show-Digits q) in
    absurd (
      omega
        (arith, ap length e, length-drop p offset_prefix, length-append offset_prefix (show q), n))

-- The string is the rest of `s` from some byte on.
unfoldable is_tail : Bytes → Bytes → Bool
is_tail t [] = eqb t []
is_tail t (c ∷ s) = eqb t (c ∷ s) || is_tail t s

eqb-drop : (t s : Bytes) (p : ℕ) → is_tail t s ≡ false → eqb t (drop p s) ≡ false
unfolding is_tail
eqb-drop t [] zero h = h
eqb-drop t [] (suc p) h = h
eqb-drop t (c ∷ s) zero h = ground arith
eqb-drop t (c ∷ s) (suc p) h = eqb-drop t s p (ground arith)

-- No name that is read for a partition is that of the file with the highest partition.
read-ne-index : (p : ℕ) → eqb (codes "offset.txt") (drop p offset_prefix) ≡ false
unfolding is_tail eqb
read-ne-index p = eqb-drop (codes "offset.txt") offset_prefix p refl

find-write :
    (p q : ℕ) (v : Bytes) (files : Dict Bytes)
    → find (drop p offset_prefix) (put (write_name q) v files) ≡ find (drop p offset_prefix) files
find-write p q v files =
    let e : eqb (write_name q) (drop p offset_prefix) ≡ false = different in rw (find-put, e)
  where
    different : eqb (write_name q) (drop p offset_prefix) ≡ false
    different = elim (Bool-cases (eqb (write_name q) (drop p offset_prefix))) [
      | inl same ↦ absurd (read-ne-write p q (sym ((eqb_iff _ _).0 same)))
      | inr other ↦ other
    ]

save_offset-drop :
    (tm_hour tm_min partition offset p : ℕ) (s : Saved)
    → find (drop p offset_prefix) (save_offset tm_hour tm_min partition offset s).files
      ≡ find (drop p offset_prefix) s.files
save_offset-drop tm_hour tm_min partition offset p s =
    unfold save_offset in
    ground (
      arith,
      find-write p partition (show offset) s.files,
      find-put (codes "offset.txt") (drop p offset_prefix) (show partition)
          (put (write_name partition) (show offset) s.files),
      read-ne-index p,
    )

-- What a fetch leaves of the files, on every branch.
abbrev SavedOrNot : ℕ → ℕ → Saved → Saved → Type 0
SavedOrNot tm_hour tm_min s s' =
    (s ≡ s')
    ⊎ ((partition : ℕ) × (offset : ℕ) × (save_offset tm_hour tm_min partition offset s ≡ s'))

saved_of : (f g : Fetched) → done f ≡ done g → f.saved ≡ g.saved
saved_of f g h = ap (λ (x : Fetched). x.saved) (done-injective h)

polled-saved :
    (tm_hour tm_min : ℕ) (poll : Poll) (k : Consumer) (s : Saved) (f : Fetched)
    → polled tm_hour tm_min poll k s ≡ done f
    → SavedOrNot tm_hour tm_min s f.saved
unfolding polled
polled-saved tm_hour tm_min no_message k s f h = inl (saved_of _ f h)
polled-saved tm_hour tm_min unknown_partition_or_topic k s f h = cc
polled-saved tm_hour tm_min (partition_eof p o) k s f h = inl (saved_of _ f h)
polled-saved tm_hour tm_min (poll_error t) k s f h = inl (saved_of _ f h)
polled-saved tm_hour tm_min (message p o m) k s f h = inr (p, o, saved_of _ f h)

fetch_msg-started :
    (tm_hour tm_min : ℕ) (poll : Poll) (k : Consumer) (s : Saved)
    → k.inited ≡ true
    → fetch_msg tm_hour tm_min poll k s ≡ polled tm_hour tm_min poll k s
unfolding fetch_msg
fetch_msg-started tm_hour tm_min poll k s e = ground arith

fetch_msg-idle :
    (tm_hour tm_min : ℕ) (poll : Poll) (k : Consumer) (s : Saved)
    → k.inited ≡ false
    → fetch_msg tm_hour tm_min poll k s
      ≡ done (record { ret = minus_one_ret; msg = []; errmsg = k.errmsg; saved = s })
unfolding fetch_msg
fetch_msg-idle tm_hour tm_min poll k s e = ground arith

fetch_msg-saved :
    (tm_hour tm_min : ℕ) (poll : Poll) (k : Consumer) (s : Saved) (f : Fetched)
    → fetch_msg tm_hour tm_min poll k s ≡ done f
    → SavedOrNot tm_hour tm_min s f.saved
fetch_msg-saved tm_hour tm_min poll k s f h = elim (Bool-cases k.inited) [
  | inl e ↦
      polled-saved tm_hour tm_min poll k s f (sym (fetch_msg-started tm_hour tm_min poll k s e) ∙ h)
  | inr e ↦ inl (saved_of _ f (sym (fetch_msg-idle tm_hour tm_min poll k s e) ∙ h))
]

-- No fetch that returns changes a file from which a start reads the offset of a partition: the
-- name is formed by adding the number to a pointer, so the offsets that are saved are never read
-- back.
pub fetch_msg-unread :
    (tm_hour tm_min p : ℕ) (poll : Poll) (k : Consumer) (s : Saved) (f : Fetched) (name : Bytes)
    → read_name p ≡ done name
    → fetch_msg tm_hour tm_min poll k s ≡ done f
    → find name f.saved.files ≡ find name s.files
unfolding read_name
fetch_msg-unread tm_hour tm_min p poll k s f name e h = elim (Bool-cases (leb p 16)) [
  | inl b ↦
      let named : drop p offset_prefix ≡ name = done-injective (rw b at e) in
      rw (← named) (elim (fetch_msg-saved tm_hour tm_min poll k s f h) [
        | inl same ↦ rw (← same)
        | inr (q, o, same) ↦ rw (← same) (save_offset-drop tm_hour tm_min q o p s)
      ])
  | inr b ↦ absurd (ground arith)
]

-- The file with the highest partition holds the highest partition that was saved.
pub record IsSaved (s : Saved) : Type 0 where
  pub highest :
      0 < s.max_partition → find (codes "offset.txt") s.files ≡ some (show s.max_partition)

write-ne-index : (q : ℕ) → eqb (write_name q) (codes "offset.txt") ≡ false
unfolding eqb
write-ne-index q = refl

save_offset-IsSaved :
    (tm_hour tm_min partition offset : ℕ) (s : Saved)
    → IsSaved s
    → IsSaved (save_offset tm_hour tm_min partition offset s)
save_offset-IsSaved tm_hour tm_min partition offset s i =
    unfold save_offset in
    record {
      highest = λ h. ground (
        arith,
        i.highest,
        find-put (write_name partition) (codes "offset.txt") (show offset) s.files,
        find-put (codes "offset.txt") (codes "offset.txt") (show partition)
            (put (write_name partition) (show offset) s.files),
        write-ne-index partition,
        eqb_refl (codes "offset.txt"),
      );
    }

-- A fetch keeps the file "offset.txt" at the highest partition that was saved, and that number
-- never falls. (Partition 0 alone never makes the file.)
pub fetch_msg-IsSaved :
    (tm_hour tm_min : ℕ) (poll : Poll) (k : Consumer) (s : Saved) (f : Fetched)
    → fetch_msg tm_hour tm_min poll k s ≡ done f
    → IsSaved s
    → IsSaved f.saved × (s.max_partition ≤ f.saved.max_partition)
fetch_msg-IsSaved tm_hour tm_min poll k s f h i =
    elim (fetch_msg-saved tm_hour tm_min poll k s f h) [
      | inl same ↦ rw (← same) (i, omega arith)
      | inr (q, o, same) ↦
          rw (← same)
            (save_offset-IsSaved tm_hour tm_min q o s i, unfold save_offset in ground arith)
    ]

-- The result of a fetch: 0 for a message without an error to a consumer that was started, with the
-- payload of the message; otherwise another value and the empty message.
abbrev pub IsResult : Poll → Consumer → Fetched → Type 0
IsResult poll k f =
    ((f.ret ≡ zero_ret) × (k.inited ≡ true) × ((p : ℕ) × (o : ℕ) × (poll ≡ message p o f.msg)))
    ⊎ ((f.ret ≢ zero_ret) × (f.msg ≡ []))

polled-IsResult :
    (tm_hour tm_min : ℕ) (poll : Poll) (k : Consumer) (s : Saved) (f : Fetched)
    → k.inited ≡ true
    → polled tm_hour tm_min poll k s ≡ done f
    → IsResult poll k f
unfolding polled
polled-IsResult tm_hour tm_min no_message k s f e h = inr (ground arith, ground arith)
polled-IsResult tm_hour tm_min unknown_partition_or_topic k s f e h = cc
polled-IsResult tm_hour tm_min (partition_eof p o) k s f e h = inr (ground arith, ground arith)
polled-IsResult tm_hour tm_min (poll_error t) k s f e h = inr (ground arith, ground arith)
polled-IsResult tm_hour tm_min (message p o m) k s f e h =
    inl (ground arith, e, (p, o, ground arith))

-- A fetch that returns gives 0 with the payload of the message, where the consumer is started and
-- the poll has a message without an error; otherwise it gives another value and the empty message.
pub fetch_msg-IsResult :
    (tm_hour tm_min : ℕ) (poll : Poll) (k : Consumer) (s : Saved) (f : Fetched)
    → fetch_msg tm_hour tm_min poll k s ≡ done f
    → IsResult poll k f
fetch_msg-IsResult tm_hour tm_min poll k s f h = elim (Bool-cases k.inited) [
  | inl e ↦
      polled-IsResult tm_hour tm_min poll k s f e
        (sym (fetch_msg-started tm_hour tm_min poll k s e) ∙ h)
  | inr e ↦
      let g = done-injective (sym (fetch_msg-idle tm_hour tm_min poll k s e) ∙ h) in
      inr (ground arith, ground arith)
]
