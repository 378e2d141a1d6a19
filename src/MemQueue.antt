-- ===== src/MemQueue.antt =====
-- `INV_MemQueue` of common/inutil/inv_mem_queue.cpp and util/inv_mem_queue.h: a queue of strings in
-- a piece of memory that outlives the process. `memory` is the area behind the two heads, by the
-- distance from `_paddr`; a `size_t` is stored with its lowest byte first.
pub mod Ring
pub mod Read
pub mod Laid
pub mod Fifo
pub mod Transfer
pub mod Refine
pub mod Counts
pub mod Crash
pub mod Lost
use ab_dyeing.Base.{
  ℕ, zero, suc, ◌+◌, ◌-◌, ◌*◌, ◌/◌, ◌%◌, ◌^◌, Bool, true, false, ◌&&◌, Option, none, some, List, [],
  ◌∷◌, ◌++◌, Bytes, length, ltb, leb, ◌==◌, if◌then◌else◌,
}
use ab_dyeing.Outcome.{Outcome, done, throws, undefined, assertion_failed, ◌>>=◌}

-- The fields of the control block that are changed through the journal.
pub data Field : Type 0 where
  top_index bot_index push_count pop_count : Field

-- The journal: `status` is `_cModifyStatus`, `entries` the first `_iNowIndex` entries.
pub record Queue : Type 0 where
  pub size : ℕ
  pub top : ℕ
  pub bot : ℕ
  pub pushed : ℕ
  pub popped : ℕ
  pub status : ℕ
  pub entries : List (Field × ℕ)
  pub memory : ℕ → ℕ

-- `create` in a fresh piece of memory, whose journal is all zero.
abbrev pub create : ℕ → (ℕ → ℕ) → Queue
create size memory = record {
  size = size;
  top = 0;
  bot = 0;
  pushed = 0;
  popped = 0;
  status = 0;
  entries = [];
  memory = memory;
}

-- Sums and differences of `size_t`.
abbrev pub add64 : ℕ → ℕ → ℕ
add64 a b = (a + b) % 2 ^ 64

abbrev pub sub64 : ℕ → ℕ → ℕ
sub64 a b = (a + 2 ^ 64 - b) % 2 ^ 64

-- `queueSize`: 40 bytes for `CONTROL_BLOCK`, 94 for `tagModifyHead`.
unfoldable pub queue_size : Queue → ℕ
queue_size q = sub64 (sub64 q.size 40) 94

-- One entry of the journal, written to the control block.
abbrev pub write_field : Field → ℕ → Queue → Queue
write_field top_index v q = record q { top = v }
write_field bot_index v q = record q { bot = v }
write_field push_count v q = record q { pushed = v }
write_field pop_count v q = record q { popped = v }

unfoldable pub write_entries : List (Field × ℕ) → Queue → Queue
write_entries [] q = q
write_entries ((f, v) ∷ es) q = write_entries es (write_field f v q)

-- `doUpdate()`: entries that are not yet valid are dropped, valid ones are written.
unfoldable pub do_update : Queue → Queue
unfolding write_entries
do_update q =
    if q.status == 1
    then record q { status = 0; entries = [] }
    else if q.status == 2
    then record (write_entries q.entries q) { status = 0; entries = [] }
    else q

-- `doUpdate(true)`.
unfoldable pub commit : Queue → Queue
unfolding do_update
commit q = do_update (record q { status = 2 })

-- `update`, with its assertion.
unfoldable pub update : Field → ℕ → Queue → Outcome Queue
update f v q =
    if ltb (length q.entries + 1) 5
    then done (record q { status = 1; entries = q.entries ++ (f, v) ∷ [] })
    else throws assertion_failed

-- `isFull`, behind its `doUpdate`.
unfoldable pub is_full : ℕ → Queue → Bool
unfolding queue_size
is_full n q =
    if ltb q.top q.bot
    then leb q.bot (add64 (add64 q.top 8) n)
    else if ltb q.bot q.top
    then leb (add64 q.bot (queue_size q)) (add64 (add64 q.top 8) n)
    else false

abbrev pub is_empty_queue : Queue → Bool
is_empty_queue q = q.top == q.bot

-- `connect`: `_size` has to be the size in the memory.
unfoldable pub connect_memory : ℕ → Queue → Outcome Queue
connect_memory size q = if size == q.size then done q else throws assertion_failed

-- `getFreeSize`, behind its `doUpdate`.
unfoldable pub get_free_size : Queue → ℕ
unfolding queue_size
get_free_size q =
    if ltb q.top q.bot
    then sub64 q.bot q.top
    else if ltb q.bot q.top
    then add64 (sub64 (queue_size q) q.top) q.bot
    else queue_size q

-- `elementCount`, behind its `doUpdate`.
unfoldable pub element_count : Queue → ℕ
element_count q =
    if leb q.popped q.pushed then q.pushed - q.popped else add64 (2 ^ 64 - 1 - q.popped) q.pushed

-- `memcpy` to `dst` of `len` bytes from `from` on.
unfoldable pub copy : ℕ → (ℕ → ℕ) → ℕ → ℕ → (ℕ → ℕ) → ℕ → ℕ
copy dst source from len m a =
    if leb dst a && ltb a (dst + len) then source (from + (a - dst)) else m a

-- The bytes of a `size_t`, and its value.
unfoldable pub size_byte : ℕ → ℕ → ℕ
size_byte n zero = n % 256
size_byte n (suc i) = size_byte (n / 256) i

unfoldable pub value : ℕ → (ℕ → ℕ) → ℕ
value zero f = 0
value (suc k) f = f 0 + 256 * value k (λ i. f (suc i))

-- The bytes of a string.
unfoldable pub byte_at : Bytes → ℕ → ℕ
byte_at [] i = 0
byte_at (c ∷ s) zero = c
byte_at (c ∷ s) (suc i) = byte_at s i

-- `assign(p, len)`.
unfoldable pub read_bytes : ℕ → (ℕ → ℕ) → Bytes
read_bytes zero f = []
read_bytes (suc n) f = f 0 ∷ read_bytes n (λ i. f (suc i))

-- Bytes up to `last` lie in the area of `size` bytes.
abbrev pub in_area {ℓ} : {A : Type ℓ} → ℕ → ℕ → A → Outcome A
in_area last size a = if leb last size then done a else undefined

-- The writes of `push_back` and the new top: the frame stands in one piece, or its size is cut at
-- the end of the area, or its bytes are. A copy of no bytes, which the code skips, changes nothing.
unfoldable pub write_frame : Bytes → ℕ → ℕ → (ℕ → ℕ) → Outcome ((ℕ → ℕ) × ℕ)
unfolding copy size_byte byte_at
write_frame x top size m =
    let n = length x in
    let left = sub64 size top in
    if leb (add64 (add64 top 8) n) size
    then in_area (top + 8 + n) size
        (copy (top + 8) (byte_at x) 0 n (copy top (size_byte n) 0 8 m), add64 (add64 top 8) n)
    else if ltb left 8
    then in_area (8 - left + n) size (
      copy (8 - left) (byte_at x) 0 n
          (copy 0 (size_byte n) left (8 - left) (copy top (size_byte n) 0 left m)),
      sub64 (add64 n 8) left,
    )
    else in_area (n - (left - 8)) size (
      copy 0 (byte_at x) (left - 8) (n - (left - 8))
          (copy (top + 8) (byte_at x) 0 (left - 8) (copy top (size_byte n) 0 8 m)),
      sub64 n (left - 8),
    )

-- The two entries of the journal of `push_back`, up to the commit.
unfoldable pub log_push : Queue → (ℕ → ℕ) × ℕ → Outcome Queue
unfolding update
log_push q w = do
  a ← update top_index (w.1) (record q { memory = w.0 })
  update push_count (add64 a.pushed 1) a

abbrev pub pushed_back : Queue → Outcome (Bool × Queue)
pushed_back q = done (true, commit q)

unfoldable pub push_settled : Bytes → Queue → Outcome (Bool × Queue)
unfolding is_full write_frame log_push commit queue_size
push_settled x q =
    if is_full (length x) q
    then done (false, q)
    else ((write_frame x q.top (queue_size q) q.memory >>= log_push q) >>= pushed_back)

-- `push_back`: whether the string was taken.
unfoldable pub push_back : Bytes → Queue → Outcome (Bool × Queue)
unfolding do_update push_settled
push_back x q = push_settled x (do_update q)

-- The string that `pop_front` reads and the new bottom.
unfoldable pub read_frame : ℕ → ℕ → (ℕ → ℕ) → Outcome (Bytes × ℕ)
unfolding value read_bytes
read_frame bot size m =
    let whole = value 8 (λ i. m (bot + i)) in
    let rest = sub64 (sub64 size bot) 8 in
    let left = sub64 size bot in
    let cut = value 8 (λ i. if ltb i left then m (bot + i) else m (i - left)) in
    if leb (add64 bot 8) size
    then (if leb (add64 (add64 bot 8) whole) size
        then in_area (bot + 8 + whole) size
            (read_bytes whole (λ i. m (bot + 8 + i)), add64 (add64 bot 8) whole)
        else in_area (whole - rest) size (
          read_bytes rest (λ i. m (bot + 8 + i)) ++ read_bytes (whole - rest) m,
          sub64 whole rest,
        ))
    else in_area (8 - left + cut) size
        (read_bytes cut (λ i. m (8 - left + i)), sub64 (add64 cut 8) left)

unfoldable pub log_pop : Queue → Bytes × ℕ → Outcome (Bytes × Queue)
unfolding update
log_pop q w = do
  a ← update bot_index (w.1) q
  b ← update pop_count (add64 a.popped 1) a
  done (w.0, b)

abbrev pub popped_front : Bytes × Queue → Outcome (Option Bytes × Queue)
popped_front (x, q) = done (some x, commit q)

unfoldable pub pop_settled : Queue → Outcome (Option Bytes × Queue)
unfolding read_frame log_pop commit queue_size
pop_settled q =
    if is_empty_queue q
    then done (none, q)
    else ((read_frame q.bot (queue_size q) q.memory >>= log_pop q) >>= popped_front)

-- `pop_front`: the string, or `none` where it returns false.
unfoldable pub pop_front : Queue → Outcome (Option Bytes × Queue)
unfolding do_update pop_settled
pop_front q = pop_settled (do_update q)
