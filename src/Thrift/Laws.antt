-- ===== src/Thrift/Laws.antt =====
-- What the generated code relies on in the Thrift library: a protocol reads back what it writes, and
-- a read leaves no more bytes than there were; and how these promises pass through the loops.
pub mod Written
pub mod Consumed
mod Enough
use ab_dyeing.Base.{ℕ, ◌+◌, ◌≤◌, ◌<◌, ◌≡◌, ◌≢◌, ◌++◌, List, Bytes, length}
use ab_dyeing.Outcome.{Ensures, done}
use ab_dyeing.Thrift.{TType, t_stop, TMessageType, TProtocol, Read}

-- The read gives the value from these bytes, and leaves what is behind them.
abbrev pub Reads : {A : Type 0} → Read A → A → Bytes → Type 0
Reads m a bytes = (rest : Bytes) → m (bytes ++ rest) ≡ done (a, rest)

-- On all bytes the read throws, or returns with no more bytes left than there were.
abbrev pub Consumes : {A : Type 0} → Read A → Type 0
Consumes m = (s : Bytes) → Ensures (λ r. length (r.1) ≤ length s) (m s)

-- A size that the wire can carry: it is sent as an `int32_t`.
abbrev pub IsSize : ℕ → Type 0
IsSize n = n < 2147483648

-- A text that can be sent.
abbrev pub IsText : Bytes → Type 0
IsText b = IsSize (length b)

-- A list that can be sent.
abbrev pub IsShort : {A : Type 0} → List A → Type 0
IsShort xs = IsSize (length xs)

-- The documented behaviour of a protocol.
pub record IsProtocol (p : TProtocol) : Type 0 where
  pub message_begin :
      (name : Bytes) (ty : TMessageType) (seqid : ℕ)
      → IsText name
      → IsSize seqid
      → Reads p.read_message_begin (name, ty, seqid) (p.write_message_begin name ty seqid)
  pub message_end : Reads p.read_message_end tt p.write_message_end
  pub struct_begin : (name : Bytes) → Reads p.read_struct_begin tt (p.write_struct_begin name)
  pub struct_end : Reads p.read_struct_end tt p.write_struct_end
  pub field_begin :
      (name : Bytes) (ty : TType) (id : ℕ)
      → ty ≢ t_stop
      → id < 32768
      → Reads p.read_field_begin (ty, id) (p.write_field_begin name ty id)
  pub field_end : Reads p.read_field_end tt p.write_field_end
  pub field_stop : Reads p.read_field_begin (t_stop, 0) p.write_field_stop
  pub list_begin :
      (ty : TType) (n : ℕ) → IsSize n → Reads p.read_list_begin (ty, n) (p.write_list_begin ty n)
  pub list_end : Reads p.read_list_end tt p.write_list_end
  pub string : (s : Bytes) → IsText s → Reads p.read_string s (p.write_string s)
  pub i32 : (n : ℕ) → IsSize n → Reads p.read_i32 n (p.write_i32 n)
  pub exception : (s : Bytes) → IsText s → Reads p.read_exception s (p.write_exception s)

-- A read of the library never leaves defined behaviour, and puts no bytes back; the head of a
-- field takes one at least.
pub record IsConsuming (p : TProtocol) : Type 0 where
  pub message_end : Consumes p.read_message_end
  pub struct_begin : Consumes p.read_struct_begin
  pub struct_end : Consumes p.read_struct_end
  pub field_begin : (s : Bytes) → Ensures (λ r. length (r.1) + 1 ≤ length s) (p.read_field_begin s)
  pub field_end : Consumes p.read_field_end
  pub list_begin : Consumes p.read_list_begin
  pub list_end : Consumes p.read_list_end
  pub string : Consumes p.read_string
  pub i32 : Consumes p.read_i32
  pub skip : (ty : TType) → Consumes (p.skip ty)
