-- ===== src/Tests/Wire.antt =====
-- A protocol for the tests: numbers of four bytes, texts with their length in front, a field with its
-- type and number, and a stop byte.
pub mod Kept
use ab_dyeing.Base.{ℕ, zero, suc, ◌+◌, ◌*◌, ◌/◌, ◌%◌, List, [], ◌∷◌, ◌++◌, Bytes, length}
use ab_dyeing.Outcome.{Outcome, done, throws, protocol_exception}
use ab_dyeing.Thrift.{
  TType, t_stop, t_string, t_struct, t_list, t_i32, t_other, TMessageType, t_call, t_reply,
  t_exception, t_message, TProtocol, Read, return, ◌>>=◌, ◌>>◌, read_fields, read_elements,
}

abbrev fail : {A : Type 0} → Read A
fail s = throws protocol_exception

abbrev one : Read ℕ
one [] = throws protocol_exception
one (x ∷ s) = done (x, s)

abbrev number_of : ℕ → ℕ → ℕ → ℕ → ℕ
number_of a b c d = ((a * 256 + b) * 256 + c) * 256 + d

four : Read ℕ
four = do a ← one; b ← one; c ← one; d ← one; return (number_of a b c d)

write_four : ℕ → Bytes
write_four n = n / 16777216 ∷ (n / 65536) % 256 ∷ (n / 256) % 256 ∷ n % 256 ∷ []

bytes : ℕ → Read Bytes
bytes zero = return []
bytes (suc n) = do x ← one; xs ← bytes n; return (x ∷ xs)

text : Read Bytes
text = four >>= bytes

write_text : Bytes → Bytes
write_text s = write_four (length s) ++ s

type_code : TType → ℕ
type_code t_stop = 0
type_code t_i32 = 1
type_code t_string = 2
type_code t_struct = 3
type_code t_list = 4
type_code (t_other k) = suc (suc (suc (suc (suc k))))

type_of : ℕ → TType
type_of zero = t_stop
type_of (suc zero) = t_i32
type_of (suc (suc zero)) = t_string
type_of (suc (suc (suc zero))) = t_struct
type_of (suc (suc (suc (suc zero)))) = t_list
type_of (suc (suc (suc (suc (suc k))))) = t_other k

message_code : TMessageType → ℕ
message_code t_call = 0
message_code t_reply = 1
message_code t_exception = 2
message_code (t_message k) = suc (suc (suc k))

message_of : ℕ → TMessageType
message_of zero = t_call
message_of (suc zero) = t_reply
message_of (suc (suc zero)) = t_exception
message_of (suc (suc (suc k))) = t_message k

after_type : TType → Read (TType × ℕ)
after_type t_stop = return (t_stop, 0)
after_type ty = do id ← one; return (ty, id)

field_head : Read (TType × ℕ)
field_head = do k ← one; after_type (type_of k)

write_head : Bytes → TType → ℕ → Bytes
write_head name ty id = type_code ty ∷ id ∷ []

list_head : Read (TType × ℕ)
list_head = do k ← one; n ← four; return (type_of k, n)

message_head : Read (Bytes × TMessageType × ℕ)
message_head = do k ← one; name ← text; seqid ← four; return (name, message_of k, seqid)

write_message : Bytes → TMessageType → ℕ → Bytes
write_message name ty seqid = message_code ty ∷ (write_text name ++ write_four seqid)

-- A protocol whose `skip` is still to be given.
wire_with : (TType → Read (Unit {0})) → TProtocol
unfolding field_head write_head list_head message_head write_message text write_text four write_four
wire_with skip = record {
  write_message_begin = write_message;
  write_message_end = [];
  write_struct_begin = λ name. [];
  write_struct_end = [];
  write_field_begin = write_head;
  write_field_end = [];
  write_field_stop = 0 ∷ [];
  write_list_begin = λ ty n. type_code ty ∷ write_four n;
  write_list_end = [];
  write_string = write_text;
  write_i32 = write_four;
  write_exception = write_text;
  read_message_begin = message_head;
  read_message_end = return tt;
  read_struct_begin = return tt;
  read_struct_end = return tt;
  read_field_begin = field_head;
  read_field_end = return tt;
  read_list_begin = list_head;
  read_list_end = return tt;
  read_string = text;
  read_i32 = four;
  read_exception = text;
  skip = skip;
}

-- A value is skipped by reading it, to a depth of structs and lists.
skip_list : (TType → Read (Unit {0})) → TType × ℕ → Read (Unit {0})
skip_list skip (ty, n) = do xs ← read_elements (wire_with skip) (skip ty) n; return tt

fail_all : TType → Read (Unit {0})
fail_all ty = fail

skip_value : ℕ → TType → Read (Unit {0})
skip_value zero ty = fail
skip_value (suc d) t_string = do s ← text; return tt
skip_value (suc d) t_i32 = do n ← four; return tt
skip_value (suc d) t_list = list_head >>= skip_list (skip_value d)
skip_value (suc d) t_struct = read_fields (wire_with fail_all) (λ id ty a. skip_value d ty) tt
skip_value (suc d) _ = fail

pub wire : TProtocol
unfolding wire_with
wire = wire_with (skip_value 64)
