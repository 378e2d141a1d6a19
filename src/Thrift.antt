-- ===== src/Thrift.antt =====
-- What the generated code of proto/gen-cpp uses of the Thrift library, which is not in the
-- repository: the calls of TProtocol, and the two loops that the generated `read`s are made of.
pub mod Laws
use ab_dyeing.Base.{
  ℕ, zero, suc, Bool, true, false, List, [], ◌∷◌, ◌++◌, Bytes, length, if◌then◌else◌,
}
use ab_dyeing.Outcome.{Outcome, done, throws, undefined, protocol_exception}
use ab_dyeing.Outcome

-- The wire types that the messages use; `t_other` stands for the rest of `TType`.
pub data TType : Type 0 where
  t_stop t_string t_struct t_list t_i32 : TType
  t_other : ℕ → TType

unfoldable pub is_string : TType → Bool
is_string t_string = true
is_string _ = false

unfoldable pub is_struct : TType → Bool
is_struct t_struct = true
is_struct _ = false

unfoldable pub is_list : TType → Bool
is_list t_list = true
is_list _ = false

unfoldable pub is_i32 : TType → Bool
is_i32 t_i32 = true
is_i32 _ = false

pub data TMessageType : Type 0 where
  t_call t_reply t_exception : TMessageType
  t_message : ℕ → TMessageType

-- A read takes a value off the front of the bytes that have come in.
abbrev pub Read : Type 0 → Type 0
Read A = Bytes → Outcome (A × Bytes)

abbrev pub return : {A : Type 0} → A → Read A
return a s = done (a, s)

-- `if (!isset_…) throw TProtocolException(TProtocolException::INVALID_DATA)`.
unfoldable pub required : Bool → Read (Unit {0})
required true s = done (tt, s)
required false s = throws protocol_exception

abbrev pub resume : {A B : Type 0} → (A → Read B) → A × Bytes → Outcome (B × Bytes)
resume f (a, s) = f a s

infixl 5 ◌>>=◌ ◌>>◌
abbrev pub ◌>>=◌ : {A B : Type 0} → Read A → (A → Read B) → Read B
◌>>=◌ m f s = Outcome.◌>>=◌ (m s) (resume f)

abbrev pub ◌>>◌ : {B : Type 0} → Read (Unit {0}) → Read B → Read B
m >> k = m >>= λ _. k

-- `TProtocol` over a transport of bytes: what each call of `write` puts on it, and what each call
-- of `read` takes off it. The counts of bytes that the calls return are left out.
pub record TProtocol : Type 0 where
  pub write_message_begin : Bytes → TMessageType → ℕ → Bytes
  pub write_message_end : Bytes
  pub write_struct_begin : Bytes → Bytes
  pub write_struct_end : Bytes
  pub write_field_begin : Bytes → TType → ℕ → Bytes
  pub write_field_end : Bytes
  pub write_field_stop : Bytes
  pub write_list_begin : TType → ℕ → Bytes
  pub write_list_end : Bytes
  pub write_string : Bytes → Bytes
  pub write_i32 : ℕ → Bytes
  -- `TApplicationException::write`, of the exception with this text.
  pub write_exception : Bytes → Bytes
  pub read_message_begin : Read (Bytes × TMessageType × ℕ)
  pub read_message_end : Read (Unit {0})
  pub read_struct_begin : Read (Unit {0})
  pub read_struct_end : Read (Unit {0})
  pub read_field_begin : Read (TType × ℕ)
  pub read_field_end : Read (Unit {0})
  pub read_list_begin : Read (TType × ℕ)
  pub read_list_end : Read (Unit {0})
  pub read_string : Read Bytes
  pub read_i32 : Read ℕ
  pub read_exception : Read Bytes
  pub skip : TType → Read (Unit {0})

-- The switch of a `read`: what is done with a field of a type and a number.
abbrev pub Switch : Type 0 → Type 0
Switch A = ℕ → TType → A → Read A

module _ (p : TProtocol) where
  open p use {read_field_begin, read_field_end, read_list_begin, read_list_end, skip}

  -- The switch, `readFieldEnd`, and the next round.
  unfoldable pub one_field : {A : Type 0} → (A → Read A) → Switch A → A → ℕ → TType → Read A
  one_field again on a id ty = do a' ← on id ty a; read_field_end; again a'

  -- A round of the loop after `readFieldBegin`: the loop ends at `T_STOP`.
  unfoldable pub after_field : {A : Type 0} → (A → Read A) → Switch A → A → TType × ℕ → Read A
  unfolding one_field
  after_field again on a (t_stop, id) = return a
  after_field again on a (ty, id) = one_field again on a id ty

  -- `while (true)` over the fields of a struct, with fuel.
  unfoldable pub field_rounds : {A : Type 0} → ℕ → Switch A → A → Read A
  unfolding after_field
  field_rounds zero on a s = undefined
  field_rounds (suc n) on a s = (read_field_begin >>= after_field (field_rounds n on) on a) s

  -- A field takes a byte at least, so the bytes that are there are fuel enough.
  unfoldable pub read_fields : {A : Type 0} → Switch A → A → Read A
  unfolding field_rounds
  read_fields on a s = field_rounds (suc (length s)) on a s

  -- A struct: its head, its fields, its end, and the tests behind it.
  unfoldable pub read_struct : {A B : Type 0} → Switch A → A → (A → Read B) → Read B
  unfolding read_fields
  read_struct on a finish = do
    p.read_struct_begin
    a' ← read_fields on a
    p.read_struct_end
    finish a'

  -- `skip(ftype)`, which leaves what has been read so far as it is.
  unfoldable pub skip_field : {A : Type 0} → TType → A → Read A
  skip_field ty a = do skip ty; return a

  -- A field that is read where its type is the right one, and skipped where it is not.
  unfoldable pub field_of : {A V : Type 0} → Bool → Read V → (V → A) → TType → A → Read A
  unfolding skip_field
  field_of right read set ty a = if right then (do v ← read; return (set v)) else skip_field ty a

  -- `for (i = 0; i < size; ++i)` over the elements of a list.
  unfoldable pub read_elements : {A : Type 0} → Read A → ℕ → Read (List A)
  read_elements elem zero = return []
  read_elements elem (suc n) = do a ← elem; as' ← read_elements elem n; return (a ∷ as')

  -- The elements and the end of a list, after its head.
  unfoldable pub after_list : {A : Type 0} → Read A → TType × ℕ → Read (List A)
  unfolding read_elements
  after_list elem (ty, n) = do xs ← read_elements elem n; read_list_end; return xs

  unfoldable pub read_list : {A : Type 0} → Read A → Read (List A)
  unfolding after_list
  read_list elem = read_list_begin >>= after_list elem

-- The elements of a list, one after another.
unfoldable pub write_elements : {A : Type 0} → (A → Bytes) → List A → Bytes
write_elements elem [] = []
write_elements elem (x ∷ xs) = elem x ++ write_elements elem xs

module _ (p : TProtocol) where
  unfoldable pub write_list : {A : Type 0} → TType → (A → Bytes) → List A → Bytes
  unfolding write_elements
  write_list ty elem xs =
      p.write_list_begin ty (length xs) ++ (write_elements elem xs ++ p.write_list_end)

  -- A field with its head and its end.
  unfoldable pub write_member : Bytes → TType → ℕ → Bytes → Bytes
  write_member name ty id body = p.write_field_begin name ty id ++ (body ++ p.write_field_end)

  -- A struct with its head and its end; `fields` ends with `writeFieldStop`.
  unfoldable pub write_struct : Bytes → Bytes → Bytes
  write_struct name fields = p.write_struct_begin name ++ (fields ++ p.write_struct_end)
