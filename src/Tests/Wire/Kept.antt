-- ===== src/Tests/Wire/Kept.antt =====
-- The protocol of the tests keeps the promises of Thrift/Laws.
use ab_dyeing.Base.{
  ℕ, zero, suc, ◌+◌, ◌/◌, ◌%◌, ◌≡◌, ◌≢◌, refl, ap, ◌≤◌, arith, [], ◌∷◌, ◌++◌, append_assoc, Bytes,
  length,
}
use ab_dyeing.Outcome.{Outcome, done, throws, undefined, Ensures}
use ab_dyeing.Thrift.{
  TType, t_stop, t_string, t_struct, t_list, t_i32, t_other, TMessageType, t_call, t_reply,
  t_exception, t_message, Read,
}
use ab_dyeing.Thrift.Laws.{Reads, Consumes, IsSize, IsText, IsProtocol, IsConsuming}
use ab_dyeing.Thrift.Laws.Written.{>>=-Reads}
use ab_dyeing.Thrift.Laws.Consumed.{
  >>=-Consumes, return-Consumes, read_fields-Consumes, read_elements-Consumes,
}
use ab_dyeing.Tests.Wire.{
  one, number_of, four, write_four, bytes, text, write_text, type_code, type_of, message_code,
  message_of, after_type, field_head, write_head, list_head, message_head, write_message, wire_with,
  skip_list, fail_all, skip_value, wire,
}

four-Reads : (n : ℕ) → IsSize n → Reads four n (write_four n)
unfolding four write_four
four-Reads n h rest =
    let e : number_of (n / 16777216) ((n / 65536) % 256) ((n / 256) % 256) (n % 256) ≡ n =
      omega arith in
    ap (λ (k : ℕ). done (k, rest)) e

one-Consumes : Consumes one
one-Consumes [] = tt
one-Consumes (x ∷ s) = omega arith

four-Consumes : Consumes four
unfolding four
four-Consumes = >>=-Consumes one _ one-Consumes λ a. >>=-Consumes one _ one-Consumes λ b.
    >>=-Consumes one _ one-Consumes
      λ c. >>=-Consumes one _ one-Consumes λ d. return-Consumes (number_of a b c d)

bytes-Reads : (xs : Bytes) → Reads (bytes (length xs)) xs xs
unfolding bytes
bytes-Reads [] rest = refl
bytes-Reads (x ∷ xs) rest = rw (bytes-Reads xs rest) refl

bytes-Consumes : (n : ℕ) → Consumes (bytes n)
unfolding bytes
bytes-Consumes zero = return-Consumes {A = Bytes} []
bytes-Consumes (suc n) =
    >>=-Consumes one _ one-Consumes
      λ x. >>=-Consumes (bytes n) _ (bytes-Consumes n) λ xs. return-Consumes (x ∷ xs)

text-Reads : (s : Bytes) → IsText s → Reads text s (write_text s)
unfolding text write_text
text-Reads s h =
    >>=-Reads four bytes (write_four (length s)) s (four-Reads (length s) h) (bytes-Reads s)

text-Consumes : Consumes text
unfolding text
text-Consumes = >>=-Consumes four bytes four-Consumes bytes-Consumes

type_of-code : (t : TType) → type_of (type_code t) ≡ t
unfolding type_of type_code
type_of-code t_stop = refl
type_of-code t_i32 = refl
type_of-code t_string = refl
type_of-code t_struct = refl
type_of-code t_list = refl
type_of-code (t_other k) = refl

message_of-code : (t : TMessageType) → message_of (message_code t) ≡ t
unfolding message_of message_code
message_of-code t_call = refl
message_of-code t_reply = refl
message_of-code t_exception = refl
message_of-code (t_message k) = refl

after_type-Reads : (ty : TType) (id : ℕ) → ty ≢ t_stop → Reads (after_type ty) (ty, id) (id ∷ [])
unfolding after_type
after_type-Reads t_stop id ne rest = absurd (ne refl)
after_type-Reads t_string id ne rest = refl
after_type-Reads t_struct id ne rest = refl
after_type-Reads t_list id ne rest = refl
after_type-Reads t_i32 id ne rest = refl
after_type-Reads (t_other k) id ne rest = refl

after_type-Consumes : (ty : TType) → Consumes (after_type ty)
unfolding after_type
after_type-Consumes t_stop = return-Consumes {A = TType × ℕ} (t_stop, 0)
after_type-Consumes t_string =
    >>=-Consumes one _ one-Consumes λ id. return-Consumes {A = TType × ℕ} (t_string, id)
after_type-Consumes t_struct =
    >>=-Consumes one _ one-Consumes λ id. return-Consumes {A = TType × ℕ} (t_struct, id)
after_type-Consumes t_list =
    >>=-Consumes one _ one-Consumes λ id. return-Consumes {A = TType × ℕ} (t_list, id)
after_type-Consumes t_i32 =
    >>=-Consumes one _ one-Consumes λ id. return-Consumes {A = TType × ℕ} (t_i32, id)
after_type-Consumes (t_other k) =
    >>=-Consumes one _ one-Consumes λ id. return-Consumes {A = TType × ℕ} (t_other k, id)

message_head-Reads :
    (name : Bytes) (ty : TMessageType) (seqid : ℕ)
    → IsText name
    → IsSize seqid
    → Reads message_head (name, ty, seqid) (write_message name ty seqid)
unfolding message_head write_message
message_head-Reads name ty seqid h k rest =
    rw
      (
        append_assoc (write_text name) (write_four seqid) rest,
        text-Reads name h (write_four seqid ++ rest),
        four-Reads seqid k rest,
        message_of-code ty,
      )
      refl

list_head-Reads :
    (ty : TType) (n : ℕ) → IsSize n → Reads list_head (ty, n) (type_code ty ∷ write_four n)
unfolding list_head
list_head-Reads ty n h rest = rw (four-Reads n h rest, type_of-code ty) refl

field_head-Reads :
    (name : Bytes) (ty : TType) (id : ℕ)
    → ty ≢ t_stop
    → Reads field_head (ty, id) (write_head name ty id)
unfolding field_head write_head
field_head-Reads name ty id ne rest = rw (type_of-code ty) (after_type-Reads ty id ne rest)

list_head-Consumes : Consumes list_head
unfolding list_head
list_head-Consumes =
    >>=-Consumes one _ one-Consumes
      λ k. >>=-Consumes four _ four-Consumes λ n. return-Consumes {A = TType × ℕ} (type_of k, n)

-- A field takes a byte at least.
field_head-Consumes : (s : Bytes) → Ensures (λ r. length (r.1) + 1 ≤ length s) (field_head s)
unfolding field_head
field_head-Consumes [] = tt
field_head-Consumes (k ∷ s) = shift (after_type (type_of k) s) (after_type-Consumes (type_of k) s)
  where
    shift :
        (o : Outcome ((TType × ℕ) × Bytes))
        → Ensures (λ r. length (r.1) ≤ length s) o
        → Ensures (λ r. length (r.1) + 1 ≤ suc (length s)) o
    shift (done r) h = omega arith
    shift (throws e) h = tt
    shift undefined h = h

module _ (skip : TType → Read (Unit {0})) where
  wire_with-IsProtocol : IsProtocol (wire_with skip)
  unfolding wire_with after_type type_of
  wire_with-IsProtocol = record {
    message_begin = message_head-Reads;
    message_end = λ rest. refl;
    struct_begin = λ name rest. refl;
    struct_end = λ rest. refl;
    field_begin = λ name ty id ne le. field_head-Reads name ty id ne;
    field_end = λ rest. refl;
    field_stop = stop;
    list_begin = list_head-Reads;
    list_end = λ rest. refl;
    string = text-Reads;
    i32 = four-Reads;
    exception = text-Reads;
  }
    where
      stop : Reads field_head (t_stop, 0) (0 ∷ [])
      stop rest = refl

  wire_with-IsConsuming : ((ty : TType) → Consumes (skip ty)) → IsConsuming (wire_with skip)
  unfolding wire_with
  wire_with-IsConsuming h = record {
    message_end = return-Consumes tt;
    struct_begin = return-Consumes tt;
    struct_end = return-Consumes tt;
    field_begin = field_head-Consumes;
    field_end = return-Consumes tt;
    list_begin = list_head-Consumes;
    list_end = return-Consumes tt;
    string = text-Consumes;
    i32 = four-Consumes;
    skip = h;
  }

fail_all-Consumes : (ty : TType) → Consumes (fail_all ty)
unfolding fail_all
fail_all-Consumes ty s = tt

skip_value-Consumes : (d : ℕ) (ty : TType) → Consumes (skip_value d ty)
unfolding skip_value skip_list
skip_value-Consumes zero ty = λ s. tt
skip_value-Consumes (suc d) t_string = >>=-Consumes text _ text-Consumes λ s. return-Consumes tt
skip_value-Consumes (suc d) t_i32 = >>=-Consumes four _ four-Consumes λ n. return-Consumes tt
skip_value-Consumes (suc d) t_list = >>=-Consumes list_head _ list_head-Consumes λ (ty, n).
    >>=-Consumes _ _
      (read_elements-Consumes (wire_with-IsConsuming (skip_value d) (skip_value-Consumes d))
        (skip_value d ty) (skip_value-Consumes d ty) n)
      λ xs. return-Consumes tt
skip_value-Consumes (suc d) t_struct =
    read_fields-Consumes (wire_with-IsConsuming fail_all fail_all-Consumes)
      (λ id ty a. skip_value d ty) tt (λ id ty a. skip_value-Consumes d ty)
skip_value-Consumes (suc d) t_stop = λ s. tt
skip_value-Consumes (suc d) (t_other k) = λ s. tt

pub wire-IsProtocol : IsProtocol wire
unfolding wire
wire-IsProtocol = wire_with-IsProtocol (skip_value 64)

pub wire-IsConsuming : IsConsuming wire
unfolding wire
wire-IsConsuming = wire_with-IsConsuming (skip_value 64) (skip_value-Consumes 64)
