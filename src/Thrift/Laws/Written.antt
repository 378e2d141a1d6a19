-- ===== src/Thrift/Laws/Written.antt =====
-- What is written is read back: how this passes through a chain of reads and through the loops.
use ab_dyeing.Base.{
  Bool, true, false, if◌then◌else◌, ℕ, suc, ◌<◌, ◌≡◌, ◌≢◌, refl, ap, ◌∙◌, List, [], ◌∷◌, ◌++◌,
  append_assoc, All, Bytes, length,
}
use ab_dyeing.Thrift.{
  TType, t_stop, t_string, t_struct, t_list, t_i32, t_other, TProtocol, Read, Switch, return, ◌>>=◌,
  one_field, after_field, field_rounds, field_of, read_elements, after_list, read_list,
  write_elements, write_list, write_member, read_struct, write_struct,
}
use ab_dyeing.Thrift.Laws.{Reads, Consumes, IsShort, IsProtocol, IsConsuming}
use ab_dyeing.Thrift.Laws.Enough.{read_fields-Reads}

pub return-Reads : {A : Type 0} (a : A) → Reads (return a) a []
return-Reads a rest = refl

-- A chain of two reads, of the bytes of the one and then of the other.
pub >>=-Reads :
    {A B : Type 0} (m : Read A) (f : A → Read B) {a : A} {b : B} (xs ys : Bytes)
    → Reads m a xs
    → Reads (f a) b ys
    → Reads (m >>= f) b (xs ++ ys)
>>=-Reads m f xs ys hm hf rest = rw (append_assoc xs ys rest, hm (ys ++ rest)) (hf rest)

-- A chain whose second part takes nothing.
pub >>=-Reads_last :
    {A B : Type 0} (m : Read A) (f : A → Read B) {a : A} {b : B} (xs : Bytes)
    → Reads m a xs
    → Reads (f a) b []
    → Reads (m >>= f) b xs
>>=-Reads_last m f xs hm hf rest = rw (hm rest) (hf rest)

-- The rounds of a field that is there or not, and of those behind it.
abbrev pub rounds_with : Bool → ℕ → ℕ
rounds_with true n = suc n
rounds_with false n = n

module _ (p : TProtocol) where
  pub field_of-Reads :
      {A V : Type 0} (read : Read V) (set : V → A) (ty : TType) (a : A) {v : V} (bytes : Bytes)
      → Reads read v bytes
      → Reads (field_of p true read set ty a) (set v) bytes
  unfolding field_of
  field_of-Reads read set ty a {v} bytes h = >>=-Reads_last read _ bytes h (return-Reads (set v))

module _ {p : TProtocol} (w : IsProtocol p) where
  read_elements-Reads :
      {A : Type 0} (elem : Read A) (write : A → Bytes) (xs : List A)
      → All (λ x. Reads elem x (write x)) xs
      → Reads (read_elements p elem (length xs)) xs (write_elements write xs)
  unfolding read_elements write_elements
  read_elements-Reads {A} elem write [] h = return-Reads {A = List A} []
  read_elements-Reads elem write (x ∷ xs) h =
      >>=-Reads elem _ (write x) (write_elements write xs) (h.0) (
        >>=-Reads_last (read_elements p elem (length xs)) _ (write_elements write xs)
          (read_elements-Reads elem write xs (h.1)) (return-Reads (x ∷ xs)))

  pub read_list-Reads :
      {A : Type 0} (elem : Read A) (write : A → Bytes) (ty : TType) (xs : List A)
      → IsShort xs
      → All (λ x. Reads elem x (write x)) xs
      → Reads (read_list p elem) xs (write_list p ty write xs)
  unfolding read_list after_list write_list
  read_list-Reads elem write ty xs small h =
      let bytes = write_elements write xs in
      >>=-Reads p.read_list_begin _ (p.write_list_begin ty (length xs)) (bytes ++ p.write_list_end)
        (w.list_begin ty (length xs) small)
        (>>=-Reads (read_elements p elem (length xs)) _ bytes p.write_list_end
          (read_elements-Reads elem write xs h)
          (>>=-Reads_last p.read_list_end _ p.write_list_end w.list_end (return-Reads xs)))

  -- A field that is not the end: its switch, its end, and the rounds_with behind it.
  one_field-Reads :
      {A : Type 0} (again : A → Read A) (on : Switch A) (a : A) {a' b : A} (id : ℕ) (ty : TType)
      (body more : Bytes)
      → Reads (on id ty a) a' body
      → Reads (again a') b more
      → Reads (one_field p again on a id ty) b (body ++ (p.write_field_end ++ more))
  unfolding one_field
  one_field-Reads again on a {a'} id ty body more hon hagain =
      >>=-Reads (on id ty a) _ body (p.write_field_end ++ more) hon
        (>>=-Reads p.read_field_end _ p.write_field_end more w.field_end hagain)

  after_field-Reads :
      {A : Type 0} (again : A → Read A) (on : Switch A) (a : A) (ty : TType) (id : ℕ)
      → ty ≢ t_stop
      → (s : Bytes) → after_field p again on a (ty, id) s ≡ one_field p again on a id ty s
  unfolding after_field
  after_field-Reads again on a t_stop id ne s = absurd (ne refl)
  after_field-Reads again on a t_string id ne s = refl
  after_field-Reads again on a t_struct id ne s = refl
  after_field-Reads again on a t_list id ne s = refl
  after_field-Reads again on a t_i32 id ne s = refl
  after_field-Reads again on a (t_other k) id ne s = refl

  pub field_rounds-Reads_stop :
      {A : Type 0} (on : Switch A) (n : ℕ) (a : A)
      → Reads (field_rounds p (suc n) on a) a p.write_field_stop
  unfolding field_rounds after_field
  field_rounds-Reads_stop on n a =
      >>=-Reads_last p.read_field_begin _ p.write_field_stop w.field_stop (return-Reads a)

  -- The bytes of a field, then those of the fields behind it.
  pub field_rounds-Reads_field :
      {A : Type 0} (on : Switch A) (n : ℕ) (a : A) {a' b : A} (name : Bytes) (ty : TType) (id : ℕ)
      (body more : Bytes)
      → ty ≢ t_stop
      → id < 32768
      → Reads (on id ty a) a' body
      → Reads (field_rounds p n on a') b more
      → Reads (field_rounds p (suc n) on a) b (write_member p name ty id body ++ more)
  unfolding field_rounds write_member
  field_rounds-Reads_field on n a name ty id body more ne le hon hmore rest =
      let head = p.write_field_begin name ty id in
      let flat : (head ++ (body ++ p.write_field_end)) ++ more
          ≡ head ++ (body ++ (p.write_field_end ++ more)) =
        append_assoc head (body ++ p.write_field_end) more
        ∙ ap (λ t. head ++ t) (append_assoc body p.write_field_end more) in
      rw flat (
        >>=-Reads p.read_field_begin _ head (body ++ (p.write_field_end ++ more))
          (w.field_begin name ty id ne le)
          (λ tl.
            after_field-Reads (field_rounds p n on) on a ty id ne
              ((body ++ (p.write_field_end ++ more)) ++ tl)
            ∙ one_field-Reads (field_rounds p n on) on a id ty body more hon hmore tl)
          rest)

  -- A struct whose fields are read by the loop, with any fuel, comes to what is done at its end.
  pub read_struct_lem :
      {A B : Type 0} (on : Switch A) (finish : A → Read B) (n : ℕ) (a a' : A)
      (name fields rest : Bytes)
      → IsConsuming p
      → ((id : ℕ) (ty : TType) (a : A) → Consumes (on id ty a))
      → Reads (field_rounds p n on a) a' fields
      → read_struct p on a finish (write_struct p name fields ++ rest) ≡ finish a' rest
  unfolding read_struct write_struct
  read_struct_lem on finish n a a' name fields rest c hon hf =
      rw
        (
          append_assoc (p.write_struct_begin name) (fields ++ p.write_struct_end) rest,
          w.struct_begin name ((fields ++ p.write_struct_end) ++ rest),
          append_assoc fields p.write_struct_end rest,
          read_fields-Reads c on hon n a fields hf (p.write_struct_end ++ rest),
          w.struct_end rest,
        )
        refl

  pub read_struct-Reads :
      {A B : Type 0} (on : Switch A) (finish : A → Read B) (n : ℕ) (a : A) {a' : A} {b : B}
      (name fields : Bytes)
      → IsConsuming p
      → ((id : ℕ) (ty : TType) (a : A) → Consumes (on id ty a))
      → Reads (field_rounds p n on a) a' fields
      → Reads (finish a') b []
      → Reads (read_struct p on a finish) b (write_struct p name fields)
  read_struct-Reads on finish n a {a'} name fields c hon hf hend rest =
      read_struct_lem on finish n a a' name fields rest c hon hf ∙ hend rest

  -- A field that is there or not, from which the loop goes on with the state `a''`.
  pub field_rounds-Reads_option :
      {A : Type 0} (on : Switch A) (there : Bool) (n : ℕ) (a : A) {a' b : A} (a'' : A)
      (name : Bytes) (ty : TType) (id : ℕ) (body more : Bytes)
      → ty ≢ t_stop
      → id < 32768
      → Reads (on id ty a) a' body
      → (if there then a' else a) ≡ a''
      → Reads (field_rounds p n on a'') b more
      → Reads
          (field_rounds p (rounds_with there n) on a)
          b
          (if there then write_member p name ty id body ++ more else more)
  field_rounds-Reads_option on true n a a'' name ty id body more ne le hon e hmore =
      field_rounds-Reads_field on n a name ty id body more ne le hon (rw e hmore)
  field_rounds-Reads_option on false n a a'' name ty id body more ne le hon e hmore = rw e hmore
