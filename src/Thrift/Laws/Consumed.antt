-- ===== src/Thrift/Laws/Consumed.antt =====
-- The loops of a `read` end, on any bytes, where each part of them ends.
use ab_dyeing.Base.{
  Bool, true, false, if◌then◌else◌, ℕ, zero, suc, ◌+◌, ◌≤◌, ◌<◌, arith, List, [], ◌∷◌, Bytes,
  length,
}
use ab_dyeing.Outcome.{Outcome, done, throws, undefined, Ensures, Ensures->>=}
use ab_dyeing.Thrift.{
  TType, t_stop, t_string, t_struct, t_list, t_i32, t_other, TProtocol, Read, Switch, resume,
  return, ◌>>=◌, one_field, after_field, field_rounds, read_fields, skip_field, field_of, required,
  read_elements, after_list, read_list, read_struct,
}
use ab_dyeing.Thrift.Laws.{Consumes, IsConsuming}

abbrev Within : {A : Type 0} → ℕ → Outcome (A × Bytes) → Type 0
Within n = Ensures (λ r. length (r.1) ≤ n)

Within-mono : {A : Type 0} (m n : ℕ) (o : Outcome (A × Bytes)) → m ≤ n → Within m o → Within n o
Within-mono m n (done (a, s)) le h = omega arith
Within-mono m n (throws e) le h = tt
Within-mono m n undefined le h = h

pub return-Consumes : {A : Type 0} (a : A) → Consumes (return a)
return-Consumes a s = omega arith

>>=-Within :
    {A B : Type 0} (m : Read A) (f : A → Read B) (s : Bytes) (n : ℕ)
    → Within n (m s)
    → ((a : A) (t : Bytes) → length t ≤ n → Within n (f a t))
    → Within n ((m >>= f) s)
>>=-Within m f s n hm hf =
    Ensures->>= (λ r. length (r.1) ≤ n) (λ r. length (r.1) ≤ n) (m s) (resume f) hm
      λ (a, t) e le. hf a t le

pub >>=-Consumes :
    {A B : Type 0} (m : Read A) (f : A → Read B)
    → Consumes m
    → ((a : A) → Consumes (f a))
    → Consumes (m >>= f)
>>=-Consumes m f hm hf s =
    >>=-Within m f s (length s) (hm s)
      λ a t le. Within-mono (length t) (length s) (f a t) le (hf a t)

pub if-Consumes :
    {A : Type 0} (b : Bool) (m n : Read A) → Consumes m → Consumes n → Consumes (if b then m else n)
if-Consumes true m n hm hn = hm
if-Consumes false m n hm hn = hn

pub required-Consumes : (b : Bool) → Consumes (required b)
unfolding required
required-Consumes true s = omega arith
required-Consumes false s = tt

module _ {p : TProtocol} (c : IsConsuming p) where
  pub skip_field-Consumes : {A : Type 0} (ty : TType) (a : A) → Consumes (skip_field p ty a)
  unfolding skip_field
  skip_field-Consumes ty a = >>=-Consumes (p.skip ty) _ (c.skip ty) (λ _. return-Consumes a)

  pub field_of-Consumes :
      {A V : Type 0} (right : Bool) (read : Read V) (set : V → A) (ty : TType) (a : A)
      → Consumes read
      → Consumes (field_of p right read set ty a)
  unfolding field_of
  field_of-Consumes true read set ty a h = >>=-Consumes read _ h (λ v. return-Consumes (set v))
  field_of-Consumes false read set ty a h = skip_field-Consumes ty a

  -- The rounds of the loop with fuel for more than the bytes that are there.
  one_field-Within :
      {A : Type 0} (again : A → Read A) (on : Switch A) (n : ℕ)
      → ((a : A) (s : Bytes) → length s < n → Within (length s) (again a s))
      → ((id : ℕ) (ty : TType) (a : A) → Consumes (on id ty a))
      → (a : A) (id : ℕ) (ty : TType) (s : Bytes) → length s < n
      → Within (length s) (one_field p again on a id ty s)
  unfolding one_field
  one_field-Within again on n ha hon a id ty s lt =
      >>=-Within (on id ty a) _ s (length s) (hon id ty a s) λ a' t le.
        >>=-Within p.read_field_end _ t (length s)
          (Within-mono (length t) (length s) _ le (c.field_end t))
          λ _ u le'. Within-mono (length u) (length s) _ le' (ha a' u (omega arith))

  after_field-Within :
      {A : Type 0} (again : A → Read A) (on : Switch A) (n : ℕ)
      → ((a : A) (s : Bytes) → length s < n → Within (length s) (again a s))
      → ((id : ℕ) (ty : TType) (a : A) → Consumes (on id ty a))
      → (a : A) (ty : TType) (id : ℕ) (s : Bytes) → length s < n
      → Within (length s) (after_field p again on a (ty, id) s)
  unfolding after_field
  after_field-Within again on n ha hon a t_stop id s lt = omega arith
  after_field-Within again on n ha hon a t_string id s lt =
      one_field-Within again on n ha hon a id t_string s lt
  after_field-Within again on n ha hon a t_struct id s lt =
      one_field-Within again on n ha hon a id t_struct s lt
  after_field-Within again on n ha hon a t_list id s lt =
      one_field-Within again on n ha hon a id t_list s lt
  after_field-Within again on n ha hon a t_i32 id s lt =
      one_field-Within again on n ha hon a id t_i32 s lt
  after_field-Within again on n ha hon a (t_other k) id s lt =
      one_field-Within again on n ha hon a id (t_other k) s lt

  field_rounds-Within :
      {A : Type 0} (on : Switch A)
      → ((id : ℕ) (ty : TType) (a : A) → Consumes (on id ty a))
      → (n : ℕ) (a : A) (s : Bytes) → length s < n
      → Within (length s) (field_rounds p n on a s)
  unfolding field_rounds
  field_rounds-Within on hon zero a s lt = absurd (omega arith)
  field_rounds-Within on hon (suc n) a s lt =
      Ensures->>= (λ r. length (r.1) + 1 ≤ length s) (λ r. length (r.1) ≤ length s)
        (p.read_field_begin s) _ (c.field_begin s)
        λ (h, t) e le. Within-mono (length t) (length s) _ (omega arith) (
          after_field-Within (field_rounds p n on) on n (field_rounds-Within on hon n) hon a h.0 h.1
            t (omega arith))

  pub read_fields-Consumes :
      {A : Type 0} (on : Switch A) (a : A)
      → ((id : ℕ) (ty : TType) (a : A) → Consumes (on id ty a))
      → Consumes (read_fields p on a)
  unfolding read_fields
  read_fields-Consumes on a hon s = field_rounds-Within on hon (suc (length s)) a s (omega arith)

  pub read_struct-Consumes :
      {A B : Type 0} (on : Switch A) (a : A) (finish : A → Read B)
      → ((id : ℕ) (ty : TType) (a : A) → Consumes (on id ty a))
      → ((a : A) → Consumes (finish a))
      → Consumes (read_struct p on a finish)
  unfolding read_struct
  read_struct-Consumes on a finish hon hf = >>=-Consumes p.read_struct_begin _ c.struct_begin λ _.
      >>=-Consumes (read_fields p on a) _ (read_fields-Consumes on a hon)
        λ a'. >>=-Consumes p.read_struct_end _ c.struct_end λ _. hf a'

  pub read_elements-Consumes :
      {A : Type 0} (elem : Read A) → Consumes elem → (n : ℕ) → Consumes (read_elements p elem n)
  unfolding read_elements
  read_elements-Consumes {A} elem h zero = return-Consumes {A = List A} []
  read_elements-Consumes {A} elem h (suc n) = >>=-Consumes elem _ h λ a.
      >>=-Consumes (read_elements p elem n) _ (read_elements-Consumes elem h n)
        λ as'. return-Consumes (a ∷ as')

  pub read_list-Consumes :
      {A : Type 0} (elem : Read A) → Consumes elem → Consumes (read_list p elem)
  unfolding read_list after_list
  read_list-Consumes elem h = >>=-Consumes p.read_list_begin _ c.list_begin λ (ty, n).
      >>=-Consumes (read_elements p elem n) _ (read_elements-Consumes elem h n)
        λ xs. >>=-Consumes p.read_list_end _ c.list_end λ _. return-Consumes xs
