-- ===== src/Thrift/Laws/Enough.antt =====
-- The fuel that the loop over the fields takes is enough, whatever fuel the fields need.
use ab_dyeing.Base.{ℕ, zero, suc, ◌+◌, ◌≤◌, ◌<◌, ◌≡◌, refl, subst, arith, ◌++◌, Bytes, length}
use ab_dyeing.Outcome.{Outcome, done, throws, undefined, Ensures}
use ab_dyeing.Outcome
use ab_dyeing.Thrift.{
  TType, t_stop, t_string, t_struct, t_list, t_i32, t_other, TProtocol, Read, Switch, one_field,
  after_field, field_rounds, read_fields,
}
use ab_dyeing.Thrift.Laws.{Reads, Consumes, IsConsuming}

-- What follows need only return the same where it is reached.
>>=-mono :
    {A B : Type 0} (m : Outcome A) (f g : A → Outcome B) {b : B}
    → Outcome.◌>>=◌ m f ≡ done b
    → ((a : A) → m ≡ done a → f a ≡ done b → g a ≡ done b)
    → Outcome.◌>>=◌ m g ≡ done b
>>=-mono (done a) f g e h = h a refl e
>>=-mono (throws x) f g e h = cc
>>=-mono undefined f g e h = cc

ensured : {A : Type 0} (P : A → Type 0) {m : Outcome A} {a : A} → Ensures P m → m ≡ done a → P a
ensured P h e = subst (Ensures P) e h

module _ {p : TProtocol} (c : IsConsuming p) where
  -- The second continuation returns what the first does, on at most `k` bytes.
  abbrev Follows : {A : Type 0} → ℕ → (A → Read A) → (A → Read A) → Type 0
  Follows {A} k f g =
      (a b : A) (s t : Bytes) → length s ≤ k → f a s ≡ done (b, t) → g a s ≡ done (b, t)

  one_field-Follows :
      {A : Type 0} (on : Switch A) (f g : A → Read A) (k : ℕ)
      → ((id : ℕ) (ty : TType) (a : A) → Consumes (on id ty a))
      → Follows k f g
      → (a b : A) (id : ℕ) (ty : TType) (s t : Bytes) → length s ≤ k
      → one_field p f on a id ty s ≡ done (b, t)
      → one_field p g on a id ty s ≡ done (b, t)
  unfolding one_field
  one_field-Follows on f g k hon hf a b id ty s t le e =
      >>=-mono (on id ty a s) _ _ e λ (a', u) e1 e2.
        >>=-mono (p.read_field_end u) _ _ e2 λ (_, v) e3. hf a' b v t (
          let h1 : length u ≤ length s =
            ensured (λ r. length (r.1) ≤ length s) (hon id ty a s) e1 in
          let h2 : length v ≤ length u =
            ensured (λ r. length (r.1) ≤ length u) (c.field_end u) e3 in
          omega arith)

  after_field-Follows :
      {A : Type 0} (on : Switch A) (f g : A → Read A) (k : ℕ)
      → ((id : ℕ) (ty : TType) (a : A) → Consumes (on id ty a))
      → Follows k f g
      → (a b : A) (ty : TType) (id : ℕ) (s t : Bytes) → length s ≤ k
      → after_field p f on a (ty, id) s ≡ done (b, t)
      → after_field p g on a (ty, id) s ≡ done (b, t)
  unfolding after_field
  after_field-Follows on f g k hon hf a b t_stop id s t le e = e
  after_field-Follows on f g k hon hf a b t_string id s t le e =
      one_field-Follows on f g k hon hf a b id t_string s t le e
  after_field-Follows on f g k hon hf a b t_struct id s t le e =
      one_field-Follows on f g k hon hf a b id t_struct s t le e
  after_field-Follows on f g k hon hf a b t_list id s t le e =
      one_field-Follows on f g k hon hf a b id t_list s t le e
  after_field-Follows on f g k hon hf a b t_i32 id s t le e =
      one_field-Follows on f g k hon hf a b id t_i32 s t le e
  after_field-Follows on f g k hon hf a b (t_other j) id s t le e =
      one_field-Follows on f g k hon hf a b id (t_other j) s t le e

  field_rounds_enough :
      {A : Type 0} (on : Switch A)
      → ((id : ℕ) (ty : TType) (a : A) → Consumes (on id ty a))
      → (n m : ℕ) (a b : A) (s t : Bytes) → length s < m
      → field_rounds p n on a s ≡ done (b, t)
      → field_rounds p m on a s ≡ done (b, t)
  unfolding field_rounds
  field_rounds_enough on hon zero m a b s t lt e = cc
  field_rounds_enough on hon (suc n) zero a b s t lt e = absurd (omega arith)
  field_rounds_enough on hon (suc n) (suc m) a b s t lt e =
      >>=-mono (p.read_field_begin s) _ _ e λ (h, u) e1.
        let short : length u + 1 ≤ length s =
          ensured (λ r. length (r.1) + 1 ≤ length s) (c.field_begin s) e1 in
        after_field-Follows on (field_rounds p n on) (field_rounds p m on) (length u) hon
          (λ a' b' v w le. field_rounds_enough on hon n m a' b' v w (omega arith)) a b (h.0) (h.1) u
          t (omega arith)

  pub read_fields-Reads :
      {A : Type 0} (on : Switch A)
      → ((id : ℕ) (ty : TType) (a : A) → Consumes (on id ty a))
      → (n : ℕ) (a : A) {b : A} (bytes : Bytes) → Reads (field_rounds p n on a) b bytes
      → Reads (read_fields p on a) b bytes
  unfolding read_fields
  read_fields-Reads on hon n a {b} bytes h rest =
      field_rounds_enough on hon n (suc (length (bytes ++ rest))) a b (bytes ++ rest) rest
        (omega arith) (h rest)
