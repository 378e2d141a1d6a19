-- ===== src/ConfigFile/Keys.antt =====
-- The keys of a domain are the names of its parameters, each once.
use ab_dyeing.Base.{
  ◌≡◌, refl, ap, sym, ◌∙◌, Bool, true, false, ◌&&◌, ◌||◌, not, some, List, [], ◌∷◌, ◌++◌, Bytes,
  Dict, find, put, find-put, has, is_some, All, eqb, eqb_iff, eqb_refl, Bool-cases, Option-cases,
  inl, inr, arith,
}
use ab_dyeing.Outcome.{done, ◌>>=◌}
use ab_dyeing.ConfigFile.Escape.{IsWritable, reverse_parse-done}
use ab_dyeing.ConfigFile.{
  reverse_parse, line_of, param_lines, Params, erase_key, set_param_value, has_key, insert_params,
  insert_keys, insert_param_value,
}

-- No key stands twice.
abbrev pub is_distinct : List Bytes → Bool
is_distinct [] = true
is_distinct (k ∷ ks) = not (has_key k ks) && is_distinct ks

-- The keys are the names of the parameters, each once.
pub record IsKeyed (p : Params) : Type 0 where
  pub named : (k : Bytes) → has_key k p.key ≡ has k p.param
  pub distinct : is_distinct p.key ≡ true

eqb_comm : (a b : Bytes) → eqb a b ≡ eqb b a
unfolding eqb
eqb_comm [] [] = refl
eqb_comm [] (y ∷ b) = refl
eqb_comm (x ∷ a) [] = refl
eqb_comm (x ∷ a) (y ∷ b) = ground (arith, eqb_comm a b)

has_key-append :
    (k name : Bytes) (ks : List Bytes) → has_key k (ks ++ name ∷ []) ≡ (has_key k ks || eqb name k)
unfolding has_key
has_key-append k name [] = ground arith
has_key-append k name (j ∷ ks) = ground (arith, has_key-append k name ks)

has_key-erase_key :
    (k name : Bytes) (ks : List Bytes)
    → is_distinct ks ≡ true
    → has_key k (erase_key name ks) ≡ (has_key k ks && not (eqb name k))
unfolding has_key erase_key
has_key-erase_key k name [] h = refl
has_key-erase_key k name (j ∷ ks) h = elim (Bool-cases (eqb j name)) [
  | inl e ↦
      rw (e, ← (eqb_iff j name).0 e)
        (elim (Bool-cases (eqb j k)) [
          | inl f ↦ rw f (rw (← (eqb_iff j k).0 f) (ground arith))
          | inr f ↦ rw f (ground arith)
        ])
  | inr n ↦ elim (Bool-cases (eqb j k)) [
    | inl f ↦
        let other : eqb k name ≡ false = rw ((eqb_iff j k).0 f) at n in
        let apart : eqb name k ≡ false = eqb_comm name k ∙ other in rw (n, has_key, f, apart)
    | inr f ↦ rw (n, has_key, f) (has_key-erase_key k name ks (ground arith))
  ]
]

is_distinct-erase_key :
    (name : Bytes) (ks : List Bytes)
    → is_distinct ks ≡ true
    → is_distinct (erase_key name ks) ≡ true
unfolding has_key erase_key
is_distinct-erase_key name [] h = refl
is_distinct-erase_key name (j ∷ ks) h =
    ground (arith, has_key-erase_key j name ks, is_distinct-erase_key name ks)

is_distinct-append :
    (name : Bytes) (ks : List Bytes)
    → is_distinct ks ≡ true
    → has_key name ks ≡ false
    → is_distinct (ks ++ name ∷ []) ≡ true
unfolding has_key
is_distinct-append name [] h n = refl
is_distinct-append name (j ∷ ks) h n =
    ground (arith, has_key-append j name ks, is_distinct-append name ks, eqb_comm name j)

set_param_value-IsKeyed :
    (name value : Bytes) (p : Params) → IsKeyed p → IsKeyed (set_param_value name value p)
unfolding set_param_value
set_param_value-IsKeyed name value p i = record {
  named = λ k. ground (
    arith,
    has_key-append k name (erase_key name p.key),
    has_key-erase_key k name p.key i.distinct,
    find-put name k value p.param,
    i.named k,
  );
  distinct =
      is_distinct-append name (erase_key name p.key) (is_distinct-erase_key name p.key i.distinct)
        (ground (arith, has_key-erase_key name name p.key i.distinct, eqb_refl name));
}

insert-IsKeyed :
    (new : Dict Bytes) (m : Dict Bytes) (ks : List Bytes)
    → IsKeyed (record { param = m; key = ks })
    → IsKeyed (record { param = insert_params new m; key = insert_keys new ks })
unfolding insert_params insert_keys
insert-IsKeyed [] m ks i = i
insert-IsKeyed ((name, value) ∷ new) m ks i = elim (Option-cases (find name m)) [
  | inl e ↦
      let absent : has_key name ks ≡ false = i.named name ∙ ap is_some e in
      rw (e, absent)
        (insert-IsKeyed new (put name value m) (ks ++ name ∷ []) (record {
          named = λ k. ground (arith, has_key-append k name ks, find-put name k value m, i.named k);
          distinct = is_distinct-append name ks i.distinct absent;
        }))
  | inr (v, e) ↦
      let present : has_key name ks ≡ true = i.named name ∙ ap is_some e in
      rw (e, present) (insert-IsKeyed new m ks i)
]

-- Setting a parameter, and inserting parameters, keep the keys the names of the parameters, each
-- once.
pub params-IsKeyed :
    (name value : Bytes) (new : Dict Bytes) (p : Params)
    → IsKeyed p
    → IsKeyed (set_param_value name value p) × IsKeyed (insert_param_value new p)
unfolding insert_param_value
params-IsKeyed name value new p i =
    (set_param_value-IsKeyed name value p i, insert-IsKeyed new p.param p.key i)

line_of-done :
    (k v : Bytes)
    → All IsWritable k
    → All IsWritable v
    → (l : Bytes) × (line_of k (some v) ≡ done l)
line_of-done k [] h hv = reverse_parse-done k h
line_of-done k (c ∷ v) h hv =
    let (s, e) = reverse_parse-done k h in
    let (t, f) = reverse_parse-done (c ∷ v) hv in (s ++ (b'=' ∷ t), two_steps k (c ∷ v) s t e f)
  where
    two_steps :
        (k w s t : Bytes)
        → reverse_parse k ≡ done s
        → reverse_parse w ≡ done t
        → (do a ← reverse_parse k; b ← reverse_parse w; done (a ++ (b'=' ∷ b)))
          ≡ done (s ++ (b'=' ∷ t))
    two_steps k w s t e f = rw (e, f)

param_lines-done :
    (ks : List Bytes) (m : Dict Bytes)
    → All (λ k. (has k m ≡ true) × All IsWritable k) ks
    → ((k v : Bytes) → find k m ≡ some v → All IsWritable v)
    → (lines : List Bytes) × (param_lines ks m ≡ done lines)
unfolding param_lines
param_lines-done [] m h hv = ([], refl)
param_lines-done (k ∷ ks) m h hv = elim (Option-cases (find k m)) [
  | inl e ↦ absurd (ground (arith, h.0.0, e))
  | inr (v, e) ↦
      let (line, one) = line_of-done k v h.0.1 (hv k v e) in
      let (lines, more) = param_lines-done ks m h.1 hv in (line ∷ lines, rw (e, one, more))
]

present_keys :
    (ks : List Bytes) (m : Dict Bytes)
    → ((k : Bytes) → has_key k ks ≡ true → has k m ≡ true)
    → All (All IsWritable) ks
    → All (λ k. (has k m ≡ true) × All IsWritable k) ks
unfolding has_key
present_keys [] m h w = tt
present_keys (k ∷ ks) m h w = (
  (h k (ground (arith, eqb_refl k)), w.0),
  present_keys ks m (λ j e. h j (ground (arith, e))) w.1,
)

-- Where the keys are the names of the parameters and no name or value holds an angle bracket,
-- writing the parameters meets no failed assertion and returns their lines.
pub param_lines-IsKeyed :
    (p : Params)
    → IsKeyed p
    → All (All IsWritable) p.key
    → ((k v : Bytes) → find k p.param ≡ some v → All IsWritable v)
    → (lines : List Bytes) × (param_lines p.key p.param ≡ done lines)
param_lines-IsKeyed p i w hv =
    param_lines-done p.key p.param (present_keys p.key p.param (λ k h. sym (i.named k) ∙ h) w) hv
