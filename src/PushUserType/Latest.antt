-- ===== src/PushUserType/Latest.antt =====
-- The class of a user after a flush is the one of its latest record.
use ab_dyeing.Base.{
  ℕ, ◌≤◌, ◌≡◌, ◌≢◌, ◌⊎◌, refl, Bool, true, false, Option, none, some, List, [], ◌∷◌, ◌++◌,
  append_assoc, append-nil, subst, Bytes, codes, find, find-put, eqb, eqb_iff, All, All-append, ltb,
  Bool-cases, inl, inr, arith,
}
use ab_dyeing.Mysql.{Row, rows, field}
use ab_dyeing.Util.Decimal.{atol_u64}
use ab_dyeing.PushUserType.{UserType, PushUserType, newer, set_record, set_records, store}

-- The key of a record, and what is stored for it.
abbrev pub key_of : Row → Bytes
key_of r = field (codes "product_id") r ++ field (codes "uid") r

abbrev pub user_of : Row → UserType
user_of r = record {
  timestamp = atol_u64 (field (codes "Timestamp") r);
  user_type = field (codes "push_user_type") r;
}

-- Some record has the key and the value.
abbrev pub Has : Bytes → UserType → List Row → Type 0
Has k u [] = ⊥
Has k u (r ∷ rs) = ((key_of r ≡ k) × (user_of r ≡ u)) ⊎ Has k u rs

-- No record has the key; or `u` is the value of a record with the key, and none is later.
abbrev pub IsLatest : Bytes → List Row → Option UserType → Type 0
IsLatest k rs none = All (λ r. key_of r ≢ k) rs
IsLatest k rs (some u) =
    Has k u rs × All (λ r. key_of r ≡ k → (user_of r).timestamp ≤ u.timestamp) rs

Has-append_left : (k : Bytes) (u : UserType) (rs ss : List Row) → Has k u rs → Has k u (rs ++ ss)
Has-append_left k u [] ss h = absurd h
Has-append_left k u (r ∷ rs) ss (inl h) = inl h
Has-append_left k u (r ∷ rs) ss (inr h) = inr (Has-append_left k u rs ss h)

Has-append_right : (k : Bytes) (u : UserType) (rs ss : List Row) → Has k u ss → Has k u (rs ++ ss)
Has-append_right k u [] ss h = h
Has-append_right k u (r ∷ rs) ss h = inr (Has-append_right k u rs ss h)

-- No record has the key, so each bound on those that have it holds.
none_later :
    (k : Bytes) (n : ℕ) (rs : List Row)
    → All (λ r. key_of r ≢ k) rs
    → All (λ r. key_of r ≡ k → (user_of r).timestamp ≤ n) rs
none_later k n [] h = tt
none_later k n (r ∷ rs) h = ((λ e. absurd (h.0 e)), none_later k n rs h.1)

raise_bound :
    (k : Bytes) (m n : ℕ) (rs : List Row)
    → m ≤ n
    → All (λ r. key_of r ≡ k → (user_of r).timestamp ≤ m) rs
    → All (λ r. key_of r ≡ k → (user_of r).timestamp ≤ n) rs
raise_bound k m n [] h hs = tt
raise_bound k m n (r ∷ rs) h hs = (
  (λ e. let old : (user_of r).timestamp ≤ m = hs.0 e in omega arith),
  raise_bound k m n rs h hs.1,
)

-- One more record, under the key.
IsLatest-newer :
    (k : Bytes) (rs : List Row) (r : Row) (o : Option UserType)
    → key_of r ≡ k
    → IsLatest k rs o
    → IsLatest k (rs ++ r ∷ []) (some (newer o (user_of r)))
IsLatest-newer k rs r none e h = (
  Has-append_right k (user_of r) rs (r ∷ []) (inl (e, refl)),
  All-append _ rs (r ∷ []) (none_later k (user_of r).timestamp rs h) ((λ _. omega arith), tt),
)
IsLatest-newer k rs r (some u) e h = elim (Bool-cases (ltb u.timestamp (user_of r).timestamp)) [
  | inl later ↦
      rw (later, newer)
        (
          Has-append_right k (user_of r) rs (r ∷ []) (inl (e, refl)),
          All-append _ rs (r ∷ [])
              (raise_bound k u.timestamp (user_of r).timestamp rs (ground arith) h.1)
              ((λ _. omega arith), tt),
        )
  | inr kept ↦
      rw (kept, newer)
        (
          Has-append_left k u rs (r ∷ []) h.0,
          All-append _ rs (r ∷ []) h.1 ((λ _. ground arith), tt),
        )
]

-- One more record, under another key.
IsLatest-other :
    (k : Bytes) (rs : List Row) (r : Row) (o : Option UserType)
    → key_of r ≢ k
    → IsLatest k rs o
    → IsLatest k (rs ++ r ∷ []) o
IsLatest-other k rs r none n h = All-append _ rs (r ∷ []) h (n, tt)
IsLatest-other k rs r (some u) n h =
    (Has-append_left k u rs (r ∷ []) h.0, All-append _ rs (r ∷ []) h.1 ((λ e. absurd (n e)), tt))

set_record-IsLatest :
    (k : Bytes) (seen : List Row) (r : Row) (p : PushUserType)
    → IsLatest k seen (find k p.user_type_map)
    → IsLatest k (seen ++ r ∷ []) (find k (set_record r p).0.user_type_map)
unfolding set_record
set_record-IsLatest k seen r p h = elim (Bool-cases (eqb (key_of r) k)) [
  | inl e ↦
      let same = (eqb_iff (key_of r) k).0 e in
      rw (find-put, e) (rw same (IsLatest-newer k seen r (find k p.user_type_map) same h))
  | inr e ↦
      rw (find-put, e)
        (IsLatest-other k seen r (find k p.user_type_map)
          (λ same. ground (arith, eqb_iff (key_of r) k)) h)
]

set_records-IsLatest :
    (k : Bytes) (seen rs : List Row) (p : PushUserType) (ret : Bool)
    → IsLatest k seen (find k p.user_type_map)
    → IsLatest k (seen ++ rs) (find k (set_records rs p ret).0.user_type_map)
unfolding set_records
set_records-IsLatest k seen [] p ret h = rw append-nil h
set_records-IsLatest k seen (r ∷ rs) p ret h =
    subst (λ l. IsLatest k l (find k (set_records rs (set_record r p).0 true).0.user_type_map))
      (append_assoc seen (r ∷ []) rs)
      (set_records-IsLatest k (seen ++ r ∷ []) rs (set_record r p).0 true
        (set_record-IsLatest k seen r p h))

set_records-true : (rs : List Row) (p : PushUserType) → (set_records rs p true).1 ≡ true
unfolding set_records
set_records-true [] p = refl
set_records-true (r ∷ rs) p = set_records-true rs _

-- A query that returns a record reports success and replaces the map: each key holds the value of
-- a record with that key than which none is later, and nothing if no record has the key.
pub store-IsLatest :
    (r : Row) (rs : List Row) (p : PushUserType)
    → ((k : Bytes) → IsLatest k (r ∷ rs) (find k (store (rows (r ∷ rs)) p).0.user_type_map))
      × ((store (rows (r ∷ rs)) p).1 ≡ true)
unfolding store
store-IsLatest r rs p = (
  λ k.
      set_records-IsLatest k [] (r ∷ rs) (record p { user_type_map = [] }) false
        (unfold find in tt),
  unfold set_records set_record in set_records-true rs _,
)
