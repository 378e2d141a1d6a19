-- ===== src/FreshUser/Flush.antt =====
-- The users that are fresh after a flush.
use ab_dyeing.Base.{
  ℕ, ◌+◌, ◌≡◌, refl, ◌∙◌, Bool, true, false, ◌||◌, List, [], ◌∷◌, Bytes, codes, find, find-put, eqb,
  arith,
}
use ab_dyeing.Mysql.{Row, rows, field}
use ab_dyeing.FreshUser.{FreshUser, set_map, set_records, store, get}

-- A record names the user.
abbrev pub named : Bytes → List Row → Bool
named uid [] = false
named uid (r ∷ rs) = eqb (field (codes "uid") r) uid || named uid rs

get-set_records :
    (clock : ℕ → ℕ) (i : ℕ) (rs : List Row) (p : FreshUser) (ret : Bool) (uid : Bytes)
    → get (set_records clock i rs p ret).0 uid ≡ (named uid rs || get p uid)
unfolding set_map get field set_records
get-set_records clock i [] p ret uid = unfold set_records in refl
get-set_records clock i (r ∷ rs) p ret uid =
    get-set_records clock (i + 1) rs (set_map (field (codes "uid") r) (clock i) p).0 true uid ∙ step
  where
    step :
        (named uid rs || get (set_map (field (codes "uid") r) (clock i) p).0 uid)
        ≡ (named uid (r ∷ rs) || get p uid)
    step =
        unfold get set_map in ground (arith, find-put (field (codes "uid") r) uid (clock i) p.map)

set_records-true :
    (clock : ℕ → ℕ) (i : ℕ) (rs : List Row) (p : FreshUser)
    → (set_records clock i rs p true).1 ≡ true
unfolding set_records set_map
set_records-true clock i [] p = refl
set_records-true clock i (r ∷ rs) p = set_records-true clock (i + 1) rs _

-- A query that returns a record replaces the users by exactly those that the records name, and
-- reports success.
pub store-named :
    (clock : ℕ → ℕ) (r : Row) (rs : List Row) (p : FreshUser)
    → ((uid : Bytes) → get (store clock (rows (r ∷ rs)) p).0 uid ≡ named uid (r ∷ rs))
      × ((store clock (rows (r ∷ rs)) p).1 ≡ true)
unfolding store
store-named clock r rs p = (
  λ uid.
      get-set_records clock 0 (r ∷ rs) (record p { map = [] }) false uid
      ∙ (unfold get find in ground arith),
  unfold set_records set_map in set_records-true clock 1 rs _,
)
