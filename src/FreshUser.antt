-- ===== src/FreshUser.antt =====
-- `DyeingFreshUserPlugin` of src/fresh_user.h and src/fresh_user.cc: the users of the day.
pub mod Flush
use ab_dyeing.Base.{
  ℕ, zero, suc, ◌+◌, ◌*◌, ◌/◌, Bool, true, false, List, [], ◌∷◌, ◌++◌, Bytes, codes, Dict, find,
  put, has, length,
}
use ab_dyeing.Outcome.{Outcome, done, ◌>>=◌}
use ab_dyeing.Qconf.{Qconf}
use ab_dyeing.Mysql.{Mysql, Settings, Row, QueryReply, rows, query_failed, field, connect}
use ab_dyeing.Util.Decimal.{show}

-- The user ids, each with the time at which it was stored.
pub record FreshUser : Type 0 where
  pub prefix : Bytes
  pub map : Dict ℕ

abbrev pub new : Bytes → FreshUser
new prefix = record { prefix = prefix; map = [] }

-- `now` is the value of `TNOWUS`.
unfoldable pub set_map : Bytes → ℕ → FreshUser → FreshUser × Bool
unfolding put
set_map uid now p = (record p { map = put uid now p.map }, true)

-- The loop over the records; `clock i` is the time at the record `i`.
unfoldable pub set_records : (ℕ → ℕ) → ℕ → List Row → FreshUser → Bool → FreshUser × Bool
unfolding set_map field
set_records clock i [] p ret = (p, ret)
set_records clock i (r ∷ rs) p ret =
    let (p', ret') = set_map (field (codes "uid") r) (clock i) p in
    set_records clock (i + 1) rs p' ret'

-- The query text; `now` is `time(NULL)`, and the day number is assumed to fit an `int`.
unfoldable pub sql : ℕ → Bytes
unfolding show
sql now = codes "select uid from daily_fresh_user where epoch_day=" ++ show (now / (24 * 3600))

-- No record or a failed query leaves the plugin alone; otherwise the map is cleared first.
unfoldable pub store : (ℕ → ℕ) → QueryReply → FreshUser → FreshUser × Bool
unfolding set_records
store clock query_failed p = (p, false)
store clock (rows []) p = (p, false)
store clock (rows (r ∷ rs)) p = set_records clock 0 (r ∷ rs) (record p { map = [] }) false

unfoldable pub flush_fresh_user :
    Qconf → Mysql → ℕ → (ℕ → ℕ) → FreshUser → Outcome (FreshUser × Bool)
unfolding connect store sql
flush_fresh_user conf mysql now clock p = do
  s ← connect conf mysql p.prefix
  done (store clock (mysql.query s (sql now)) p)

unfoldable pub get : FreshUser → Bytes → Bool
unfolding find
get p uid = has uid p.map

unfoldable pub getsize : FreshUser → ℕ
getsize p = length p.map
