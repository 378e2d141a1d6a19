-- ===== src/PushUserType.antt =====
-- `DyeingPushUserTypePlugin` of src/push_user_type.h and src/push_user_type.cc: the class of each
-- user of a product. A `shared_ptr<UserType>` is held by one map alone, so it is the value.
pub mod Latest
use ab_dyeing.Base.{
  ℕ, Bool, true, false, Option, none, some, List, [], ◌∷◌, ◌++◌, Bytes, codes, Dict, find, put,
  length, ltb, if◌then◌else◌,
}
use ab_dyeing.Outcome.{Outcome, done, ◌>>=◌}
use ab_dyeing.Qconf.{Qconf}
use ab_dyeing.Mysql.{Mysql, Settings, Row, QueryReply, rows, query_failed, field, connect}
use ab_dyeing.Util.Decimal.{atol_u64}

pub record UserType : Type 0 where
  pub timestamp : ℕ
  pub user_type : Bytes

-- The keys are `product_id + uid`.
pub record PushUserType : Type 0 where
  pub prefix : Bytes
  pub user_type_map : Dict UserType

abbrev pub new : Bytes → PushUserType
new prefix = record { prefix = prefix; user_type_map = [] }

-- What is stored under a key that holds `old`: the newer of the two.
abbrev pub newer : Option UserType → UserType → UserType
newer none u = u
newer (some old) u = if ltb old.timestamp u.timestamp then u else old

unfoldable pub set_map : Bytes → Bytes → ℕ → Bytes → PushUserType → PushUserType × Bool
unfolding find put
set_map uid product_id timestamp user_type p =
    let key = product_id ++ uid in
    (
      record p {
        user_type_map =
            put key
              (newer (find key p.user_type_map)
                (record { timestamp = timestamp; user_type = user_type }))
              p.user_type_map;
      },
      true,
    )

-- The values that the loop takes from a record.
unfoldable pub set_record : Row → PushUserType → PushUserType × Bool
unfolding set_map field atol_u64
set_record r =
    set_map (field (codes "uid") r) (field (codes "product_id") r)
      (atol_u64 (field (codes "Timestamp") r)) (field (codes "push_user_type") r)

unfoldable pub set_records : List Row → PushUserType → Bool → PushUserType × Bool
unfolding set_record
set_records [] p ret = (p, ret)
set_records (r ∷ rs) p ret = let (p', ret') = set_record r p in set_records rs p' ret'

abbrev pub sql : Bytes
sql =
    codes
      "select Timestamp, product_id, uid, push_user_type from t_daily_push_user_type where product_id=\"noticias\";"

unfoldable pub store : QueryReply → PushUserType → PushUserType × Bool
unfolding set_records
store query_failed p = (p, false)
store (rows []) p = (p, false)
store (rows (r ∷ rs)) p = set_records (r ∷ rs) (record p { user_type_map = [] }) false

unfoldable pub flush_push_user_type : Qconf → Mysql → PushUserType → Outcome (PushUserType × Bool)
unfolding connect store
flush_push_user_type conf mysql p = do
  s ← connect conf mysql p.prefix
  done (store (mysql.query s sql) p)

-- `get`: `some` with the class where the source returns true.
unfoldable pub get : PushUserType → Bytes → Bytes → Option Bytes
unfolding find
get p uid app = elim (find (app ++ uid) p.user_type_map) [ none ↦ none | some u ↦ some u.user_type ]

unfoldable pub getsize : PushUserType → ℕ
getsize p = length p.user_type_map
