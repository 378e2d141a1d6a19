-- ===== src/Logic.antt =====
-- `DyeingLogic` of src/dyeing_logic.h and src/dyeing_logic.cc: the decision for one user and one
-- business type. Each worker thread has a logic of its own; the plugins and the queue of new users
-- belong to the handler, and a call reads each `shared_ptr` to them as one step.
pub mod Decide
use ab_dyeing.Base.{
  ℕ, Bool, true, false, ◌&&◌, Option, none, some, List, [], ◌∷◌, ◌++◌, Bytes, codes, Dict, find,
  has, eqb, is_empty, ◌==◌, if◌then◌else◌,
}
use ab_dyeing.Outcome.{Outcome, done, ◌>>=◌}
use ab_dyeing.WhiteList
use ab_dyeing.WhiteList.{WhiteList}
use ab_dyeing.OnlineHash
use ab_dyeing.OnlineHash.{Online}
use ab_dyeing.FreshUser
use ab_dyeing.FreshUser.{FreshUser}
use ab_dyeing.PushUserType
use ab_dyeing.PushUserType.{PushUserType}
use ab_dyeing.Proto.{Entry, Reply}

-- The plugins of the handler (`none` is a null pointer) and `_kmq->kq`.
pub record Shared : Type 0 where
  pub white_list : Option WhiteList
  pub online : Option Online
  pub fresh_user : Option FreshUser
  pub push_user : Option PushUserType
  pub kq : Dict ℕ

pub record Logic : Type 0 where
  pub fresh_product_suffix : Bytes

-- The parsed configuration file: `conf.get(path)`, the empty string where a parameter is missing.
abbrev pub Config : Type 0
Config = Bytes → Bytes

unfoldable pub init : Config → Logic
init conf =
    let suffix = conf (codes "/main/base/[fresh_product_suffix]") in
    record { fresh_product_suffix = if is_empty suffix then codes "fresh" else suffix }

unfoldable pub to_entry : Bytes → Bytes → Entry
to_entry type config_id = record { type = type; config_id = config_id }

unfoldable pub handle_white_list : Shared → Bytes → Bytes → Option Bytes
unfolding WhiteList.get
handle_white_list s uid type = elim s.white_list [ none ↦ none | some w ↦ WhiteList.get w uid type ]

module _ (city_hash : Bytes → ℕ → ℕ) where
  unfoldable pub handle_online_hash :
      Shared → Bytes → Bytes → Bytes → Bytes → Bytes → Outcome (Option Bytes)
  unfolding OnlineHash.get
  handle_online_hash s uid app app_ver app_lan type = elim s.online [
    | none ↦ done none
    | some o ↦ OnlineHash.get city_hash o uid app app_ver app_lan type
  ]

-- `fresh_user != NULL && fresh_user->get(…)`.
abbrev pub is_fresh : Option FreshUser → Bytes → Bool
is_fresh none uid = false
is_fresh (some f) uid = FreshUser.get f uid

-- 0: neither, 1: a user of the day's table, 2: a user of the queue only.
unfoldable pub handle_fresh_user : Shared → Bytes → ℕ
unfolding FreshUser.get find
handle_fresh_user s uid = if is_fresh s.fresh_user uid then 1 else if has uid s.kq then 2 else 0

unfoldable pub handle_push_user : Shared → Bytes → Bytes → Option Bytes
unfolding PushUserType.get
handle_push_user s uid app = elim s.push_user [ none ↦ none | some p ↦ PushUserType.get p uid app ]

-- The application under which the hash policies are looked up.
unfoldable pub dyeing_app : Logic → Shared → Bytes → Bytes → Bytes → Bytes
unfolding handle_fresh_user handle_push_user eqb
dyeing_app l s uid app type =
    if eqb (codes "biz") type && eqb (codes "noticias") app
    then elim (handle_push_user s uid app) [
      | none ↦
          if handle_fresh_user s uid == 2 then app ++ codes "_new" else app ++ codes "_recurring"
      | some user_type ↦ (app ++ codes "_") ++ user_type
    ]
    else if handle_fresh_user s uid == 0
    then app
    else (app ++ codes "_") ++ l.fresh_product_suffix

-- `reply->__isset._entries = true; reply->_entries.push_back(…)`.
abbrev pub push_entry : Bytes → Bytes → Reply → Reply
push_entry type config_id r = record r {
  entries = r.entries ++ to_entry type config_id ∷ [];
  isset_entries = true;
}

-- The end of `onDyeing`, on the result of `handleOnlineHash`.
abbrev pub push_result : Bytes → Reply → Option Bytes → Bool × Reply
push_result type r none = (false, r)
push_result type r (some config_id) = (true, push_entry type config_id r)

module _ (city_hash : Bytes → ℕ → ℕ) where
  unfoldable pub on_dyeing :
      Logic → Shared → Bytes → Bytes → Bytes → Bytes → Bytes → Reply → Outcome (Bool × Reply)
  unfolding handle_white_list handle_online_hash dyeing_app to_entry
  on_dyeing l s uid app app_ver app_lan type r = elim (handle_white_list s uid type) [
    | some config_id ↦ done (true, push_entry type config_id r)
    | none ↦ (do
      found ← handle_online_hash city_hash s uid (dyeing_app l s uid app type) app_ver app_lan type
      done (push_result type r found))
  ]
