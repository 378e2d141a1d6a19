-- ===== src/Handler.antt =====
-- `ABDyeingHandler` of src/dyeing_handler.h and src/dyeing_handler.cc: the four calls of the
-- service, the start of the server and the reloading of its plugins. A `pthread_t` is a number.
pub mod Start
pub mod Single
pub mod Batch
pub mod Reload
use ab_dyeing.Base.{
  ℕ, Bool, true, false, Option, none, some, List, [], ◌∷◌, ◌++◌, Bytes, codes, length, is_empty,
  ltb, ◌==◌, if◌then◌else◌,
}
use ab_dyeing.Outcome.{Outcome, done, throws, undefined, ◌>>=◌}
use ab_dyeing.Qconf.{Qconf}
use ab_dyeing.Mysql.{Mysql}
use ab_dyeing.Util.Sepstr.{sepstr}
use ab_dyeing.WhiteList
use ab_dyeing.WhiteList.{WhiteList}
use ab_dyeing.OnlineHash
use ab_dyeing.OnlineHash.{Online}
use ab_dyeing.FreshUser
use ab_dyeing.FreshUser.{FreshUser, flush_fresh_user}
use ab_dyeing.PushUserType
use ab_dyeing.PushUserType.{PushUserType, flush_push_user_type}
use ab_dyeing.Proto.{
  DyeingRequest, DyeingLanRequest, UidReqInfo, UidLanReqInfo, Reply, new_reply, UidRepInfo,
  BatchReply, rc_status_ok, rc_server_error, rc_server_fault,
}
use ab_dyeing.Logic
use ab_dyeing.Logic.{Shared, Logic, Config, on_dyeing}

pub record Handler : Type 0 where
  pub types : List Bytes
  pub white_prefix : Bytes
  pub online_prefix : Bytes
  pub fresh_prefix : Bytes
  pub fresh_hour : Bytes
  pub shared : Shared
  pub logics : List (ℕ × Logic)

-- `_logics.find(tid)`.
unfoldable pub find_logic : ℕ → List (ℕ × Logic) → Option Logic
find_logic tid [] = none
find_logic tid ((t, l) ∷ ls) = if t == tid then some l else find_logic tid ls

unfoldable pub get_logic : Handler → ℕ → Option Logic
unfolding find_logic
get_logic h tid = find_logic tid h.logics

-- How the loop over the types ends, with the reply as it stands then.
abbrev pub Ended : Type 0
Ended = Outcome (Unit {0}) × Reply

-- The end of both calls: the status after the loop, or after an exception.
abbrev pub finish : Ended → Outcome Reply
finish (done tt, r) =
    done (record r { status = if is_empty r.entries then rc_server_error else rc_status_ok })
finish (throws e, r) = done (record r { status = rc_server_fault })
finish (undefined, r) = undefined

module _ (city_hash : Bytes → ℕ → ℕ) where
  -- The loop over the types; a call that throws has not written to the reply.
  unfoldable pub each_type :
      Logic → Shared → Bytes → Bytes → Bytes → Bytes → List Bytes → Reply → Ended
  each_type l s uid app app_ver app_lan [] r = (done tt, r)
  each_type l s uid app app_ver app_lan (t ∷ ts) r =
      elim (on_dyeing city_hash l s uid app app_ver app_lan t r) [
        | done (b, r') ↦ each_type l s uid app app_ver app_lan ts r'
        | throws e ↦ (throws e, r)
        | undefined ↦ (undefined, r)
      ]

  unfoldable pub dyeing_lan : Handler → ℕ → Bytes → DyeingLanRequest → Reply → Outcome Reply
  unfolding each_type get_logic
  dyeing_lan h tid uid req reply = elim (get_logic h tid) [
    | none ↦ done (record reply { status = rc_server_error })
    | some l ↦
        if is_empty req.types
        then done (record reply { status = rc_server_error })
        else finish (each_type l h.shared uid req.app req.app_ver req.app_lan req.types reply)
  ]

  unfoldable pub dyeing : Handler → ℕ → Bytes → DyeingRequest → Reply → Outcome Reply
  unfolding each_type get_logic
  dyeing h tid uid req reply = elim (get_logic h tid) [
    | none ↦ done (record reply { status = rc_server_error })
    | some l ↦
        if is_empty req.types
        then done (record reply { status = rc_server_error })
        else finish (each_type l h.shared uid req.app req.app_ver (codes "") req.types reply)
  ]

  unfoldable pub single_dyeing : Handler → ℕ → UidReqInfo → Outcome UidRepInfo
  single_dyeing h tid info = do
    rep ← dyeing h tid info.uid info.uid_info new_reply
    done (record { uid = info.uid; uid_rep = rep })

  unfoldable pub single_lan_dyeing : Handler → ℕ → UidLanReqInfo → Outcome UidRepInfo
  single_lan_dyeing h tid info = do
    rep ← dyeing_lan h tid info.uid info.uid_lan_info new_reply
    done (record { uid = info.uid; uid_rep = rep })

abbrev pub push_info : UidRepInfo → BatchReply → BatchReply
push_info info b = record b { uid_rep_infos = b.uid_rep_infos ++ info ∷ [] }

module _ {ℓ} {A : Type ℓ} (single : A → Outcome UidRepInfo) where
  -- The loop of both batch calls.
  unfoldable pub each_info : List A → BatchReply → Outcome BatchReply
  each_info [] b = done b
  each_info (i ∷ is) b = do info ← single i; each_info is (push_info info b)

abbrev pub max_batch : ℕ
max_batch = 1000

module _ (city_hash : Bytes → ℕ → ℕ) where
  unfoldable pub batch_dyeing : Handler → ℕ → List UidReqInfo → BatchReply → Outcome BatchReply
  batch_dyeing h tid infos b =
      if ltb max_batch (length infos)
      then done (record b { status = rc_server_error })
      else each_info (single_dyeing city_hash h tid) infos (record b { isset_uid_rep_infos = true })

  unfoldable pub batch_dyeing_lan :
      Handler → ℕ → List UidLanReqInfo → BatchReply → Outcome BatchReply
  batch_dyeing_lan h tid infos b =
      if ltb max_batch (length infos)
      then done (record b { status = rc_server_error })
      else each_info (single_lan_dyeing city_hash h tid) infos
          (record b { isset_uid_rep_infos = true })

-- `if (version->loadConfig(…)) _white_list = version;`
abbrev pub install {ℓ} : {A : Type ℓ} → A × Bool → Option A → Option A
install (new, true) old = some new
install (new, false) old = old

unfoldable pub flush_policy : Qconf → Handler → Outcome Handler
flush_policy conf h = do
  white ← WhiteList.load_config conf h.types (WhiteList.new h.white_prefix)
  online ← OnlineHash.load_config conf h.types (OnlineHash.new h.online_prefix)
  done (record h {
    shared = record (h.shared) {
      white_list = install white h.shared.white_list;
      online = install online h.shared.online;
    };
  })

-- `now` and `clock` are the times that the flush of the day's users reads.
unfoldable pub flush_fresh_user_policy : Qconf → Mysql → ℕ → (ℕ → ℕ) → Handler → Outcome Handler
flush_fresh_user_policy conf mysql now clock h = do
  fresh ← flush_fresh_user conf mysql now clock (FreshUser.new h.fresh_prefix)
  push ← flush_push_user_type conf mysql (PushUserType.new h.fresh_prefix)
  done (record h {
    shared = record (h.shared) {
      fresh_user = install fresh h.shared.fresh_user;
      push_user = install push h.shared.push_user;
    };
  })
