-- ===== src/Handler/Start.antt =====
-- `ABDyeingHandler::init` of src/dyeing_handler.cc, up to the start of its threads. `config` is
-- what parsing the configuration file gives; `INV_Config` throws where it cannot be read.
use ab_dyeing.Base.{
  ℕ, ◌≡◌, refl, sym, ap, subst, ◌∙◌, Bool, true, false, ◌||◌, some, List, [], ◌∷◌, codes, is_empty,
  is_some, ◌==◌, if◌then◌else◌, arith,
}
use ab_dyeing.Outcome.{Outcome, done, throws, assertion_failed, ◌>>=◌, >>=-eq-done, done-injective}
use ab_dyeing.Qconf.{Qconf}
use ab_dyeing.Mysql.{Mysql}
use ab_dyeing.Util.Sepstr.{sepstr}
use ab_dyeing.WhiteList
use ab_dyeing.OnlineHash
use ab_dyeing.OnlineHash.{Online}
use ab_dyeing.FreshUser
use ab_dyeing.FreshUser.{flush_fresh_user}
use ab_dyeing.PushUserType
use ab_dyeing.Logic
use ab_dyeing.Logic.{Shared, Logic, Config}
use ab_dyeing.Handler.{Handler, find_logic, get_logic}

-- `_logics[tid] = l`.
unfoldable pub put_logic : ℕ → Logic → List (ℕ × Logic) → List (ℕ × Logic)
put_logic tid l [] = (tid, l) ∷ []
put_logic tid l ((t, m) ∷ ls) = if t == tid then (tid, l) ∷ ls else (t, m) ∷ put_logic tid l ls

-- The loop over the worker threads.
unfoldable pub bind_logics : Config → List ℕ → List (ℕ × Logic) → List (ℕ × Logic)
unfolding put_logic
bind_logics conf [] ls = ls
bind_logics conf (tid ∷ tids) ls = bind_logics conf tids (put_logic tid (Logic.init conf) ls)

-- `assert(!v.empty())`.
abbrev pub assert_filled {ℓ} : {A : Type ℓ} → List A → Outcome (List A)
assert_filled [] = throws assertion_failed
assert_filled (a ∷ rest) = done (a ∷ rest)

-- `tids` are the threads of the thread factory, `now` and `clock` the times that the flush reads.
unfoldable pub start : Outcome Config → Qconf → Mysql → ℕ → (ℕ → ℕ) → List ℕ → Outcome Handler
start config qconf mysql now clock tids = do
  conf ← config
  config_types ← assert_filled (conf (codes "/main/base/[types]"))
  types ← assert_filled (sepstr config_types (codes "|") true)
  let white_prefix = conf (codes "/main/base/[white_prefix]")
  white ← WhiteList.load_config qconf types (WhiteList.new white_prefix)
  let online_prefix = conf (codes "/main/base/[online_prefix]")
  online ← OnlineHash.load_config qconf types (OnlineHash.new online_prefix)
  let fresh_prefix = conf (codes "/main/base/[fresh_prefix]")
  fresh ← flush_fresh_user qconf mysql now clock (FreshUser.new fresh_prefix)
  done (record {
    types = types;
    white_prefix = white_prefix;
    online_prefix = online_prefix;
    fresh_prefix = fresh_prefix;
    fresh_hour = conf (codes "/main/base/[fresh_hour]");
    shared = record {
      white_list = some white.0;
      online = some online.0;
      fresh_user = some fresh.0;
      push_user = some (PushUserType.new fresh_prefix);
      kq = [];
    };
    logics = bind_logics conf tids [];
  })

abbrev pub listed : ℕ → List ℕ → Bool
listed tid [] = false
listed tid (t ∷ ts) = t == tid || listed tid ts

find_logic-put_logic :
    (tid t : ℕ) (l : Logic) (ls : List (ℕ × Logic))
    → find_logic tid (put_logic t l ls) ≡ (if t == tid then some l else find_logic tid ls)
unfolding find_logic put_logic
find_logic-put_logic tid t l [] = refl
find_logic-put_logic tid t l ((u, m) ∷ ls) = ground (arith, find_logic-put_logic tid t l ls)

find_logic-bind_logics :
    (conf : Config) (tid : ℕ) (tids : List ℕ) (ls : List (ℕ × Logic))
    → find_logic tid (bind_logics conf tids ls)
      ≡ (if listed tid tids then some (Logic.init conf) else find_logic tid ls)
unfolding bind_logics
find_logic-bind_logics conf tid [] ls = refl
find_logic-bind_logics conf tid (t ∷ ts) ls =
    find_logic-bind_logics conf tid ts (put_logic t (Logic.init conf) ls)
    ∙ rw find_logic-put_logic (ground arith)

-- The handler can serve: no plugin is null, there is a type, and the listed threads have a logic.
pub record IsReady (conf : Config) (tids : List ℕ) (h : Handler) : Type 0 where
  pub white_list : is_some h.shared.white_list ≡ true
  pub online : is_some h.shared.online ≡ true
  pub fresh_user : is_some h.shared.fresh_user ≡ true
  pub push_user : is_some h.shared.push_user ≡ true
  pub types : is_empty h.types ≡ false
  pub logics : (tid : ℕ) → listed tid tids ≡ true → get_logic h tid ≡ some (Logic.init conf)

assert_filled-eq-done {ℓ} :
    {A : Type ℓ} (xs ys : List A) → assert_filled xs ≡ done ys → is_empty ys ≡ false
assert_filled-eq-done [] ys h = cc
assert_filled-eq-done (x ∷ xs) ys h = ap is_empty (sym (done-injective h))

-- A start that returns leaves a handler that is ready for each of the worker threads.
pub start-IsReady :
    (conf : Config) (qconf : Qconf) (mysql : Mysql) (now : ℕ) (clock : ℕ → ℕ) (tids : List ℕ)
    (h : Handler)
    → start (done conf) qconf mysql now clock tids ≡ done h
    → IsReady conf tids h
unfolding start
start-IsReady conf qconf mysql now clock tids h e =
    let (config_types, _, e₁) =
      >>=-eq-done (assert_filled (conf (codes "/main/base/[types]"))) _ e in
    let (types, filled, e₂) =
      >>=-eq-done (assert_filled (sepstr config_types (codes "|") true)) _ e₁ in
    let (white, _, e₃) = >>=-eq-done (WhiteList.load_config qconf types _) _ e₂ in
    let (online, _, e₄) = >>=-eq-done (OnlineHash.load_config qconf types _) _ e₃ in
    let (fresh, _, e₅) = >>=-eq-done (flush_fresh_user qconf mysql now clock _) _ e₄ in
    subst (IsReady conf tids) (done-injective e₅) (record {
      white_list = refl;
      online = refl;
      fresh_user = refl;
      push_user = refl;
      types = assert_filled-eq-done _ types filled;
      logics = λ tid l. unfold get_logic in rw (find_logic-bind_logics conf tid tids [], l);
    })

-- The hash policies of a handler that has started are what its first load read.
pub start-load_config :
    (conf : Config) (qconf : Qconf) (mysql : Mysql) (now : ℕ) (clock : ℕ → ℕ) (tids : List ℕ)
    (h : Handler)
    → start (done conf) qconf mysql now clock tids ≡ done h
    → (r : Online × Bool) × (OnlineHash.load_config qconf h.types
          (OnlineHash.new (conf (codes "/main/base/[online_prefix]")))
        ≡ done r)
      × (h.shared.online ≡ some (r.0))
      × (h.shared.kq ≡ [])
unfolding start
start-load_config conf qconf mysql now clock tids h e =
    let (config_types, _, e₁) =
      >>=-eq-done (assert_filled (conf (codes "/main/base/[types]"))) _ e in
    let (types, _, e₂) = >>=-eq-done (assert_filled (sepstr config_types (codes "|") true)) _ e₁ in
    let (white, _, e₃) = >>=-eq-done (WhiteList.load_config qconf types _) _ e₂ in
    let (online, got, e₄) = >>=-eq-done (OnlineHash.load_config qconf types _) _ e₃ in
    let (fresh, _, e₅) = >>=-eq-done (flush_fresh_user qconf mysql now clock _) _ e₄ in
    let same = done-injective e₅ in
    (
      online,
      subst
          (λ (k : Handler).
            OnlineHash.load_config qconf k.types
              (OnlineHash.new (conf (codes "/main/base/[online_prefix]")))
            ≡ done online)
          same got,
      sym (ap (λ (k : Handler). k.shared.online) same),
      sym (ap (λ (k : Handler). k.shared.kq) same),
    )
