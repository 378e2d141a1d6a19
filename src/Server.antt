-- ===== src/Server.antt =====
-- The server as its threads run it: the handler of src/dyeing_handler.cc with the queue of
-- src/fresh_kafka.cc. The timers' reloads, the messages and the clearing of the queue are steps
-- in any order; a request reads the state between two steps. `kq` of the handler is the map of the
-- queue. The source swaps each `shared_ptr` without a lock, which a step takes to be atomic. A
-- reload or a message that throws ends the process, so it is no step.
pub mod NewUser
use ab_dyeing.Base.{
  ℕ, ◌≡◌, refl, sym, ap, subst, ◌∙◌, Bool, true, false, Option, none, some, List, [], ◌∷◌, Bytes,
  codes, Dict, find, is_empty, is_some, arith,
}
use ab_dyeing.Outcome.{Outcome, done, ◌>>=◌, >>=-eq-done, done-injective}
use ab_dyeing.Qconf.{Qconf, text_of, types_path, full_path}
use ab_dyeing.Mysql.{Mysql}
use ab_dyeing.WhiteList
use ab_dyeing.OnlineHash
use ab_dyeing.OnlineHash.Load.{IsGoodText, load_config-IsUsable}
use ab_dyeing.FreshUser
use ab_dyeing.FreshUser.{flush_fresh_user}
use ab_dyeing.PushUserType
use ab_dyeing.PushUserType.{flush_push_user_type}
use ab_dyeing.Proto.{DyeingLanRequest, UidLanReqInfo, Reply, new_reply}
use ab_dyeing.Logic
use ab_dyeing.Logic.{Config}
use ab_dyeing.Logic.Decide.{IsUsableShared, IsUsableIn, decide}
use ab_dyeing.FreshKafka.{CurrentFresh}
use ab_dyeing.FreshKafka.Expiry.{IsTracked}
use ab_dyeing.FreshKafka.Message.{Document}
use ab_dyeing.FreshKafka.Message.Queue as Queue
use ab_dyeing.Handler.{
  Handler, get_logic, install, dyeing_lan, flush_policy, flush_fresh_user_policy,
}
use ab_dyeing.Handler.Start.{IsReady, listed, start, start-IsReady, start-load_config}
use ab_dyeing.Handler.Single.{reply_of, entries_of, dyeing_lan-entries}
use ab_dyeing.Handler.Reload.{flush_policy-IsUsable}

pub record Server : Type 0 where
  pub handler : Handler
  pub current : CurrentFresh

abbrev pub with_queue : Handler → CurrentFresh → Handler
with_queue h c = record h { shared = record (h.shared) { kq = c.kq } }

-- Every product of a type's policy text that is not skipped has an interval.
abbrev pub IsGoodConf : Qconf → Bytes → Type 0
IsGoodConf conf prefix = (t : Bytes) → IsGoodText (text_of (conf (full_path prefix t)))

pub data Step (parse : Bytes → Document) (s s' : Server) : Type 0 where
  reload_policy :
      (conf : Qconf)
      → IsGoodConf conf s.handler.online_prefix
      → flush_policy conf s.handler ≡ done s'.handler
      → s'.current ≡ s.current
      → Step parse s s'
  reload_users :
      (conf : Qconf) (mysql : Mysql) (now : ℕ) (clock : ℕ → ℕ)
      → flush_fresh_user_policy conf mysql now clock s.handler ≡ done s'.handler
      → s'.current ≡ s.current
      → Step parse s s'
  queue :
      Queue.Step parse s.current s'.current
      → s'.handler ≡ with_queue s.handler s'.current
      → Step parse s s'

pub data Reach (parse : Bytes → Document) (s : Server) : Server → Type 0 where
  begin : Reach parse s s
  after : {t u : Server} → Reach parse s t → Step parse t u → Reach parse s u

-- The queue of a server that starts.
abbrev pub no_users : CurrentFresh
no_users = record { time_kmsg = []; kq = [] }

no_users-IsTracked : IsTracked no_users
unfolding find
no_users-IsTracked = record { rises = tt; recorded = λ uid h. cc }

-- What the steps keep.
pub record IsServing (conf : Config) (tids : List ℕ) (s : Server) : Type 0 where
  pub ready : IsReady conf tids s.handler
  pub usable : IsUsableShared s.handler.shared
  pub tracked : IsTracked s.current
  pub same_queue : s.handler.shared.kq ≡ s.current.kq

install-is_some {ℓ} :
    {A : Type ℓ} (r : A × Bool) (old : Option A)
    → is_some old ≡ true
    → is_some (install r old) ≡ true
install-is_some (a, true) old h = refl
install-is_some (a, false) old h = h

flush_policy-IsReady :
    (conf : Config) (tids : List ℕ) (qconf : Qconf) (h h' : Handler)
    → flush_policy qconf h ≡ done h'
    → IsReady conf tids h
    → IsReady conf tids h' × (h'.shared.kq ≡ h.shared.kq)
unfolding flush_policy get_logic
flush_policy-IsReady conf tids qconf h h' e r =
    let (white, _, e₁) =
      >>=-eq-done (WhiteList.load_config qconf h.types (WhiteList.new h.white_prefix)) _ e in
    let (online, _, e₂) =
      >>=-eq-done (OnlineHash.load_config qconf h.types (OnlineHash.new h.online_prefix)) _ e₁ in
    subst (λ k. IsReady conf tids k × (k.shared.kq ≡ h.shared.kq)) (done-injective e₂)
      (
        record {
          white_list = install-is_some white h.shared.white_list r.white_list;
          online = install-is_some online h.shared.online r.online;
          fresh_user = r.fresh_user;
          push_user = r.push_user;
          types = r.types;
          logics = r.logics;
        },
        refl,
      )

flush_fresh_user_policy-IsReady :
    (conf : Config) (tids : List ℕ) (qconf : Qconf) (mysql : Mysql) (now : ℕ) (clock : ℕ → ℕ)
    (h h' : Handler)
    → flush_fresh_user_policy qconf mysql now clock h ≡ done h'
    → IsReady conf tids h
    → IsUsableShared h.shared
    → IsReady conf tids h' × IsUsableShared h'.shared × (h'.shared.kq ≡ h.shared.kq)
unfolding flush_fresh_user_policy get_logic
flush_fresh_user_policy-IsReady conf tids qconf mysql now clock h h' e r u =
    let (fresh, _, e₁) =
      >>=-eq-done (flush_fresh_user qconf mysql now clock (FreshUser.new h.fresh_prefix)) _ e in
    let (push, _, e₂) =
      >>=-eq-done (flush_push_user_type qconf mysql (PushUserType.new h.fresh_prefix)) _ e₁ in
    subst (λ k. IsReady conf tids k × IsUsableShared k.shared × (k.shared.kq ≡ h.shared.kq))
      (done-injective e₂)
      (
        record {
          white_list = r.white_list;
          online = r.online;
          fresh_user = install-is_some fresh h.shared.fresh_user r.fresh_user;
          push_user = install-is_some push h.shared.push_user r.push_user;
          types = r.types;
          logics = r.logics;
        },
        u,
        refl,
      )

with_queue-IsReady :
    (conf : Config) (tids : List ℕ) (h : Handler) (c : CurrentFresh)
    → IsReady conf tids h
    → IsReady conf tids (with_queue h c)
unfolding get_logic
with_queue-IsReady conf tids h c r = record {
  white_list = r.white_list;
  online = r.online;
  fresh_user = r.fresh_user;
  push_user = r.push_user;
  types = r.types;
  logics = r.logics;
}

module _ (parse : Bytes → Document) (conf : Config) (tids : List ℕ) where
  Step-IsServing :
      {s s' : Server} → Step parse s s' → IsServing conf tids s → IsServing conf tids s'
  Step-IsServing {s} {s'} (reload_policy qconf good e same) i =
      let (ready, kq) = flush_policy-IsReady conf tids qconf s.handler s'.handler e i.ready in
      record {
        ready = ready;
        usable = flush_policy-IsUsable qconf s.handler s'.handler good e i.usable;
        tracked = subst IsTracked (sym same) i.tracked;
        same_queue = kq ∙ i.same_queue ∙ ap (λ (c : CurrentFresh). c.kq) (sym same);
      }
  Step-IsServing {s} {s'} (reload_users qconf mysql now clock e same) i =
      let (ready, usable, kq) =
        flush_fresh_user_policy-IsReady conf tids qconf mysql now clock s.handler s'.handler e
          i.ready i.usable in
      record {
        ready = ready;
        usable = usable;
        tracked = subst IsTracked (sym same) i.tracked;
        same_queue = kq ∙ i.same_queue ∙ ap (λ (c : CurrentFresh). c.kq) (sym same);
      }
  Step-IsServing {s} {s'} (queue q same) i = record {
    ready =
        subst (IsReady conf tids) (sym same)
          (with_queue-IsReady conf tids s.handler s'.current i.ready);
    usable = subst (λ (h : Handler). IsUsableShared h.shared) (sym same) i.usable;
    tracked = Queue.Reach-IsTracked parse (Queue.after Queue.begin q) i.tracked;
    same_queue = ap (λ (h : Handler). h.shared.kq) same;
  }

  Reach-IsServing :
      {s s' : Server} → Reach parse s s' → IsServing conf tids s → IsServing conf tids s'
  Reach-IsServing begin i = i
  Reach-IsServing (after r t) i = Step-IsServing t (Reach-IsServing r i)

  module _ (qconf : Qconf) (mysql : Mysql) (now : ℕ) (clock : ℕ → ℕ)
      (good : IsGoodConf qconf (conf (codes "/main/base/[online_prefix]"))) where
    start-IsServing :
        (h : Handler)
        → start (done conf) qconf mysql now clock tids ≡ done h
        → IsServing conf tids (record { handler = h; current = no_users })
    start-IsServing h e =
        let (r, got, online, kq) = start-load_config conf qconf mysql now clock tids h e in
        record {
          ready = start-IsReady conf qconf mysql now clock tids h e;
          usable = subst IsUsableIn (sym online) (
              load_config-IsUsable qconf h.types (conf (codes "/main/base/[online_prefix]")) r good
                got);
          tracked = no_users-IsTracked;
          same_queue = kq;
        }

    -- A server whose start returns, where every product that is not skipped has an interval at the
    -- start and at each reload, and no two messages come in at the same microsecond, serves in every
    -- state that it reaches: a request for one type or more on one of its worker threads is defined,
    -- and its reply holds one entry for each type that is given a configuration, in the order of the
    -- request; its status is OK exactly if there is an entry.
    pub Reach-dyeing_lan :
        (h : Handler) (s : Server) (city_hash : Bytes → ℕ → ℕ) (tid : ℕ) (uid : Bytes)
        (req : DyeingLanRequest)
        → start (done conf) qconf mysql now clock tids ≡ done h
        → Reach parse (record { handler = h; current = no_users }) s
        → listed tid tids ≡ true
        → is_empty req.types ≡ false
        → (choose : Bytes → Option Bytes) × ((t : Bytes)
            → decide city_hash
                (Logic.init conf)
                s.handler.shared
                uid
                req.app
                req.app_ver
                req.app_lan
                t
              ≡ done (choose t))
          × (dyeing_lan city_hash s.handler tid uid req new_reply
              ≡ done (reply_of (entries_of choose req.types)))
    Reach-dyeing_lan h s city_hash tid uid req e r l n =
        let i = Reach-IsServing r (start-IsServing h e) in
        dyeing_lan-entries city_hash s.handler tid uid req (Logic.init conf) (i.ready.logics tid l)
          n i.usable
