-- ===== src/Application/Serving.antt =====
-- From the command line to a reply.
use ab_dyeing.Base.{ℕ, ◌≡◌, true, false, Option, List, Bytes, codes, is_empty, subst, sym, ◌∙◌}
use ab_dyeing.Outcome.{done, done-injective}
use ab_dyeing.Argv.{get_value}
use ab_dyeing.ConfigFile.Tree.{Domain}
use ab_dyeing.ConfigFile.Reader.{parse_file}
use ab_dyeing.Qconf.{Qconf}
use ab_dyeing.Mysql.{Mysql}
use ab_dyeing.Proto.{DyeingLanRequest, new_reply}
use ab_dyeing.Logic.{Config}
use ab_dyeing.Logic as L
use ab_dyeing.Logic.Decide.{decide}
use ab_dyeing.Handler.{Handler, dyeing_lan}
use ab_dyeing.Handler.Start.{listed, start}
use ab_dyeing.Handler.Single.{reply_of, entries_of}
use ab_dyeing.FreshKafka.Message.{Document}
use ab_dyeing.Server.{Server, IsGoodConf, Reach, no_users, Reach-dyeing_lan}
use ab_dyeing.Application.{ServerSettings, config_at, run}
use ab_dyeing.Application.Chosen.{argv_of}
use ab_dyeing.Application.Started.{run-started}

-- The program's start returns, with a file that can be read, and every product that is not skipped
-- has an interval at the start and at each reload, and no two messages come in at the same
-- microsecond: in every state that it reaches by reloads, messages and clearings, a request for one type or more on a worker thread is defined,
-- and its reply holds one entry for each type that is given a configuration, in the order of the
-- request; its status is OK exactly if there is an entry.
pub run-serves :
    (parse : Bytes → Document) (argv : List Bytes) (files : Bytes → Option Bytes) (qconf : Qconf)
    (mysql : Mysql) (now : ℕ) (clock : ℕ → ℕ) (tids : List ℕ) (root : Domain)
    (settings : ServerSettings) (h : Handler) (s : Server) (city_hash : Bytes → ℕ → ℕ) (tid : ℕ)
    (uid : Bytes) (req : DyeingLanRequest)
    → parse_file files (get_value (codes "config") (argv_of argv)) ≡ done root
    → IsGoodConf qconf (config_at root (codes "/main/base/[online_prefix]"))
    → run argv files qconf mysql now clock tids ≡ done (settings, h)
    → Reach parse (record { handler = h; current = no_users }) s
    → listed tid tids ≡ true
    → is_empty req.types ≡ false
    → (choose : Bytes → Option Bytes) × ((t : Bytes)
        → decide city_hash
            (L.init (config_at root))
            s.handler.shared
            uid
            req.app
            req.app_ver
            req.app_lan
            t
          ≡ done (choose t))
      × (dyeing_lan city_hash s.handler tid uid req new_reply
          ≡ done (reply_of (entries_of choose req.types)))
run-serves parse argv files qconf mysql now clock tids root settings h s city_hash tid uid req p
      good e reach l n =
    let (root', parsed, chosen, started) =
      run-started argv files qconf mysql now clock tids settings h e in
    let same : root' ≡ root = done-injective (sym parsed ∙ p) in
    Reach-dyeing_lan parse (config_at root) tids qconf mysql now clock good h s city_hash tid uid
      req (subst (λ r. start (done (config_at r)) qconf mysql now clock tids ≡ done h) same started)
      reach l n
