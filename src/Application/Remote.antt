-- ===== src/Application/Remote.antt =====
-- From the command line to the reply that a client receives over the wire.
use ab_dyeing.Base.{
  ℕ, ◌≡◌, true, false, Option, some, List, All, All-map, Bytes, codes, is_empty, ap, subst, sym,
  ◌∙◌,
}
use ab_dyeing.Outcome.{Exception, done}
use ab_dyeing.Argv.{get_value}
use ab_dyeing.ConfigFile.Tree.{Domain}
use ab_dyeing.ConfigFile.Reader.{parse_file}
use ab_dyeing.Qconf.{Qconf}
use ab_dyeing.Mysql.{Mysql}
use ab_dyeing.Proto.{AbStatus, DyeingLanRequest, Reply, new_reply}
use ab_dyeing.Proto.Request.RoundTrip.{IsSendableLanRequest}
use ab_dyeing.Proto.Answer.RoundTrip.{IsSendableReply}
use ab_dyeing.Thrift.{TProtocol}
use ab_dyeing.Thrift.Laws.{IsText, IsProtocol, IsConsuming}
use ab_dyeing.Service.Client.{send_dyeing_lan, recv_dyeing_lan}
use ab_dyeing.Service.Exchange.{Exchanged, CanAnswer}
use ab_dyeing.Service.Calls.{dyeing_lan-Exchanged}
use ab_dyeing.Service.Serving.{handler_iface, Named, reply_of-IsSendable}
use ab_dyeing.Logic as L
use ab_dyeing.Logic.Decide.{decide}
use ab_dyeing.Handler.{Handler, dyeing_lan}
use ab_dyeing.Handler.Start.{listed}
use ab_dyeing.Handler.Single.{reply_of, entries_of}
use ab_dyeing.FreshKafka.Message.{Document}
use ab_dyeing.Server.{Server, IsGoodConf, Reach, no_users}
use ab_dyeing.Application.{ServerSettings, config_at, run}
use ab_dyeing.Application.Chosen.{argv_of}
use ab_dyeing.Application.Serving.{run-serves}

-- The client receives the reply that the handler gives.
handler-Exchanged :
    (p : TProtocol) (what : Exception → Bytes) (unspecified : ℕ → AbStatus)
    (city_hash : Bytes → ℕ → ℕ) (h : Handler) (tid : ℕ) (uid : Bytes) (req : DyeingLanRequest)
    (r : Reply)
    → IsProtocol p
    → IsConsuming p
    → IsText uid
    → IsSendableLanRequest req
    → IsSendableReply r
    → dyeing_lan city_hash h tid uid req new_reply ≡ done r
    → Exchanged p what
        (handler_iface city_hash h tid)
        (codes "DyeingLan")
        (send_dyeing_lan p uid req)
        (recv_dyeing_lan p unspecified new_reply)
        (done r)
unfolding handler_iface
handler-Exchanged p what unspecified city_hash h tid uid req r w c text small fine e =
    let iface = handler_iface city_hash h tid in
    subst
      (Exchanged p what iface (codes "DyeingLan") (send_dyeing_lan p uid req)
        (recv_dyeing_lan p unspecified new_reply))
      e
      (dyeing_lan-Exchanged w c what unspecified iface uid req text small
        (subst (CanAnswer IsSendableReply what) (sym e) fine))

-- The program's start returns, with a file that can be read, and every product that is not skipped
-- has an interval at the start and at each reload, and no two messages come in at the same
-- microsecond: in every state that it reaches by reloads, messages and clearings, a client that
-- sends a request for one type or more, which a worker thread serves over a protocol that keeps
-- what it documents, receives the reply with one entry for each type that is given a
-- configuration, in the order of the request. The uid, the texts and the list of the request, and
-- the configurations of its types, are shorter than 2 ^ 31.
pub run-answers :
    (parse : Bytes → Document) (argv : List Bytes) (files : Bytes → Option Bytes) (qconf : Qconf)
    (mysql : Mysql) (now : ℕ) (clock : ℕ → ℕ) (tids : List ℕ) (root : Domain)
    (settings : ServerSettings) (h : Handler) (s : Server) (city_hash : Bytes → ℕ → ℕ) (tid : ℕ)
    (uid : Bytes) (req : DyeingLanRequest) (p : TProtocol) (what : Exception → Bytes)
    (unspecified : ℕ → AbStatus)
    → IsProtocol p
    → IsConsuming p
    → IsText uid
    → IsSendableLanRequest req
    → All
        (λ t.
          (id : Bytes)
          → decide city_hash
              (L.init (config_at root))
              s.handler.shared
              uid
              req.app
              req.app_ver
              req.app_lan
              t
            ≡ done (some id)
          → IsText id)
        req.types
    → parse_file files (get_value (codes "config") (argv_of argv)) ≡ done root
    → IsGoodConf qconf (config_at root (codes "/main/base/[online_prefix]"))
    → run argv files qconf mysql now clock tids ≡ done (settings, h)
    → Reach parse (record { handler = h; current = no_users }) s
    → listed tid tids ≡ true
    → is_empty req.types ≡ false
    → (choose : Bytes → Option Bytes) × ((t : Bytes)
        → decide city_hash
            (L.init (config_at root))
            s.handler.shared
            uid
            req.app
            req.app_ver
            req.app_lan
            t
          ≡ done (choose t))
      × Exchanged p what
          (handler_iface city_hash s.handler tid)
          (codes "DyeingLan")
          (send_dyeing_lan p uid req)
          (recv_dyeing_lan p unspecified new_reply)
          (done (reply_of (entries_of choose req.types)))
run-answers parse argv files qconf mysql now clock tids root settings h s city_hash tid uid req p
      what unspecified w c text small ids opened good e reach l n =
    let (choose, decided, replied) =
      run-serves parse argv files qconf mysql now clock tids root settings h s city_hash tid uid req
        opened good e reach l n in
    let named : All (Named choose) req.types =
      All-map _ _ (λ t h id k. h id (decided t ∙ ap done k)) req.types ids in
    let fine = reply_of-IsSendable choose req.types named small.short small.types in
    (
      choose,
      decided,
      handler-Exchanged p what unspecified city_hash s.handler tid uid req
          (reply_of (entries_of choose req.types)) w c text small fine replied,
    )
