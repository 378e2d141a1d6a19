-- ===== src/Tests/Serve.antt =====
-- A server with one product and one worker thread, from its start over a reload and a message to
-- a request.
use ab_dyeing.Base.{
  ℕ, ◌+◌, ◌≡◌, refl, true, Option, some, [], ◌∷◌, Bytes, codes, find, eqb, if◌then◌else◌,
  Bool-cases, inl, inr,
}
use ab_dyeing.Outcome.{done}
use ab_dyeing.Util.Sepstr.{sepstr, sepstr_loop, find_first_of, index_of, in_set, push_piece}
use ab_dyeing.Util.Decimal.{atoi_u32}
use ab_dyeing.Qconf.{Qconf, QconfReply, qconf_ok, not_found, text_of, full_path}
use ab_dyeing.Qconf as Q
use ab_dyeing.Mysql.{Mysql, rows, settings, connect}
use ab_dyeing.WhiteList as White
use ab_dyeing.OnlineHash as Online
use ab_dyeing.OnlineHash.Load.{IsGoodText}
use ab_dyeing.FreshUser as Fresh
use ab_dyeing.PushUserType as Push
use ab_dyeing.Proto.{DyeingLanRequest, new_reply}
use ab_dyeing.Logic.{Config, Logic, Shared}
use ab_dyeing.Logic as L
use ab_dyeing.Logic.Decide.{decide}
use ab_dyeing.Handler.{Handler, dyeing_lan, flush_policy, each_type, get_logic, find_logic}
use ab_dyeing.Handler.Start.{IsReady, start, start-IsReady, put_logic, bind_logics}
use ab_dyeing.Handler.Single.{reply_of, entries_of}
use ab_dyeing.FreshKafka.{CurrentFresh}
use ab_dyeing.FreshKafka as Kafka
use ab_dyeing.FreshKafka.Message.{
  Document, object, json_string, process_kafka, get_string, c_string,
}
use ab_dyeing.FreshKafka.Message.Queue as Queue
use ab_dyeing.Server.{
  Server, with_queue, IsGoodConf, reload_policy, queue, Reach, begin, after, no_users,
  Reach-dyeing_lan,
}
use ab_dyeing.Tests.Online.{test_hash, one_product}

abbrev pub conf : Config
conf path =
    if eqb path (codes "/main/base/[types]")
    then codes "ui"
    else if eqb path (codes "/main/base/[online_prefix]")
    then codes "/o"
    else []

abbrev policy_conf : Bytes
policy_conf = codes "noticias|exp_:7:a,0,499:b,500,999"

abbrev pub nodes : Qconf
nodes path = if eqb path (codes "/o/ui/value") then qconf_ok policy_conf else not_found

abbrev pub no_rows : Mysql
no_rows = record { connects = λ s. true; query = λ s q. rows [] }

abbrev pub served : Handler
served = record {
  types = codes "ui" ∷ [];
  white_prefix = [];
  online_prefix = codes "/o";
  fresh_prefix = [];
  fresh_hour = [];
  shared = record {
    white_list = some (record { prefix = []; map = [] });
    online = some one_product;
    fresh_user = some (record { prefix = []; map = [] });
    push_user = some (record { prefix = []; user_type_map = [] });
    kq = [];
  };
  logics = (5, record { fresh_product_suffix = codes "fresh" }) ∷ [];
}

abbrev pub clock : ℕ → ℕ
clock i = 1700000000000000 + i

pub served-start : start (done conf) nodes no_rows 1700000000 clock (5 ∷ []) ≡ done served
unfolding start eqb sepstr sepstr_loop find_first_of index_of in_set push_piece White.load_config
    White.load_types White.load_internal White.load_pairs White.load_pair White.tmp_business_types
    Q.get Online.load_config Online.load_types Online.load_internal Online.parse_product_policy
    Online.parse_products Online.parse_product Online.parse_policy Online.parse_conf_id_infos
    Online.parse_conf_id_info atoi_u32 find Fresh.flush_fresh_user Fresh.sql Fresh.store connect
    settings bind_logics put_logic L.init
served-start = refl

served-IsReady : IsReady conf (5 ∷ []) served
served-IsReady = start-IsReady conf nodes no_rows 1700000000 clock (5 ∷ []) served served-start

blank_text-IsGood : IsGoodText []
unfolding sepstr sepstr_loop find_first_of index_of in_set push_piece
blank_text-IsGood = (tt, tt)

policy_conf-IsGood : IsGoodText policy_conf
unfolding sepstr sepstr_loop find_first_of index_of in_set push_piece Online.parse_policy
    Online.parse_conf_id_infos Online.parse_conf_id_info atoi_u32
policy_conf-IsGood = ((λ p e n. cc), tt)

pub nodes-IsGoodConf : IsGoodConf nodes (codes "/o")
nodes-IsGoodConf t = elim (Bool-cases (eqb (full_path (codes "/o") t) (codes "/o/ui/value"))) [
  | inl e ↦ rw e policy_conf-IsGood
  | inr e ↦ rw e blank_text-IsGood
]

pub served-flush_policy : flush_policy nodes served ≡ done served
unfolding flush_policy eqb sepstr sepstr_loop find_first_of index_of in_set push_piece
    White.load_config White.load_types White.load_internal White.load_pairs White.load_pair
    White.tmp_business_types Q.get Online.load_config Online.load_types Online.load_internal
    Online.parse_product_policy Online.parse_products Online.parse_product Online.parse_policy
    Online.parse_conf_id_infos Online.parse_conf_id_info atoi_u32 find
served-flush_policy = refl

-- Any function serves as the parser.
abbrev pub parse : Bytes → Document
parse msg =
    object ((codes "uid", json_string (codes "u1")) ∷ (codes "event_time", json_string msg) ∷ [])

abbrev one_user : CurrentFresh
one_user = record {
  time_kmsg = (1700000000000000, codes "u1") ∷ [];
  kq = (codes "u1", 1700000000000001) ∷ [];
}

heard : process_kafka parse (codes "7") 1700000000000000 1700000000000001 no_users ≡ done one_user
unfolding process_kafka get_string c_string find eqb Kafka.set
heard = refl

abbrev pub later : Server
later = record { handler = with_queue served one_user; current = one_user }

pub later-Reach : Reach parse (record { handler = served; current = no_users }) later
later-Reach =
    after (after begin (reload_policy nodes nodes-IsGoodConf served-flush_policy refl))
      (queue (Queue.receive (codes "7") 1700000000000000 1700000000000001 refl heard) refl)

abbrev pub question : DyeingLanRequest
question = record {
  app = codes "noticias";
  app_ver = codes "3";
  app_lan = codes "es";
  types = codes "ui" ∷ codes "biz" ∷ [];
}

Reach-dyeing_lan_example :
    (choose : Bytes → Option Bytes) × ((t : Bytes)
      → decide test_hash
          (L.init conf)
          later.handler.shared
          (codes "u2")
          (codes "noticias")
          (codes "3")
          (codes "es")
          t
        ≡ done (choose t))
    × (dyeing_lan test_hash later.handler 5 (codes "u2") question new_reply
        ≡ done (reply_of (entries_of choose question.types)))
unfolding eqb
Reach-dyeing_lan_example =
    Reach-dyeing_lan parse conf (5 ∷ []) nodes no_rows 1700000000 clock nodes-IsGoodConf served
      later test_hash 5 (codes "u2") question served-start later-Reach refl refl

-- The user's bucket is 607, in the second interval; the type "biz" has no policy.
asked :
    dyeing_lan test_hash later.handler 5 (codes "u2") question new_reply
    ≡ done (reply_of (L.to_entry (codes "ui") (codes "exp_b") ∷ []))
unfolding dyeing_lan each_type get_logic find_logic L.on_dyeing L.handle_white_list White.get
    L.dyeing_app L.handle_push_user L.handle_fresh_user L.handle_online_hash Fresh.get Push.get
    Online.get Online.product_id Online.config_of Online.conf_id_of Online.find_conf_id L.to_entry
    find eqb
asked = refl
