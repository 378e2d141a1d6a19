-- ===== src/Tests/Reload.antt =====
-- The calls of the handler, its start and its reloads, on one product and one worker thread.
use ab_dyeing.Base.{
  ◌≡◌, refl, true, not, Option, some, List, [], ◌∷◌, map, Bytes, codes, eqb, is_empty,
  if◌then◌else◌, Bool-cases, inl, inr, arith,
}
use ab_dyeing.Outcome.{done}
use ab_dyeing.Qconf.{text_of, types_path, full_path, IsAnswered}
use ab_dyeing.WhiteList as White
use ab_dyeing.WhiteList.{tmp_business_types}
use ab_dyeing.WhiteList.Load as WhiteLoad
use ab_dyeing.OnlineHash as Online
use ab_dyeing.OnlineHash.Load as OnlineLoad
use ab_dyeing.Proto.{
  DyeingRequest, UidReqInfo, UidLanReqInfo, Reply, new_reply, new_batch_reply, rc_status_ok,
}
use ab_dyeing.Logic.{Logic}
use ab_dyeing.Logic as L
use ab_dyeing.Logic.Decide.{decide}
use ab_dyeing.Handler.{dyeing_lan, batch_dyeing_lan, flush_policy, get_logic, find_logic}
use ab_dyeing.Handler.Single.{reply_of, entries_of, dyeing_lan-entries}
use ab_dyeing.Handler.Batch.{batch_dyeing_lan-map}
use ab_dyeing.Handler.Reload.{types_of, flush_policy-answered}
use ab_dyeing.Tests.Online.{test_hash, one_product-IsUsable}
use ab_dyeing.Tests.Serve.{conf, nodes, served, question}

dyeing_lan-entries_example :
    (choose : Bytes → Option Bytes) × ((t : Bytes)
      → decide test_hash
          (L.init conf)
          served.shared
          (codes "u2")
          (codes "noticias")
          (codes "3")
          (codes "es")
          t
        ≡ done (choose t))
    × (dyeing_lan test_hash served 5 (codes "u2") question new_reply
        ≡ done (reply_of (entries_of choose question.types)))
unfolding get_logic find_logic L.init eqb
dyeing_lan-entries_example =
    dyeing_lan-entries test_hash served 5 (codes "u2") question (L.init conf) refl refl
      one_product-IsUsable

abbrev plain_question : DyeingRequest
plain_question = record {
  app = codes "noticias";
  app_ver = codes "3";
  types = codes "ui" ∷ codes "biz" ∷ [];
}

abbrev two_infos : List UidLanReqInfo
two_infos =
    record { uid = codes "u1"; uid_lan_info = question }
    ∷ record { uid = codes "u2"; uid_lan_info = question }
    ∷ []

batch_dyeing_lan-map_example :
    (answer : UidLanReqInfo → Reply) × ((i : UidLanReqInfo)
      → dyeing_lan test_hash served 5 i.uid i.uid_lan_info new_reply ≡ done (answer i))
    × (batch_dyeing_lan test_hash served 5 two_infos new_batch_reply
        ≡ done (record {
          status = rc_status_ok;
          uid_rep_infos = map (λ i. record { uid = i.uid; uid_rep = answer i }) two_infos;
          isset_uid_rep_infos = true;
        }))
batch_dyeing_lan-map_example =
    batch_dyeing_lan-map test_hash served 5 two_infos (omega arith) one_product-IsUsable

abbrev plain_infos : List UidReqInfo
plain_infos = record { uid = codes "u1"; uid_info = plain_question } ∷ []

nodes-IsAnswered : (path : Bytes) → IsAnswered nodes path
nodes-IsAnswered path e = elim (Bool-cases (eqb path (codes "/o/ui/value"))) [
  | inl h ↦ cc
  | inr h ↦ cc
]

flush_policy-answered_example :
    flush_policy nodes served
    ≡ done (record served {
      shared = record (served.shared) {
        white_list = some (
            WhiteLoad.load_all nodes
              (White.new served.white_prefix)
              (types_of nodes served.white_prefix served.types));
        online =
            if is_empty (text_of (nodes (full_path served.online_prefix (codes "ui"))))
            then served.shared.online
            else some
                (OnlineLoad.load_all nodes (Online.new served.online_prefix) (codes "ui" ∷ []));
      };
    })
unfolding tmp_business_types eqb
flush_policy-answered_example =
    flush_policy-answered nodes served [] (codes "ui") nodes-IsAnswered (λ e. cc) refl

-- The first of two types has no text, and the last has one.
load_config-last_example :
    Online.load_config nodes (codes "biz" ∷ codes "ui" ∷ []) (Online.new (codes "/o"))
    ≡ done (
      OnlineLoad.load_all nodes (Online.new (codes "/o")) (codes "biz" ∷ codes "ui" ∷ []),
      not (is_empty (text_of (nodes (full_path (codes "/o") (codes "ui"))))),
    )
unfolding tmp_business_types eqb
load_config-last_example =
    OnlineLoad.load_config-last nodes (codes "biz" ∷ codes "ui" ∷ []) (codes "biz" ∷ [])
      (codes "ui") (Online.new (codes "/o")) (nodes-IsAnswered (types_path (codes "/o"))) refl
      (
        nodes-IsAnswered (full_path (codes "/o") (codes "biz")),
        (nodes-IsAnswered (full_path (codes "/o") (codes "ui")), tt),
      )
