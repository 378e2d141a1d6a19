-- ===== src/Tests/Remote.antt =====
-- Calls over the wire, with the protocol of Wire.
use ab_dyeing.Base.{
  ℕ, ◌≡◌, ◌≤◌, refl, sym, subst, true, false, none, some, Option, [], ◌∷◌, ◌++◌, Bytes, codes, All,
  find, eqb, length, arith,
}
use ab_dyeing.Outcome.{
  Outcome, Exception, done, throws, mysql_exception, protocol_exception, Ensures,
}
use ab_dyeing.Proto.{
  AbStatus, rc_status_ok, rc_unknow_error, BatchReply, BatchLanRequest, new_reply, new_batch_reply,
}
use ab_dyeing.Proto.Request.{read_lan_request}
use ab_dyeing.Proto.Request.RoundTrip.{IsSendableLanRequest}
use ab_dyeing.Proto.Request.Partial.{write_partial, read_lan_request-partial}
use ab_dyeing.Proto.UidRequest.RoundTrip.{IsSendableBatchLanRequest}
use ab_dyeing.Proto.Answer.{read_batch_reply, write_batch_reply}
use ab_dyeing.Proto.Answer.RoundTrip.{IsSendableBatchReply, read_batch_reply-write}
use ab_dyeing.Service.Client.{
  send_dyeing_lan, recv_dyeing_lan, send_batch_dyeing_lan, recv_batch_dyeing_lan,
}
use ab_dyeing.Service.Processor.{Iface, is_caught, dispatch_call}
use ab_dyeing.Service.Exchange.{Exchanged}
use ab_dyeing.Service.Calls.{batch_dyeing_lan-Exchanged}
use ab_dyeing.Service.Serving.{handler_iface}
use ab_dyeing.Service.Ends.{IsDefined, dispatch_call-ends}
use ab_dyeing.Logic as L
use ab_dyeing.Logic.Decide.{decide}
use ab_dyeing.OnlineHash as Online
use ab_dyeing.FreshUser as Fresh
use ab_dyeing.PushUserType as Push
use ab_dyeing.WhiteList as White
use ab_dyeing.Thrift.Laws.{IsText}
use ab_dyeing.Handler.Single.{reply_of, entries_of}
use ab_dyeing.Server.{IsGoodConf}
use ab_dyeing.Application.{config_at}
use ab_dyeing.Application.Remote.{run-answers}
use ab_dyeing.Argv.Options.{texts}
use ab_dyeing.Tests.File.{file_root}
use ab_dyeing.Tests.Online.{test_hash}
use ab_dyeing.Tests.Program.{said, files, listening, said-run, said-parsed, prefix-read}
use ab_dyeing.Tests.Serve.{
  conf, nodes, no_rows, served, clock, later, later-Reach, question, nodes-IsGoodConf,
}
use ab_dyeing.Tests.Serve as Serve
use ab_dyeing.Tests.Wire.{wire}
use ab_dyeing.Tests.Wire.Kept.{wire-IsProtocol, wire-IsConsuming}

abbrev what : Exception → Bytes
what e = codes "failed"

abbrev unspecified : ℕ → AbStatus
unspecified n = rc_unknow_error

question-IsSendable : IsSendableLanRequest question
question-IsSendable = record {
  app = omega arith;
  app_ver = omega arith;
  app_lan = omega arith;
  short = omega arith;
  types = omega arith;
}

abbrev decided : Bytes → Outcome (Option Bytes)
decided t =
    decide test_hash (L.init (config_at file_root)) later.handler.shared (codes "u2")
      (codes "noticias") (codes "3") (codes "es") t

decided-ui : decided (codes "ui") ≡ done (some (codes "exp_b"))
unfolding L.handle_white_list White.get L.dyeing_app L.handle_push_user L.handle_fresh_user
    L.handle_online_hash Fresh.get Push.get Online.get Online.product_id Online.config_of
    Online.conf_id_of Online.find_conf_id find eqb
decided-ui = refl

decided-biz : decided (codes "biz") ≡ done none
unfolding L.handle_white_list White.get L.dyeing_app L.handle_push_user L.handle_fresh_user
    L.handle_online_hash Fresh.get Push.get Online.get Online.product_id Online.config_of
    Online.conf_id_of Online.find_conf_id find eqb
decided-biz = refl

short-some :
    (o : Outcome (Option Bytes)) (a id : Bytes)
    → IsText a
    → o ≡ done (some a)
    → o ≡ done (some id)
    → IsText id
short-some o a id small e f = let same : a ≡ id = cc in subst IsText same small

short-none :
    (o : Outcome (Option Bytes)) (id : Bytes) → o ≡ done none → o ≡ done (some id) → IsText id
short-none o id e f = cc

named : All (λ t. (id : Bytes) → decided t ≡ done (some id) → IsText id) question.types
named = (
  λ id. short-some (decided (codes "ui")) (codes "exp_b") id (omega arith) decided-ui,
  (λ id. short-none (decided (codes "biz")) id decided-biz, tt),
)

run-answers_example :
    (choose : Bytes → Option Bytes) × ((t : Bytes) → decided t ≡ done (choose t))
    × Exchanged wire what
        (handler_iface test_hash later.handler 5)
        (codes "DyeingLan")
        (send_dyeing_lan wire (codes "u2") question)
        (recv_dyeing_lan wire unspecified new_reply)
        (done (reply_of (entries_of choose question.types)))
unfolding eqb
run-answers_example =
    run-answers Serve.parse (codes "server" ∷ texts said) files nodes no_rows 1700000000 clock
      (5 ∷ []) file_root listening served later test_hash 5 (codes "u2") question wire what
      unspecified wire-IsProtocol wire-IsConsuming (omega arith) question-IsSendable named
      said-parsed (subst (IsGoodConf nodes) (sym prefix-read) nodes-IsGoodConf) said-run later-Reach
      refl refl

-- An implementation that gives the same replies to all, and whose batches fail.
abbrev failing : Iface
failing = record {
  dyeing_call = λ uid req r. done r;
  dyeing_lan_call = λ uid req r. done r;
  batch_dyeing_call = λ reqs r. done r;
  batch_dyeing_lan_call = λ reqs r. throws mysql_exception;
}

failing-IsDefined : IsDefined failing
failing-IsDefined = record {
  dyeing_defined = λ uid req e. cc;
  dyeing_lan_defined = λ uid req e. cc;
  batch_dyeing_defined = λ reqs e. cc;
  batch_dyeing_lan_defined = λ reqs e. cc;
}

-- A name that no call has, and bytes that end in the middle of a struct.
dispatch_call-ends_example :
    Ensures (λ r. length (r.1) ≤ 3) (dispatch_call wire what failing (codes "x") 7 (2 ∷ 1 ∷ 0 ∷ []))
dispatch_call-ends_example =
    dispatch_call-ends wire what failing (codes "x") 7 (2 ∷ 1 ∷ 0 ∷ []) wire-IsConsuming
      failing-IsDefined

abbrev batch : BatchLanRequest
batch = record { uid = codes "u2"; uid_lan_info = question } ∷ []

batch-IsSendable : IsSendableBatchLanRequest batch
batch-IsSendable = record {
  short = omega arith;
  uid_lan_req_infos = (record { uid = omega arith; uid_lan_info = question-IsSendable }, tt);
}

batch_dyeing_lan-Exchanged_example :
    Exchanged wire what failing
      (codes "BatchDyeingLan")
      (send_batch_dyeing_lan wire batch)
      (recv_batch_dyeing_lan wire unspecified new_batch_reply)
      (throws mysql_exception)
unfolding is_caught
batch_dyeing_lan-Exchanged_example =
    batch_dyeing_lan-Exchanged wire-IsProtocol wire-IsConsuming what unspecified failing batch
      batch-IsSendable (refl, omega arith)

abbrev answered : BatchReply
answered = record {
  status = rc_status_ok;
  uid_rep_infos =
      record {
        uid = codes "u2";
        uid_rep = record {
          status = rc_status_ok;
          entries = record { type = codes "ui"; config_id = codes "b" } ∷ [];
          isset_entries = true;
        };
      }
      ∷ [];
  isset_uid_rep_infos = true;
}

answered-IsSendable : IsSendableBatchReply answered
answered-IsSendable = record {
  short = omega arith;
  uid_rep_infos = (
    record {
      uid = omega arith;
      uid_rep = record {
        short = omega arith;
        entries = (record { type = omega arith; config_id = omega arith }, tt);
        unset = λ e. cc;
      };
    },
    tt,
  );
  unset = λ e. cc;
}

read_batch_reply-write_example :
    read_batch_reply wire unspecified new_batch_reply (write_batch_reply wire answered ++ 9 ∷ [])
    ≡ done (answered, 9 ∷ [])
read_batch_reply-write_example =
    read_batch_reply-write unspecified wire-IsProtocol wire-IsConsuming answered answered-IsSendable
      (9 ∷ [])

-- The language is not sent.
read_lan_request-partial_example :
    read_lan_request wire question (write_partial wire true true false true question ++ [])
    ≡ throws protocol_exception
read_lan_request-partial_example =
    read_lan_request-partial wire question question true true false true [] wire-IsProtocol
      wire-IsConsuming question-IsSendable
