-- ===== src/Service/Processor.antt =====
-- `ABDyeingServiceProcessor` of proto/gen-cpp/ABDyeingService.cpp and .h: how the server answers the
-- message of a call, with an implementation of the service. There is no event handler: the server
-- sets none.
use ab_dyeing.Base.{ℕ, Bool, true, false, List, [], ◌++◌, Bytes, codes, eqb, if◌then◌else◌}
use ab_dyeing.Outcome.{Outcome, done, throws, undefined, Exception, assertion_failed, process_exit}
use ab_dyeing.Thrift.{t_struct, t_reply, t_exception, TProtocol, Read, return, ◌>>=◌, ◌>>◌}
use ab_dyeing.Proto.{
  DyeingRequest, DyeingLanRequest, BatchRequest, BatchLanRequest, Reply, BatchReply, new_reply,
  new_batch_reply,
}
use ab_dyeing.Service.{
  UserArgs, BatchArgs, Result, read_dyeing_args, read_dyeing_lan_args, read_batch_dyeing_args,
  read_batch_dyeing_lan_args, write_dyeing_result, write_dyeing_lan_result,
  write_batch_dyeing_result, write_batch_dyeing_lan_result,
}

-- `ABDyeingServiceIf`: each call fills the reply that it is given.
pub record Iface : Type 0 where
  pub dyeing_call : Bytes → DyeingRequest → Reply → Outcome Reply
  pub dyeing_lan_call : Bytes → DyeingLanRequest → Reply → Outcome Reply
  pub batch_dyeing_call : BatchRequest → BatchReply → Outcome BatchReply
  pub batch_dyeing_lan_call : BatchLanRequest → BatchReply → Outcome BatchReply

-- A failed assertion and `exit` end the process; all else is a `std::exception`.
unfoldable pub is_caught : Exception → Bool
is_caught assertion_failed = false
is_caught process_exit = false
is_caught _ = true

-- `ABDyeingService_…_args()`.
abbrev pub new_user_args : {R : Type 0} → R → UserArgs R
new_user_args req = record { uid = []; req = req; isset_uid = false; isset_req = false }

abbrev pub new_batch_args : {R : Type 0} → List R → BatchArgs (List R)
new_batch_args reqs = record { batch_reqs = reqs; isset_batch_reqs = false }

-- `what` is the text of an exception.
module _ (p : TProtocol) (what : Exception → Bytes) where
  open p use {write_message_begin, write_message_end, read_message_end, write_exception}

  -- The answer to a call, from how the call of the implementation has ended.
  unfoldable pub respond : {R : Type 0} → Bytes → (Result R → Bytes) → ℕ → Outcome R → Read Bytes
  unfolding is_caught
  respond name write seqid (done r) s = done (
    write_message_begin name t_reply seqid
        ++ (write (record { success = r; isset_success = true }) ++ write_message_end),
    s,
  )
  respond name write seqid (throws e) s =
      if is_caught e
      then done (
        write_message_begin name t_exception seqid
            ++ (write_exception (what e) ++ write_message_end),
        s,
      )
      else throws e
  respond name write seqid undefined s = undefined

  module _ (iface : Iface) where
    unfoldable pub process_dyeing : ℕ → Read Bytes
    unfolding respond
    process_dyeing seqid = do
      args ← read_dyeing_args p (new_user_args (record { app = []; app_ver = []; types = [] }))
      read_message_end
      respond (codes "dyeing") (write_dyeing_result p) seqid
          (iface.dyeing_call args.uid args.req new_reply)

    unfoldable pub process_dyeing_lan : ℕ → Read Bytes
    unfolding respond
    process_dyeing_lan seqid = do
      args ←
          read_dyeing_lan_args p
            (new_user_args (record { app = []; app_ver = []; app_lan = []; types = [] }))
      read_message_end
      respond (codes "DyeingLan") (write_dyeing_lan_result p) seqid
          (iface.dyeing_lan_call args.uid args.req new_reply)

    unfoldable pub process_batch_dyeing : ℕ → Read Bytes
    unfolding respond
    process_batch_dyeing seqid = do
      args ← read_batch_dyeing_args p (new_batch_args [])
      read_message_end
      respond (codes "BatchDyeing") (write_batch_dyeing_result p) seqid
          (iface.batch_dyeing_call args.batch_reqs new_batch_reply)

    unfoldable pub process_batch_dyeing_lan : ℕ → Read Bytes
    unfolding respond
    process_batch_dyeing_lan seqid = do
      args ← read_batch_dyeing_lan_args p (new_batch_args [])
      read_message_end
      respond (codes "BatchDyeingLan") (write_batch_dyeing_lan_result p) seqid
          (iface.batch_dyeing_lan_call args.batch_reqs new_batch_reply)

    -- A name that no call has.
    unfoldable pub unknown_method : Bytes → ℕ → Read Bytes
    unknown_method fname seqid = do
      p.skip t_struct
      read_message_end
      return (
          write_message_begin fname t_exception seqid
          ++ (write_exception (codes "Invalid method name: '" ++ (fname ++ codes "'"))
              ++ write_message_end))

    -- `processMap_.find(fname)`, with the four names that the constructor puts in the map.
    unfoldable pub dispatch_call : Bytes → ℕ → Read Bytes
    unfolding eqb process_dyeing process_dyeing_lan process_batch_dyeing process_batch_dyeing_lan
        unknown_method
    dispatch_call fname seqid =
        if eqb fname (codes "dyeing")
        then process_dyeing seqid
        else if eqb fname (codes "DyeingLan")
        then process_dyeing_lan seqid
        else if eqb fname (codes "BatchDyeing")
        then process_batch_dyeing seqid
        else if eqb fname (codes "BatchDyeingLan")
        then process_batch_dyeing_lan seqid
        else unknown_method fname seqid
