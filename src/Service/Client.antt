-- ===== src/Service/Client.antt =====
-- `ABDyeingServiceClient` of proto/gen-cpp/ABDyeingService.cpp: what each call sends, and how it
-- takes its answer. A call throws what its `recv_` throws.
use ab_dyeing.Base.{ℕ, Bool, true, false, not, ◌++◌, Bytes, codes, eqb, if◌then◌else◌}
use ab_dyeing.Outcome.{throws, application_exception}
use ab_dyeing.Thrift.{
  t_struct, TMessageType, t_call, t_reply, t_exception, TProtocol, Read, return, ◌>>=◌, ◌>>◌,
}
use ab_dyeing.Proto.{
  AbStatus, DyeingRequest, DyeingLanRequest, BatchRequest, BatchLanRequest, Reply, BatchReply,
}
use ab_dyeing.Service.{
  Result, write_dyeing_pargs, write_dyeing_lan_pargs, write_batch_dyeing_pargs,
  write_batch_dyeing_lan_pargs, read_dyeing_presult, read_dyeing_lan_presult,
  read_batch_dyeing_presult, read_batch_dyeing_lan_presult,
}

unfoldable pub is_reply : TMessageType → Bool
is_reply t_reply = true
is_reply _ = false

abbrev fail : {A : Type 0} → Read A
fail s = throws application_exception

module _ (p : TProtocol) where
  open p use {write_message_begin, write_message_end, read_message_begin, read_message_end}

  unfoldable pub send_dyeing : Bytes → DyeingRequest → Bytes
  send_dyeing uid req =
      write_message_begin (codes "dyeing") t_call 0
      ++ (write_dyeing_pargs p uid req ++ write_message_end)

  unfoldable pub send_dyeing_lan : Bytes → DyeingLanRequest → Bytes
  send_dyeing_lan uid req =
      write_message_begin (codes "DyeingLan") t_call 0
      ++ (write_dyeing_lan_pargs p uid req ++ write_message_end)

  unfoldable pub send_batch_dyeing : BatchRequest → Bytes
  send_batch_dyeing batch_reqs =
      write_message_begin (codes "BatchDyeing") t_call 0
      ++ (write_batch_dyeing_pargs p batch_reqs ++ write_message_end)

  unfoldable pub send_batch_dyeing_lan : BatchLanRequest → Bytes
  send_batch_dyeing_lan batch_reqs =
      write_message_begin (codes "BatchDyeingLan") t_call 0
      ++ (write_batch_dyeing_lan_pargs p batch_reqs ++ write_message_end)

  -- A message of another type or name is skipped; nothing is thrown.
  unfoldable pub skip_if : Bool → Read (Unit {0})
  skip_if true = do p.skip t_struct; read_message_end
  skip_if false = return tt

  -- The result is there, or the call has failed with MISSING_RESULT.
  unfoldable pub take_success : {R : Type 0} → Result R → Read R
  take_success r = if r.isset_success then return r.success else fail

  unfoldable pub after_message :
      {R : Type 0} → Bytes → Read (Result R) → Bytes × TMessageType × ℕ → Read R
  unfolding skip_if take_success is_reply eqb
  after_message name read (fname, t_exception, seqid) = do
    x ← p.read_exception
    read_message_end
    fail
  after_message name read (fname, mtype, seqid) = do
    skip_if (not (is_reply mtype))
    skip_if (not (eqb fname name))
    result ← read
    read_message_end
    take_success result

  -- What the four calls share: the name of the call, and the reading of its result.
  unfoldable pub recv : {R : Type 0} → Bytes → Read (Result R) → Read R
  unfolding after_message
  recv name read = read_message_begin >>= after_message name read

module _ (p : TProtocol) (unspecified : ℕ → AbStatus) where
  unfoldable pub recv_dyeing : Reply → Read Reply
  unfolding recv
  recv_dyeing reply =
      recv p (codes "dyeing")
        (read_dyeing_presult p unspecified (record { success = reply; isset_success = false }))

  unfoldable pub recv_dyeing_lan : Reply → Read Reply
  unfolding recv
  recv_dyeing_lan reply =
      recv p (codes "DyeingLan")
        (read_dyeing_lan_presult p unspecified (record { success = reply; isset_success = false }))

  unfoldable pub recv_batch_dyeing : BatchReply → Read BatchReply
  unfolding recv
  recv_batch_dyeing reply =
      recv p (codes "BatchDyeing") (
        read_batch_dyeing_presult p unspecified (record { success = reply; isset_success = false }))

  unfoldable pub recv_batch_dyeing_lan : BatchReply → Read BatchReply
  unfolding recv
  recv_batch_dyeing_lan reply = recv p (codes "BatchDyeingLan") (
      read_batch_dyeing_lan_presult p unspecified
        (record { success = reply; isset_success = false }))
