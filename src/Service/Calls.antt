-- ===== src/Service/Calls.antt =====
-- The four calls of the service over the wire.
use ab_dyeing.Base.{ℕ, ◌∙◌, arith, true, false, [], ◌++◌, Bytes, codes, eqb}
use ab_dyeing.Outcome.{Exception}
use ab_dyeing.Thrift.{t_call, TProtocol}
use ab_dyeing.Thrift.Laws.{Reads, IsText, IsProtocol, IsConsuming}
use ab_dyeing.Proto.{
  AbStatus, DyeingRequest, DyeingLanRequest, BatchRequest, BatchLanRequest, Reply, BatchReply,
  new_reply, new_batch_reply,
}
use ab_dyeing.Proto.Request.{read_request, write_request, read_lan_request, write_lan_request}
use ab_dyeing.Proto.Request.RoundTrip.{
  IsSendableRequest, IsSendableLanRequest, read_request-Consumes, read_lan_request-Consumes,
  read_request-write, read_lan_request-write,
}
use ab_dyeing.Proto.UidRequest.{
  read_batch_request, write_batch_request, read_batch_lan_request, write_batch_lan_request,
}
use ab_dyeing.Proto.UidRequest.RoundTrip.{
  IsSendableBatchRequest, IsSendableBatchLanRequest, read_batch_request-write,
  read_batch_lan_request-write,
}
use ab_dyeing.Proto.Answer.{read_reply, write_reply, read_batch_reply, write_batch_reply}
use ab_dyeing.Proto.Answer.RoundTrip.{
  IsSendableReply, IsSendableBatchReply, read_reply-write, read_batch_reply-write,
}
use ab_dyeing.Proto.Answer.Ends.{read_reply-Consumes, read_batch_reply-Consumes}
use ab_dyeing.Proto.UidRequest.Ends.{read_batch_request-Consumes, read_batch_lan_request-Consumes}
use ab_dyeing.Service.{
  read_result, write_result, read_dyeing_args, write_dyeing_pargs, write_dyeing_result,
  read_dyeing_presult, read_dyeing_lan_args, write_dyeing_lan_pargs, write_dyeing_lan_result,
  read_dyeing_lan_presult, read_batch_dyeing_args, write_batch_dyeing_pargs,
  write_batch_dyeing_result, read_batch_dyeing_presult, read_batch_dyeing_lan_args,
  write_batch_dyeing_lan_pargs, write_batch_dyeing_lan_result, read_batch_dyeing_lan_presult,
}
use ab_dyeing.Service.Arguments.{read_user_args-write, read_batch_args-write, read_result-write}
use ab_dyeing.Service.Client.{
  send_dyeing, recv_dyeing, send_dyeing_lan, recv_dyeing_lan, send_batch_dyeing, recv_batch_dyeing,
  send_batch_dyeing_lan, recv_batch_dyeing_lan,
}
use ab_dyeing.Service.Processor.{
  Iface, respond, process_dyeing, process_dyeing_lan, process_batch_dyeing,
  process_batch_dyeing_lan, dispatch_call,
}
use ab_dyeing.Service.Exchange.{CanAnswer, Exchanged, respond-recv, process_lem}

module _ {p : TProtocol} (w : IsProtocol p) (c : IsConsuming p) (what : Exception → Bytes)
    (unspecified : ℕ → AbStatus) (iface : Iface) where
  read_reply_result-write :
      (name : Bytes) (r : Reply)
      → IsSendableReply r
      → Reads
          (read_result p
            (read_reply p unspecified)
            (record { success = new_reply; isset_success = false }))
          (record { success = r; isset_success = true })
          (write_result p (write_reply p) name (record { success = r; isset_success = true }))
  read_reply_result-write name r s =
      read_result-write c (read_reply p unspecified) (read_reply-Consumes unspecified c) w
        (write_reply p) new_reply r (read_reply-write unspecified w c r s) name

  read_batch_reply_result-write :
      (name : Bytes) (r : BatchReply)
      → IsSendableBatchReply r
      → Reads
          (read_result p
            (read_batch_reply p unspecified)
            (record { success = new_batch_reply; isset_success = false }))
          (record { success = r; isset_success = true })
          (write_result p (write_batch_reply p) name (record { success = r; isset_success = true }))
  read_batch_reply_result-write name r s =
      read_result-write c (read_batch_reply p unspecified) (read_batch_reply-Consumes unspecified c)
        w (write_batch_reply p) new_batch_reply r (read_batch_reply-write unspecified w c r s) name

  pub dyeing-Exchanged :
      (uid : Bytes) (req : DyeingRequest)
      → IsText uid
      → IsSendableRequest req
      → CanAnswer IsSendableReply what (iface.dyeing_call uid req new_reply)
      → Exchanged p what iface
          (codes "dyeing")
          (send_dyeing p uid req)
          (recv_dyeing p unspecified new_reply)
          (iface.dyeing_call uid req new_reply)
  unfolding send_dyeing recv_dyeing dispatch_call process_dyeing read_dyeing_args write_dyeing_pargs
      write_dyeing_result read_dyeing_presult eqb
  dyeing-Exchanged uid req text small fine =
      let body = write_dyeing_pargs p uid req ++ p.write_message_end in
      let (out, answered, taken) =
        respond-recv w what IsSendableReply (codes "dyeing") (omega arith) (write_dyeing_result p)
          (read_dyeing_presult p unspecified
            (record { success = new_reply; isset_success = false }))
          (read_reply_result-write (codes "ABDyeingService_dyeing_result"))
          (iface.dyeing_call uid req new_reply) fine in
      (
        body,
        w.message_begin (codes "dyeing") t_call 0 (omega arith) (omega arith) body,
        (
          out,
          process_lem w (read_dyeing_args p _)
                (λ x.
                  respond p what (codes "dyeing") (write_dyeing_result p) 0
                    (iface.dyeing_call x.uid x.req new_reply))
                _ (write_dyeing_pargs p uid req)
                (read_user_args-write c (read_request p) (read_request-Consumes c) w
                  (write_request p) _ req (read_request-write w c _ req small)
                  (codes "ABDyeingService_dyeing_pargs") uid [] text)
              ∙ answered [],
          taken,
        ),
      )

  pub dyeing_lan-Exchanged :
      (uid : Bytes) (req : DyeingLanRequest)
      → IsText uid
      → IsSendableLanRequest req
      → CanAnswer IsSendableReply what (iface.dyeing_lan_call uid req new_reply)
      → Exchanged p what iface
          (codes "DyeingLan")
          (send_dyeing_lan p uid req)
          (recv_dyeing_lan p unspecified new_reply)
          (iface.dyeing_lan_call uid req new_reply)
  unfolding send_dyeing_lan recv_dyeing_lan dispatch_call process_dyeing_lan read_dyeing_lan_args
      write_dyeing_lan_pargs write_dyeing_lan_result read_dyeing_lan_presult eqb
  dyeing_lan-Exchanged uid req text small fine =
      let body = write_dyeing_lan_pargs p uid req ++ p.write_message_end in
      let (out, answered, taken) =
        respond-recv w what IsSendableReply (codes "DyeingLan") (omega arith)
          (write_dyeing_lan_result p)
          (read_dyeing_lan_presult p unspecified
            (record { success = new_reply; isset_success = false }))
          (read_reply_result-write (codes "ABDyeingService_DyeingLan_result"))
          (iface.dyeing_lan_call uid req new_reply) fine in
      (
        body,
        w.message_begin (codes "DyeingLan") t_call 0 (omega arith) (omega arith) body,
        (
          out,
          process_lem w (read_dyeing_lan_args p _)
                (λ x.
                  respond p what (codes "DyeingLan") (write_dyeing_lan_result p) 0
                    (iface.dyeing_lan_call x.uid x.req new_reply))
                _ (write_dyeing_lan_pargs p uid req)
                (read_user_args-write c (read_lan_request p) (read_lan_request-Consumes c) w
                  (write_lan_request p) _ req (read_lan_request-write w c _ req small)
                  (codes "ABDyeingService_DyeingLan_pargs") uid [] text)
              ∙ answered [],
          taken,
        ),
      )

  pub batch_dyeing-Exchanged :
      (reqs : BatchRequest)
      → IsSendableBatchRequest reqs
      → CanAnswer IsSendableBatchReply what (iface.batch_dyeing_call reqs new_batch_reply)
      → Exchanged p what iface
          (codes "BatchDyeing")
          (send_batch_dyeing p reqs)
          (recv_batch_dyeing p unspecified new_batch_reply)
          (iface.batch_dyeing_call reqs new_batch_reply)
  unfolding send_batch_dyeing recv_batch_dyeing dispatch_call process_batch_dyeing
      read_batch_dyeing_args write_batch_dyeing_pargs write_batch_dyeing_result
      read_batch_dyeing_presult eqb
  batch_dyeing-Exchanged reqs small fine =
      let body = write_batch_dyeing_pargs p reqs ++ p.write_message_end in
      let (out, answered, taken) =
        respond-recv w what IsSendableBatchReply (codes "BatchDyeing") (omega arith)
          (write_batch_dyeing_result p)
          (read_batch_dyeing_presult p unspecified
            (record { success = new_batch_reply; isset_success = false }))
          (read_batch_reply_result-write (codes "ABDyeingService_BatchDyeing_result"))
          (iface.batch_dyeing_call reqs new_batch_reply) fine in
      (
        body,
        w.message_begin (codes "BatchDyeing") t_call 0 (omega arith) (omega arith) body,
        (
          out,
          process_lem w (read_batch_dyeing_args p _)
                (λ x.
                  respond p what (codes "BatchDyeing") (write_batch_dyeing_result p) 0
                    (iface.batch_dyeing_call x.batch_reqs new_batch_reply))
                _ (write_batch_dyeing_pargs p reqs)
                (read_batch_args-write c (read_batch_request p) (read_batch_request-Consumes c) w
                  (write_batch_request p) [] reqs (read_batch_request-write w c [] reqs small)
                  (codes "ABDyeingService_BatchDyeing_pargs"))
              ∙ answered [],
          taken,
        ),
      )

  -- Over a protocol that keeps what it documents, `BatchDyeingLan` of a batch that can be sent gives
  -- the client what the call of the implementation comes to: its reply, where that can be sent, or
  -- TApplicationException for a std::exception whose text can be sent.
  pub batch_dyeing_lan-Exchanged :
      (reqs : BatchLanRequest)
      → IsSendableBatchLanRequest reqs
      → CanAnswer IsSendableBatchReply what (iface.batch_dyeing_lan_call reqs new_batch_reply)
      → Exchanged p what iface
          (codes "BatchDyeingLan")
          (send_batch_dyeing_lan p reqs)
          (recv_batch_dyeing_lan p unspecified new_batch_reply)
          (iface.batch_dyeing_lan_call reqs new_batch_reply)
  unfolding send_batch_dyeing_lan recv_batch_dyeing_lan dispatch_call process_batch_dyeing_lan
      read_batch_dyeing_lan_args write_batch_dyeing_lan_pargs write_batch_dyeing_lan_result
      read_batch_dyeing_lan_presult eqb
  batch_dyeing_lan-Exchanged reqs small fine =
      let body = write_batch_dyeing_lan_pargs p reqs ++ p.write_message_end in
      let (out, answered, taken) =
        respond-recv w what IsSendableBatchReply (codes "BatchDyeingLan") (omega arith)
          (write_batch_dyeing_lan_result p)
          (read_batch_dyeing_lan_presult p unspecified
            (record { success = new_batch_reply; isset_success = false }))
          (read_batch_reply_result-write (codes "ABDyeingService_BatchDyeingLan_result"))
          (iface.batch_dyeing_lan_call reqs new_batch_reply) fine in
      (
        body,
        w.message_begin (codes "BatchDyeingLan") t_call 0 (omega arith) (omega arith) body,
        (
          out,
          process_lem w (read_batch_dyeing_lan_args p _)
                (λ x.
                  respond p what (codes "BatchDyeingLan") (write_batch_dyeing_lan_result p) 0
                    (iface.batch_dyeing_lan_call x.batch_reqs new_batch_reply))
                _ (write_batch_dyeing_lan_pargs p reqs)
                (read_batch_args-write c (read_batch_lan_request p)
                  (read_batch_lan_request-Consumes c) w (write_batch_lan_request p) [] reqs
                  (read_batch_lan_request-write w c [] reqs small)
                  (codes "ABDyeingService_BatchDyeingLan_pargs"))
              ∙ answered [],
          taken,
        ),
      )
