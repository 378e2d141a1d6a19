-- ===== src/Service/Ends.antt =====
-- What a processor does on bytes that no client need have sent: its loops end.
use ab_dyeing.Base.{
  ℕ, ◌≤◌, ◌≢◌, refl, arith, [], ◌++◌, length, Bytes, codes, eqb, Bool-cases, inl, inr,
}
use ab_dyeing.Outcome.{Outcome, Exception, done, throws, undefined, Ensures}
use ab_dyeing.Thrift.{TProtocol, t_struct, t_exception}
use ab_dyeing.Thrift.Laws.{IsConsuming, Consumes}
use ab_dyeing.Thrift.Laws.Consumed.{>>=-Consumes, if-Consumes, return-Consumes}
use ab_dyeing.Proto.{
  DyeingRequest, DyeingLanRequest, BatchRequest, BatchLanRequest, new_reply, new_batch_reply,
}
use ab_dyeing.Proto.Request.{read_request, read_lan_request}
use ab_dyeing.Proto.Request.RoundTrip.{read_request-Consumes, read_lan_request-Consumes}
use ab_dyeing.Proto.UidRequest.{read_batch_request, read_batch_lan_request}
use ab_dyeing.Proto.UidRequest.Ends.{read_batch_request-Consumes, read_batch_lan_request-Consumes}
use ab_dyeing.Service.{
  Result, read_dyeing_args, read_dyeing_lan_args, read_batch_dyeing_args,
  read_batch_dyeing_lan_args, write_dyeing_result, write_dyeing_lan_result,
  write_batch_dyeing_result, write_batch_dyeing_lan_result,
}
use ab_dyeing.Service.Arguments.{read_user_args-Consumes, read_batch_args-Consumes}
use ab_dyeing.Service.Processor.{
  Iface, is_caught, new_user_args, new_batch_args, respond, process_dyeing, process_dyeing_lan,
  process_batch_dyeing, process_batch_dyeing_lan, unknown_method, dispatch_call,
}

-- The implementation never leaves defined behaviour.
pub record IsDefined (iface : Iface) : Type 0 where
  pub dyeing_defined :
      (uid : Bytes) (req : DyeingRequest) → iface.dyeing_call uid req new_reply ≢ undefined
  pub dyeing_lan_defined :
      (uid : Bytes) (req : DyeingLanRequest) → iface.dyeing_lan_call uid req new_reply ≢ undefined
  pub batch_dyeing_defined :
      (reqs : BatchRequest) → iface.batch_dyeing_call reqs new_batch_reply ≢ undefined
  pub batch_dyeing_lan_defined :
      (reqs : BatchLanRequest) → iface.batch_dyeing_lan_call reqs new_batch_reply ≢ undefined

module _ {p : TProtocol} (c : IsConsuming p) (what : Exception → Bytes) where
  respond-Consumes :
      {R : Type 0} (name : Bytes) (write : Result R → Bytes) (seqid : ℕ) (o : Outcome R)
      → o ≢ undefined
      → Consumes (respond p what name write seqid o)
  unfolding respond
  respond-Consumes name write seqid (done r) h s = omega arith
  respond-Consumes name write seqid (throws x) h s = elim (Bool-cases (is_caught x)) [
    | inl y ↦ rw y (omega arith)
    | inr n ↦ rw n tt
  ]
  respond-Consumes name write seqid undefined h s = absurd (h refl)

  module _ (iface : Iface) (d : IsDefined iface) (seqid : ℕ) where
    process_dyeing-Consumes : Consumes (process_dyeing p what iface seqid)
    unfolding process_dyeing read_dyeing_args
    process_dyeing-Consumes =
        >>=-Consumes
          (read_dyeing_args p (new_user_args (record { app = []; app_ver = []; types = [] }))) _
          (read_user_args-Consumes c (read_request p) (read_request-Consumes c)
            (new_user_args (record { app = []; app_ver = []; types = [] })))
          λ x. >>=-Consumes p.read_message_end _ c.message_end λ _.
            respond-Consumes (codes "dyeing") (write_dyeing_result p) seqid _
              (d.dyeing_defined x.uid x.req)

    process_dyeing_lan-Consumes : Consumes (process_dyeing_lan p what iface seqid)
    unfolding process_dyeing_lan read_dyeing_lan_args
    process_dyeing_lan-Consumes =
        >>=-Consumes
          (read_dyeing_lan_args p
            (new_user_args (record { app = []; app_ver = []; app_lan = []; types = [] })))
          _
          (read_user_args-Consumes c (read_lan_request p) (read_lan_request-Consumes c)
            (new_user_args (record { app = []; app_ver = []; app_lan = []; types = [] })))
          λ x. >>=-Consumes p.read_message_end _ c.message_end λ _.
            respond-Consumes (codes "DyeingLan") (write_dyeing_lan_result p) seqid _
              (d.dyeing_lan_defined x.uid x.req)

    process_batch_dyeing-Consumes : Consumes (process_batch_dyeing p what iface seqid)
    unfolding process_batch_dyeing read_batch_dyeing_args
    process_batch_dyeing-Consumes =
        >>=-Consumes (read_batch_dyeing_args p (new_batch_args [])) _
          (read_batch_args-Consumes c (read_batch_request p) (read_batch_request-Consumes c)
            (new_batch_args []))
          λ x. >>=-Consumes p.read_message_end _ c.message_end λ _.
            respond-Consumes (codes "BatchDyeing") (write_batch_dyeing_result p) seqid _
              (d.batch_dyeing_defined x.batch_reqs)

    process_batch_dyeing_lan-Consumes : Consumes (process_batch_dyeing_lan p what iface seqid)
    unfolding process_batch_dyeing_lan read_batch_dyeing_lan_args
    process_batch_dyeing_lan-Consumes =
        >>=-Consumes (read_batch_dyeing_lan_args p (new_batch_args [])) _
          (read_batch_args-Consumes c (read_batch_lan_request p) (read_batch_lan_request-Consumes c)
            (new_batch_args []))
          λ x. >>=-Consumes p.read_message_end _ c.message_end λ _.
            respond-Consumes (codes "BatchDyeingLan") (write_batch_dyeing_lan_result p) seqid _
              (d.batch_dyeing_lan_defined x.batch_reqs)

    unknown_method-Consumes : (fname : Bytes) → Consumes (unknown_method p what iface fname seqid)
    unfolding unknown_method
    unknown_method-Consumes fname = >>=-Consumes (p.skip t_struct) _ (c.skip t_struct) λ _.
        >>=-Consumes p.read_message_end _ c.message_end λ _. return-Consumes (
          p.write_message_begin fname t_exception seqid
          ++ (p.write_exception (codes "Invalid method name: '" ++ (fname ++ codes "'"))
              ++ p.write_message_end))

    pub dispatch_call-Consumes : (fname : Bytes) → Consumes (dispatch_call p what iface fname seqid)
    unfolding dispatch_call
    dispatch_call-Consumes fname =
        if-Consumes (eqb fname (codes "dyeing")) _ _ process_dyeing-Consumes (
          if-Consumes (eqb fname (codes "DyeingLan")) _ _ process_dyeing_lan-Consumes (
            if-Consumes (eqb fname (codes "BatchDyeing")) _ _ process_batch_dyeing-Consumes (
              if-Consumes (eqb fname (codes "BatchDyeingLan")) _ _ process_batch_dyeing_lan-Consumes
                (unknown_method-Consumes fname))))

-- On any name and any bytes, an implementation that stays in defined behaviour: the processor
-- returns an answer or throws, so that its loops end, and leaves no more bytes than there were.
pub dispatch_call-ends :
    (p : TProtocol) (what : Exception → Bytes) (iface : Iface) (fname : Bytes) (seqid : ℕ)
    (s : Bytes)
    → IsConsuming p
    → IsDefined iface
    → Ensures (λ r. length (r.1) ≤ length s) (dispatch_call p what iface fname seqid s)
dispatch_call-ends p what iface fname seqid s c d =
    dispatch_call-Consumes c what iface d seqid fname s
