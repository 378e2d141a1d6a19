-- ===== src/Service/Exchange.antt =====
-- What the four calls share on their way over the wire: how an answer is received, and how the
-- arguments reach the implementation.
use ab_dyeing.Base.{◌≡◌, ◌∙◌, refl, ap, sym, arith, true, [], ◌++◌, append-nil, Bytes, eqb_refl}
use ab_dyeing.Outcome.{Outcome, Exception, done, throws, undefined, application_exception}
use ab_dyeing.Thrift.{t_call, t_reply, t_exception, TProtocol, Read, ◌>>=◌, ◌>>◌}
use ab_dyeing.Thrift.Laws.{Reads, IsText, IsProtocol}
use ab_dyeing.Thrift.Laws.Written.{>>=-Reads, >>=-Reads_last, return-Reads}
use ab_dyeing.Service.{Result}
use ab_dyeing.Service.Client.{is_reply, skip_if, take_success, after_message, recv}
use ab_dyeing.Service.Processor.{Iface, is_caught, respond, dispatch_call}

-- What a client gets from what the call of the implementation comes to.
abbrev pub received : {R : Type 0} → Outcome R → Outcome (R × Bytes)
received (done r) = done (r, [])
received (throws e) = throws application_exception
received undefined = undefined

-- A call that ends so that its answer can be sent.
abbrev pub CanAnswer : {R : Type 0} → (R → Type 0) → (Exception → Bytes) → Outcome R → Type 0
CanAnswer Sendable what (done r) = Sendable r
CanAnswer Sendable what (throws e) = (is_caught e ≡ true) × IsText (what e)
CanAnswer Sendable what undefined = ⊥

-- The server reads the head of the message, which names the call, hands the rest to `dispatchCall`,
-- which takes all of it, and the client receives what comes out. The first of these steps is the
-- library's.
abbrev pub Exchanged :
    {R : Type 0}
    → TProtocol
    → (Exception → Bytes)
    → Iface
    → Bytes
    → Bytes
    → Read R
    → Outcome R
    → Type 0
Exchanged p what iface name sent recv result =
    (body : Bytes) × (p.read_message_begin sent ≡ done ((name, t_call, 0), body))
    × ((out : Bytes) × (dispatch_call p what iface name 0 body ≡ done (out, []))
        × (recv out ≡ received result))

Reads-all :
    {A : Type 0} (m : Read A) (a : A) (bytes : Bytes) → Reads m a bytes → m bytes ≡ done (a, [])
Reads-all m a bytes h = ap m (sym (append-nil bytes)) ∙ h []

module _ {p : TProtocol} (w : IsProtocol p) (what : Exception → Bytes) {R : Type 0}
    (Sendable : R → Type 0) (name : Bytes) (text : IsText name) (write : Result R → Bytes)
    (read : Read (Result R))
    (result : (r : R)
      → Sendable r
      → Reads read
          (record { success = r; isset_success = true })
          (write (record { success = r; isset_success = true }))) where
  recv-reply :
      (r : R)
      → Sendable r
      → Reads (recv p name read) r (
          p.write_message_begin name t_reply 0
          ++ (write (record { success = r; isset_success = true }) ++ p.write_message_end))
  unfolding recv after_message skip_if take_success is_reply
  recv-reply r s =
      >>=-Reads p.read_message_begin _ (p.write_message_begin name t_reply 0) _
        (w.message_begin name t_reply 0 text (omega arith))
        (rw (eqb_refl name) (
          >>=-Reads read _ _ p.write_message_end (result r s) (
            >>=-Reads_last p.read_message_end _ p.write_message_end w.message_end
              (return-Reads r))))

  recv-exception :
      (x : Bytes)
      → IsText x
      → recv p name read
          (p.write_message_begin name t_exception 0 ++ (p.write_exception x ++ p.write_message_end))
        ≡ throws application_exception
  unfolding recv after_message
  recv-exception x small =
      rw
        (
          w.message_begin name t_exception 0 text (omega arith)
              (p.write_exception x ++ p.write_message_end),
          w.exception x small p.write_message_end,
          Reads-all p.read_message_end tt p.write_message_end w.message_end,
        )
        refl

  pub respond-recv :
      (o : Outcome R)
      → CanAnswer Sendable what o
      → (out : Bytes) × ((s : Bytes) → respond p what name write 0 o s ≡ done (out, s))
        × (recv p name read out ≡ received o)
  unfolding respond
  respond-recv (done r) s = (_, λ t. refl, Reads-all (recv p name read) r _ (recv-reply r s))
  respond-recv (throws e) s = (_, λ t. rw (s.0) refl, recv-exception (what e) (s.1))
  respond-recv undefined s = absurd s

-- The arguments are read from the body, and the implementation is called with them.
pub process_lem :
    {p : TProtocol} (w : IsProtocol p) {A B : Type 0} (read : Read A) (call : A → Read B) (a : A)
    (bytes : Bytes)
    → Reads read a bytes
    → (read >>= λ x. (p.read_message_end >> call x)) (bytes ++ p.write_message_end) ≡ call a []
process_lem {p} w read call a bytes h =
    rw (h p.write_message_end, Reads-all p.read_message_end tt p.write_message_end w.message_end)
      refl
