-- ===== src/Proto/Answer/RoundTrip.antt =====
-- The replies: what is written is read back.
use ab_dyeing.Base.{
  ℕ, ◌<◌, ◌≡◌, refl, arith, Bool, false, true, List, [], ◌∷◌, ◌++◌, All, codes, if◌then◌else◌,
}
use ab_dyeing.Thrift.{
  t_string, t_list, t_struct, t_i32, is_string, is_list, is_struct, is_i32, TProtocol, required,
  read_list, write_list, write_member, field_rounds,
}
use ab_dyeing.Thrift.Laws.{Reads, IsText, IsShort, IsProtocol, IsConsuming}
use ab_dyeing.Thrift.Laws.Written.{
  return-Reads, field_of-Reads, read_list-Reads, field_rounds-Reads_field, field_rounds-Reads_stop,
  read_struct-Reads,
}
use ab_dyeing.Proto.{
  AbStatus, rc_status_ok, rc_server_error, rc_server_fault, rc_unknow_error, Entry, Reply,
  UidRepInfo, BatchReply, new_entry, new_reply, new_uid_rep_info, new_batch_reply,
}
use ab_dyeing.Proto.Answer.{
  status_code, status_of, read_status, entry_field, entry_end, read_entry, write_entry, reply_field,
  reply_end, read_reply, write_reply, uid_rep_info_field, uid_rep_info_end, read_uid_rep_info,
  write_uid_rep_info, batch_reply_field, batch_reply_end, read_batch_reply, write_batch_reply,
}
use ab_dyeing.Proto.Answer.Ends.{
  entry_field-Consumes, reply_field-Consumes, uid_rep_info_field-Consumes,
  batch_reply_field-Consumes,
}

-- What the wire can carry.
pub record IsSendableEntry (r : Entry) : Type 0 where
  pub type : IsText r.type
  pub config_id : IsText r.config_id

-- An optional list that is not set is empty: it is not sent.
pub record IsSendableReply (r : Reply) : Type 0 where
  pub short : IsShort r.entries
  pub entries : All IsSendableEntry r.entries
  pub unset : r.isset_entries ≡ false → r.entries ≡ []

pub record IsSendableUidRepInfo (r : UidRepInfo) : Type 0 where
  pub uid : IsText r.uid
  pub uid_rep : IsSendableReply r.uid_rep

-- An optional list that is not set is empty: it is not sent.
pub record IsSendableBatchReply (r : BatchReply) : Type 0 where
  pub short : IsShort r.uid_rep_infos
  pub uid_rep_infos : All IsSendableUidRepInfo r.uid_rep_infos
  pub unset : r.isset_uid_rep_infos ≡ false → r.uid_rep_infos ≡ []

module _ {p : TProtocol} (unspecified : ℕ → AbStatus) (w : IsProtocol p) where
  status_of-code : (s : AbStatus) → status_of p unspecified (status_code s) ≡ s
  unfolding status_of status_code
  status_of-code rc_status_ok = refl
  status_of-code rc_server_error = refl
  status_of-code rc_server_fault = refl
  status_of-code rc_unknow_error = refl

  status_code-small : (s : AbStatus) → status_code s < 2147483648
  unfolding status_code
  status_code-small rc_status_ok = omega arith
  status_code-small rc_server_error = omega arith
  status_code-small rc_server_fault = omega arith
  status_code-small rc_unknow_error = omega arith

  read_status-Reads :
      (s : AbStatus) → Reads (read_status p unspecified) s (p.write_i32 (status_code s))
  unfolding read_status
  read_status-Reads s rest =
      rw (w.i32 (status_code s) (status_code-small s) rest, status_of-code s) refl

  pub read_entry-write :
      IsConsuming p
      → (this r : Entry) → IsSendableEntry r
      → Reads (read_entry p unspecified this) r (write_entry p r)
  unfolding read_entry write_entry entry_field entry_end is_string required
  read_entry-write c this r s =
      read_struct-Reads w (entry_field p unspecified) (entry_end p unspecified) 3 _
        (codes "ABDyeingEntry") _ c (entry_field-Consumes unspecified c)
        (field_rounds-Reads_field w (entry_field p unspecified) 2 _ (codes "type") t_string 1 _ _
          (λ e. cc) (omega arith) (field_of-Reads p _ _ t_string _ _ (w.string r.type s.type))
          (field_rounds-Reads_field w (entry_field p unspecified) 1 _ (codes "config_id") t_string 2
            _ _ (λ e. cc) (omega arith)
            (field_of-Reads p _ _ t_string _ _ (w.string r.config_id s.config_id))
            (field_rounds-Reads_stop w (entry_field p unspecified) 0 _)))
        (return-Reads r)

  All-entry :
      IsConsuming p
      → (xs : List Entry) → All IsSendableEntry xs
      → All (λ x. Reads (read_entry p unspecified new_entry) x (write_entry p x)) xs
  All-entry c [] h = tt
  All-entry c (x ∷ xs) h = (read_entry-write c new_entry x (h.0), All-entry c xs (h.1))

  pub read_entrys-Reads :
      IsConsuming p
      → (xs : List Entry) → IsShort xs
      → All IsSendableEntry xs
      → Reads
          (read_list p (read_entry p unspecified new_entry))
          xs
          (write_list p t_struct (write_entry p) xs)
  read_entrys-Reads c xs short h =
      read_list-Reads w (read_entry p unspecified new_entry) (write_entry p) t_struct xs short
        (All-entry c xs h)

  -- The fields behind the status.
  reply_rest-Reads :
      IsConsuming p
      → (st : AbStatus) (xs : List Entry) (isset : Bool) → IsShort xs
      → All IsSendableEntry xs
      → (isset ≡ false → xs ≡ [])
      → Reads
          (field_rounds p 2
            (reply_field p unspecified)
            (record { this = record new_reply { status = st }; isset_status = true }))
          (record {
            this = record { status = st; entries = xs; isset_entries = isset };
            isset_status = true;
          })
          (if isset
            then write_member p
                (codes "_entries")
                t_list
                2
                (write_list p t_struct (write_entry p) xs)
              ++ p.write_field_stop
            else p.write_field_stop)
  unfolding reply_field is_list
  reply_rest-Reads c st xs true short h unset =
      field_rounds-Reads_field w (reply_field p unspecified) 1 _ (codes "_entries") t_list 2 _ _
        (λ e. cc) (omega arith) (field_of-Reads p _ _ t_list _ _ (read_entrys-Reads c xs short h))
        (field_rounds-Reads_stop w (reply_field p unspecified) 0 _)
  reply_rest-Reads c st xs false short h unset =
      rw (unset refl) (field_rounds-Reads_stop w (reply_field p unspecified) 1 _)

  pub read_reply-write :
      IsConsuming p
      → (r : Reply) → IsSendableReply r
      → Reads (read_reply p unspecified new_reply) r (write_reply p r)
  unfolding read_reply write_reply reply_field reply_end is_i32 required
  read_reply-write c r s =
      read_struct-Reads w (reply_field p unspecified) (reply_end p unspecified) 3 _
        (codes "ABDyeingReply") _ c (reply_field-Consumes unspecified c)
        (field_rounds-Reads_field w (reply_field p unspecified) 2 _ (codes "status") t_i32 1 _ _
          (λ e. cc) (omega arith) (field_of-Reads p _ _ t_i32 _ _ (read_status-Reads r.status))
          (reply_rest-Reads c r.status r.entries r.isset_entries s.short s.entries s.unset))
        (return-Reads r)

  pub read_uid_rep_info-write :
      IsConsuming p
      → (r : UidRepInfo) → IsSendableUidRepInfo r
      → Reads (read_uid_rep_info p unspecified new_uid_rep_info) r (write_uid_rep_info p r)
  unfolding read_uid_rep_info write_uid_rep_info uid_rep_info_field uid_rep_info_end is_string
      is_struct required
  read_uid_rep_info-write c r s =
      read_struct-Reads w (uid_rep_info_field p unspecified) (uid_rep_info_end p unspecified) 3 _
        (codes "ABDyeingUidRepInfo") _ c (uid_rep_info_field-Consumes unspecified c)
        (field_rounds-Reads_field w (uid_rep_info_field p unspecified) 2 _ (codes "uid") t_string 1
          _ _ (λ e. cc) (omega arith) (field_of-Reads p _ _ t_string _ _ (w.string r.uid s.uid))
          (field_rounds-Reads_field w (uid_rep_info_field p unspecified) 1 _ (codes "_uid_rep")
            t_struct 2 _ _ (λ e. cc) (omega arith)
            (field_of-Reads p _ _ t_struct _ _ (read_reply-write c r.uid_rep s.uid_rep))
            (field_rounds-Reads_stop w (uid_rep_info_field p unspecified) 0 _)))
        (return-Reads r)

  All-uid_rep_info :
      IsConsuming p
      → (xs : List UidRepInfo) → All IsSendableUidRepInfo xs
      → All
          (λ x. Reads (read_uid_rep_info p unspecified new_uid_rep_info) x (write_uid_rep_info p x))
          xs
  All-uid_rep_info c [] h = tt
  All-uid_rep_info c (x ∷ xs) h = (read_uid_rep_info-write c x (h.0), All-uid_rep_info c xs (h.1))

  pub read_uid_rep_infos-Reads :
      IsConsuming p
      → (xs : List UidRepInfo) → IsShort xs
      → All IsSendableUidRepInfo xs
      → Reads
          (read_list p (read_uid_rep_info p unspecified new_uid_rep_info))
          xs
          (write_list p t_struct (write_uid_rep_info p) xs)
  read_uid_rep_infos-Reads c xs short h =
      read_list-Reads w (read_uid_rep_info p unspecified new_uid_rep_info) (write_uid_rep_info p)
        t_struct xs short (All-uid_rep_info c xs h)

  -- The fields behind the status.
  batch_reply_rest-Reads :
      IsConsuming p
      → (st : AbStatus) (xs : List UidRepInfo) (isset : Bool) → IsShort xs
      → All IsSendableUidRepInfo xs
      → (isset ≡ false → xs ≡ [])
      → Reads
          (field_rounds p 2
            (batch_reply_field p unspecified)
            (record { this = record new_batch_reply { status = st }; isset_status = true }))
          (record {
            this = record { status = st; uid_rep_infos = xs; isset_uid_rep_infos = isset };
            isset_status = true;
          })
          (if isset
            then write_member p
                (codes "_uid_rep_infos")
                t_list
                2
                (write_list p t_struct (write_uid_rep_info p) xs)
              ++ p.write_field_stop
            else p.write_field_stop)
  unfolding batch_reply_field is_list
  batch_reply_rest-Reads c st xs true short h unset =
      field_rounds-Reads_field w (batch_reply_field p unspecified) 1 _ (codes "_uid_rep_infos")
        t_list 2 _ _ (λ e. cc) (omega arith)
        (field_of-Reads p _ _ t_list _ _ (read_uid_rep_infos-Reads c xs short h))
        (field_rounds-Reads_stop w (batch_reply_field p unspecified) 0 _)
  batch_reply_rest-Reads c st xs false short h unset =
      rw (unset refl) (field_rounds-Reads_stop w (batch_reply_field p unspecified) 1 _)

  -- Over a protocol that keeps what it documents, a reply to a batch whose texts and lists are shorter
  -- than 2 ^ 31, and whose lists that are not set are empty, is read back into a new object.
  pub read_batch_reply-write :
      IsConsuming p
      → (r : BatchReply) → IsSendableBatchReply r
      → Reads (read_batch_reply p unspecified new_batch_reply) r (write_batch_reply p r)
  unfolding read_batch_reply write_batch_reply batch_reply_field batch_reply_end is_i32 required
  read_batch_reply-write c r s =
      read_struct-Reads w (batch_reply_field p unspecified) (batch_reply_end p unspecified) 3 _
        (codes "ABDyeingBatchReply") _ c (batch_reply_field-Consumes unspecified c)
        (field_rounds-Reads_field w (batch_reply_field p unspecified) 2 _ (codes "status") t_i32 1 _
          _ (λ e. cc) (omega arith) (field_of-Reads p _ _ t_i32 _ _ (read_status-Reads r.status))
          (batch_reply_rest-Reads c r.status r.uid_rep_infos r.isset_uid_rep_infos s.short
            s.uid_rep_infos s.unset))
        (return-Reads r)
