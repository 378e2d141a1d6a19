-- ===== src/Proto/Answer/Ends.antt =====
-- The replies: a read of any bytes ends.
use ab_dyeing.Base.{ℕ, ◌==◌}
use ab_dyeing.Thrift.{TType, TProtocol, required}
use ab_dyeing.Thrift.Laws.{Consumes, IsConsuming}
use ab_dyeing.Thrift.Laws.Consumed.{
  if-Consumes, required-Consumes, return-Consumes, >>=-Consumes, skip_field-Consumes,
  field_of-Consumes, read_list-Consumes, read_struct-Consumes,
}
use ab_dyeing.Proto.{AbStatus, Entry, Reply, UidRepInfo, BatchReply, new_entry, new_uid_rep_info}
use ab_dyeing.Proto.Answer.{
  EntryRead, ReplyRead, UidRepInfoRead, BatchReplyRead, status_of, read_status, entry_field,
  entry_end, read_entry, reply_field, reply_end, read_reply, uid_rep_info_field, uid_rep_info_end,
  read_uid_rep_info, batch_reply_field, batch_reply_end, read_batch_reply,
}

module _ {p : TProtocol} (unspecified : ℕ → AbStatus) (c : IsConsuming p) where
  read_status-Consumes : Consumes (read_status p unspecified)
  unfolding read_status
  read_status-Consumes =
      >>=-Consumes p.read_i32 _ c.i32 λ n. return-Consumes (status_of p unspecified n)

  pub entry_field-Consumes :
      (id : ℕ) (ty : TType) (a : EntryRead) → Consumes (entry_field p unspecified id ty a)
  unfolding entry_field
  entry_field-Consumes id ty a =
      if-Consumes (id == 1) _ _ (field_of-Consumes c _ _ _ ty a c.string) (
        if-Consumes (id == 2) _ _ (field_of-Consumes c _ _ _ ty a c.string)
          (skip_field-Consumes c ty a))

  entry_end-Consumes : (a : EntryRead) → Consumes (entry_end p unspecified a)
  unfolding entry_end
  entry_end-Consumes a =
      >>=-Consumes (required a.isset_type) _ (required-Consumes a.isset_type) λ _.
        >>=-Consumes (required a.isset_config_id) _ (required-Consumes a.isset_config_id)
          λ _. return-Consumes a.this

  pub read_entry-Consumes : (r : Entry) → Consumes (read_entry p unspecified r)
  unfolding read_entry
  read_entry-Consumes r =
      read_struct-Consumes c (entry_field p unspecified) _ (entry_end p unspecified)
        entry_field-Consumes entry_end-Consumes

  pub reply_field-Consumes :
      (id : ℕ) (ty : TType) (a : ReplyRead) → Consumes (reply_field p unspecified id ty a)
  unfolding reply_field
  reply_field-Consumes id ty a =
      if-Consumes (id == 1) _ _ (field_of-Consumes c _ _ _ ty a read_status-Consumes) (
        if-Consumes (id == 2) _ _
          (field_of-Consumes c _ _ _ ty a (
            read_list-Consumes c (read_entry p unspecified new_entry)
              (read_entry-Consumes new_entry)))
          (skip_field-Consumes c ty a))

  reply_end-Consumes : (a : ReplyRead) → Consumes (reply_end p unspecified a)
  unfolding reply_end
  reply_end-Consumes a =
      >>=-Consumes (required a.isset_status) _ (required-Consumes a.isset_status)
        λ _. return-Consumes a.this

  pub read_reply-Consumes : (r : Reply) → Consumes (read_reply p unspecified r)
  unfolding read_reply
  read_reply-Consumes r =
      read_struct-Consumes c (reply_field p unspecified) _ (reply_end p unspecified)
        reply_field-Consumes reply_end-Consumes

  pub uid_rep_info_field-Consumes :
      (id : ℕ) (ty : TType) (a : UidRepInfoRead)
      → Consumes (uid_rep_info_field p unspecified id ty a)
  unfolding uid_rep_info_field
  uid_rep_info_field-Consumes id ty a =
      if-Consumes (id == 1) _ _ (field_of-Consumes c _ _ _ ty a c.string) (
        if-Consumes (id == 2) _ _
          (field_of-Consumes c _ _ _ ty a (read_reply-Consumes a.this.uid_rep))
          (skip_field-Consumes c ty a))

  uid_rep_info_end-Consumes : (a : UidRepInfoRead) → Consumes (uid_rep_info_end p unspecified a)
  unfolding uid_rep_info_end
  uid_rep_info_end-Consumes a =
      >>=-Consumes (required a.isset_uid) _ (required-Consumes a.isset_uid) λ _.
        >>=-Consumes (required a.isset_uid_rep) _ (required-Consumes a.isset_uid_rep)
          λ _. return-Consumes a.this

  pub read_uid_rep_info-Consumes : (r : UidRepInfo) → Consumes (read_uid_rep_info p unspecified r)
  unfolding read_uid_rep_info
  read_uid_rep_info-Consumes r =
      read_struct-Consumes c (uid_rep_info_field p unspecified) _ (uid_rep_info_end p unspecified)
        uid_rep_info_field-Consumes uid_rep_info_end-Consumes

  pub batch_reply_field-Consumes :
      (id : ℕ) (ty : TType) (a : BatchReplyRead)
      → Consumes (batch_reply_field p unspecified id ty a)
  unfolding batch_reply_field
  batch_reply_field-Consumes id ty a =
      if-Consumes (id == 1) _ _ (field_of-Consumes c _ _ _ ty a read_status-Consumes) (
        if-Consumes (id == 2) _ _
          (field_of-Consumes c _ _ _ ty a (
            read_list-Consumes c (read_uid_rep_info p unspecified new_uid_rep_info)
              (read_uid_rep_info-Consumes new_uid_rep_info)))
          (skip_field-Consumes c ty a))

  batch_reply_end-Consumes : (a : BatchReplyRead) → Consumes (batch_reply_end p unspecified a)
  unfolding batch_reply_end
  batch_reply_end-Consumes a =
      >>=-Consumes (required a.isset_status) _ (required-Consumes a.isset_status)
        λ _. return-Consumes a.this

  pub read_batch_reply-Consumes : (r : BatchReply) → Consumes (read_batch_reply p unspecified r)
  unfolding read_batch_reply
  read_batch_reply-Consumes r =
      read_struct-Consumes c (batch_reply_field p unspecified) _ (batch_reply_end p unspecified)
        batch_reply_field-Consumes batch_reply_end-Consumes
