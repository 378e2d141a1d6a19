-- ===== src/Proto/Answer.antt =====
-- The serialisation of the replies: ABDyeingEntry, ABDyeingReply, ABDyeingUidRepInfo and
-- ABDyeingBatchReply of proto/gen-cpp/ab_dyeing_types.cpp.
pub mod Ends
pub mod RoundTrip
use ab_dyeing.Base.{ℕ, Bool, true, false, List, [], ◌∷◌, ◌++◌, Bytes, codes, ◌==◌, if◌then◌else◌}
use ab_dyeing.Thrift.{
  t_string, t_list, t_struct, t_i32, is_string, is_list, is_struct, is_i32, TProtocol, Read, Switch,
  return, ◌>>=◌, ◌>>◌, required, skip_field, field_of, read_struct, read_list, write_member,
  write_list, write_struct,
}
use ab_dyeing.Proto.{
  AbStatus, rc_status_ok, rc_server_error, rc_server_fault, rc_unknow_error, Entry, Reply,
  UidRepInfo, BatchReply, new_entry, new_uid_rep_info,
}

-- `(int32_t)this->status`.
unfoldable pub status_code : AbStatus → ℕ
status_code rc_status_ok = 0
status_code rc_server_error = 1
status_code rc_server_fault = 2
status_code rc_unknow_error = 3

-- The object of a `read`, and its local flags; `__isset` is a part of the object.
pub record EntryRead : Type 0 where
  pub this : Entry
  pub isset_type : Bool
  pub isset_config_id : Bool

pub record ReplyRead : Type 0 where
  pub this : Reply
  pub isset_status : Bool

pub record UidRepInfoRead : Type 0 where
  pub this : UidRepInfo
  pub isset_uid : Bool
  pub isset_uid_rep : Bool

pub record BatchReplyRead : Type 0 where
  pub this : BatchReply
  pub isset_status : Bool

-- `unspecified` is what the compiler makes of a number that is no enumerator.
module _ (p : TProtocol) (unspecified : ℕ → AbStatus) where
  -- `(ab_status::type)ecast`.
  unfoldable pub status_of : ℕ → AbStatus
  status_of n =
      if n == 0
      then rc_status_ok
      else if n == 1
      then rc_server_error
      else if n == 2
      then rc_server_fault
      else if n == 3
      then rc_unknow_error
      else unspecified n

  unfoldable pub read_status : Read AbStatus
  unfolding status_of
  read_status = do n ← p.read_i32; return (status_of n)

  unfoldable pub entry_field : Switch EntryRead
  unfolding is_string
  entry_field id ty a =
      if id == 1
      then field_of p (is_string ty) p.read_string
          (λ v. record a { this = record a.this { type = v }; isset_type = true }) ty a
      else if id == 2
      then field_of p (is_string ty) p.read_string
          (λ v. record a { this = record a.this { config_id = v }; isset_config_id = true }) ty a
      else skip_field p ty a

  unfoldable pub entry_end : EntryRead → Read Entry
  unfolding required
  entry_end a = do required a.isset_type; required a.isset_config_id; return a.this

  unfoldable pub read_entry : Entry → Read Entry
  unfolding entry_field entry_end
  read_entry this =
      read_struct p entry_field
        (record { this = this; isset_type = false; isset_config_id = false }) entry_end

  unfoldable pub reply_field : Switch ReplyRead
  unfolding is_i32 is_list read_status
  reply_field id ty a =
      if id == 1
      then field_of p (is_i32 ty) read_status
          (λ v. record a { this = record a.this { status = v }; isset_status = true }) ty a
      else if id == 2
      then field_of p (is_list ty) (read_list p (read_entry new_entry))
          (λ v. record a { this = record a.this { entries = v; isset_entries = true } }) ty a
      else skip_field p ty a

  unfoldable pub reply_end : ReplyRead → Read Reply
  unfolding required
  reply_end a = do required a.isset_status; return a.this

  unfoldable pub read_reply : Reply → Read Reply
  unfolding reply_field reply_end
  read_reply this =
      read_struct p reply_field (record { this = this; isset_status = false }) reply_end

  unfoldable pub uid_rep_info_field : Switch UidRepInfoRead
  unfolding is_string is_struct
  uid_rep_info_field id ty a =
      if id == 1
      then field_of p (is_string ty) p.read_string
          (λ v. record a { this = record a.this { uid = v }; isset_uid = true }) ty a
      else if id == 2
      then field_of p (is_struct ty) (read_reply a.this.uid_rep)
          (λ v. record a { this = record a.this { uid_rep = v }; isset_uid_rep = true }) ty a
      else skip_field p ty a

  unfoldable pub uid_rep_info_end : UidRepInfoRead → Read UidRepInfo
  unfolding required
  uid_rep_info_end a = do required a.isset_uid; required a.isset_uid_rep; return a.this

  unfoldable pub read_uid_rep_info : UidRepInfo → Read UidRepInfo
  unfolding uid_rep_info_field uid_rep_info_end
  read_uid_rep_info this =
      read_struct p uid_rep_info_field
        (record { this = this; isset_uid = false; isset_uid_rep = false }) uid_rep_info_end

  unfoldable pub batch_reply_field : Switch BatchReplyRead
  unfolding is_i32 is_list read_status
  batch_reply_field id ty a =
      if id == 1
      then field_of p (is_i32 ty) read_status
          (λ v. record a { this = record a.this { status = v }; isset_status = true }) ty a
      else if id == 2
      then field_of p (is_list ty) (read_list p (read_uid_rep_info new_uid_rep_info))
          (λ v. record a { this = record a.this { uid_rep_infos = v; isset_uid_rep_infos = true } })
          ty a
      else skip_field p ty a

  unfoldable pub batch_reply_end : BatchReplyRead → Read BatchReply
  unfolding required
  batch_reply_end a = do required a.isset_status; return a.this

  unfoldable pub read_batch_reply : BatchReply → Read BatchReply
  unfolding batch_reply_field batch_reply_end
  read_batch_reply this =
      read_struct p batch_reply_field (record { this = this; isset_status = false }) batch_reply_end

module _ (p : TProtocol) where
  open p use {write_field_stop}

  unfoldable pub write_entry : Entry → Bytes
  write_entry r = write_struct p (codes "ABDyeingEntry") (
      write_member p (codes "type") t_string 1 (p.write_string r.type)
      ++ (write_member p (codes "config_id") t_string 2 (p.write_string r.config_id)
          ++ write_field_stop))

  unfoldable pub write_reply : Reply → Bytes
  unfolding status_code
  write_reply r = write_struct p (codes "ABDyeingReply") (
      write_member p (codes "status") t_i32 1 (p.write_i32 (status_code r.status))
      ++ (if r.isset_entries
          then write_member p (codes "_entries") t_list 2
              (write_list p t_struct write_entry r.entries)
            ++ write_field_stop
          else write_field_stop))

  unfoldable pub write_uid_rep_info : UidRepInfo → Bytes
  write_uid_rep_info r = write_struct p (codes "ABDyeingUidRepInfo") (
      write_member p (codes "uid") t_string 1 (p.write_string r.uid)
      ++ (write_member p (codes "_uid_rep") t_struct 2 (write_reply r.uid_rep) ++ write_field_stop))

  unfoldable pub write_batch_reply : BatchReply → Bytes
  unfolding status_code
  write_batch_reply r = write_struct p (codes "ABDyeingBatchReply") (
      write_member p (codes "status") t_i32 1 (p.write_i32 (status_code r.status))
      ++ (if r.isset_uid_rep_infos
          then write_member p (codes "_uid_rep_infos") t_list 2
              (write_list p t_struct write_uid_rep_info r.uid_rep_infos)
            ++ write_field_stop
          else write_field_stop))
