-- ===== src/Proto/UidRequest.antt =====
-- The serialisation of the requests of a batch: ABDyeingUidReqInfo, ABDyeingUidLanReqInfo,
-- ABDyeingBatchRequest and ABDyeingBatchLanRequest of proto/gen-cpp/ab_dyeing_types.cpp.
pub mod Ends
pub mod RoundTrip
use ab_dyeing.Base.{ℕ, Bool, true, false, List, [], ◌∷◌, ◌++◌, Bytes, codes, ◌==◌, if◌then◌else◌}
use ab_dyeing.Thrift.{
  t_string, t_list, t_struct, is_string, is_list, is_struct, TProtocol, Read, Switch, return, ◌>>=◌,
  ◌>>◌, required, skip_field, field_of, read_struct, read_list, write_member, write_list,
  write_struct,
}
use ab_dyeing.Proto.{
  UidReqInfo, UidLanReqInfo, BatchRequest, BatchLanRequest, new_uid_req_info, new_uid_lan_req_info,
}
use ab_dyeing.Proto.Request.{read_request, write_request, read_lan_request, write_lan_request}

-- The object of a `read`, and its local flags.
pub record UidReqInfoRead : Type 0 where
  pub this : UidReqInfo
  pub isset_uid : Bool
  pub isset_uid_info : Bool

pub record UidLanReqInfoRead : Type 0 where
  pub this : UidLanReqInfo
  pub isset_uid : Bool
  pub isset_uid_lan_info : Bool

pub record BatchRequestRead : Type 0 where
  pub this : BatchRequest
  pub isset_uid_req_infos : Bool

pub record BatchLanRequestRead : Type 0 where
  pub this : BatchLanRequest
  pub isset_uid_lan_req_infos : Bool

module _ (p : TProtocol) where
  open p use {write_field_stop}

  unfoldable pub uid_req_info_field : Switch UidReqInfoRead
  unfolding is_string is_struct
  uid_req_info_field id ty a =
      if id == 1
      then field_of p (is_string ty) p.read_string
          (λ v. record a { this = record a.this { uid = v }; isset_uid = true }) ty a
      else if id == 2
      then field_of p (is_struct ty) (read_request p a.this.uid_info)
          (λ v. record a { this = record a.this { uid_info = v }; isset_uid_info = true }) ty a
      else skip_field p ty a

  unfoldable pub uid_req_info_end : UidReqInfoRead → Read UidReqInfo
  unfolding required
  uid_req_info_end a = do required a.isset_uid; required a.isset_uid_info; return a.this

  unfoldable pub read_uid_req_info : UidReqInfo → Read UidReqInfo
  unfolding uid_req_info_field uid_req_info_end
  read_uid_req_info this =
      read_struct p uid_req_info_field
        (record { this = this; isset_uid = false; isset_uid_info = false }) uid_req_info_end

  unfoldable pub write_uid_req_info : UidReqInfo → Bytes
  write_uid_req_info r = write_struct p (codes "ABDyeingUidReqInfo") (
      write_member p (codes "uid") t_string 1 (p.write_string r.uid)
      ++ (write_member p (codes "_uid_info") t_struct 2 (write_request p r.uid_info)
          ++ write_field_stop))

  unfoldable pub uid_lan_req_info_field : Switch UidLanReqInfoRead
  unfolding is_string is_struct
  uid_lan_req_info_field id ty a =
      if id == 1
      then field_of p (is_string ty) p.read_string
          (λ v. record a { this = record a.this { uid = v }; isset_uid = true }) ty a
      else if id == 2
      then field_of p (is_struct ty) (read_lan_request p a.this.uid_lan_info)
          (λ v. record a { this = record a.this { uid_lan_info = v }; isset_uid_lan_info = true })
          ty a
      else skip_field p ty a

  unfoldable pub uid_lan_req_info_end : UidLanReqInfoRead → Read UidLanReqInfo
  unfolding required
  uid_lan_req_info_end a = do required a.isset_uid; required a.isset_uid_lan_info; return a.this

  unfoldable pub read_uid_lan_req_info : UidLanReqInfo → Read UidLanReqInfo
  unfolding uid_lan_req_info_field uid_lan_req_info_end
  read_uid_lan_req_info this =
      read_struct p uid_lan_req_info_field
        (record { this = this; isset_uid = false; isset_uid_lan_info = false }) uid_lan_req_info_end

  unfoldable pub write_uid_lan_req_info : UidLanReqInfo → Bytes
  write_uid_lan_req_info r = write_struct p (codes "ABDyeingUidLanReqInfo") (
      write_member p (codes "uid") t_string 1 (p.write_string r.uid)
      ++ (write_member p (codes "_uid_lan_info") t_struct 2 (write_lan_request p r.uid_lan_info)
          ++ write_field_stop))

  unfoldable pub batch_request_field : Switch BatchRequestRead
  unfolding is_list
  batch_request_field id ty a =
      if id == 1
      then field_of p (is_list ty) (read_list p (read_uid_req_info new_uid_req_info))
          (λ v. record a { this = v; isset_uid_req_infos = true }) ty a
      else skip_field p ty a

  unfoldable pub batch_request_end : BatchRequestRead → Read BatchRequest
  unfolding required
  batch_request_end a = do required a.isset_uid_req_infos; return a.this

  unfoldable pub read_batch_request : BatchRequest → Read BatchRequest
  unfolding batch_request_field batch_request_end
  read_batch_request this =
      read_struct p batch_request_field (record { this = this; isset_uid_req_infos = false })
        batch_request_end

  unfoldable pub write_batch_request : BatchRequest → Bytes
  write_batch_request r = write_struct p (codes "ABDyeingBatchRequest") (
      write_member p (codes "_uid_req_infos") t_list 1 (write_list p t_struct write_uid_req_info r)
      ++ write_field_stop)

  unfoldable pub batch_lan_request_field : Switch BatchLanRequestRead
  unfolding is_list
  batch_lan_request_field id ty a =
      if id == 1
      then field_of p (is_list ty) (read_list p (read_uid_lan_req_info new_uid_lan_req_info))
          (λ v. record a { this = v; isset_uid_lan_req_infos = true }) ty a
      else skip_field p ty a

  unfoldable pub batch_lan_request_end : BatchLanRequestRead → Read BatchLanRequest
  unfolding required
  batch_lan_request_end a = do required a.isset_uid_lan_req_infos; return a.this

  unfoldable pub read_batch_lan_request : BatchLanRequest → Read BatchLanRequest
  unfolding batch_lan_request_field batch_lan_request_end
  read_batch_lan_request this =
      read_struct p batch_lan_request_field
        (record { this = this; isset_uid_lan_req_infos = false }) batch_lan_request_end

  unfoldable pub write_batch_lan_request : BatchLanRequest → Bytes
  write_batch_lan_request r = write_struct p (codes "ABDyeingBatchLanRequest") (
      write_member p (codes "_uid_lan_req_infos") t_list 1
        (write_list p t_struct write_uid_lan_req_info r)
      ++ write_field_stop)
