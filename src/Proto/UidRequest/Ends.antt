-- ===== src/Proto/UidRequest/Ends.antt =====
-- The requests of a batch: a read of any bytes ends.
use ab_dyeing.Base.{ℕ, ◌==◌}
use ab_dyeing.Thrift.{TType, TProtocol, required}
use ab_dyeing.Thrift.Laws.{Consumes, IsConsuming}
use ab_dyeing.Thrift.Laws.Consumed.{
  if-Consumes, required-Consumes, return-Consumes, >>=-Consumes, skip_field-Consumes,
  field_of-Consumes, read_list-Consumes, read_struct-Consumes,
}
use ab_dyeing.Proto.{
  UidReqInfo, UidLanReqInfo, BatchRequest, BatchLanRequest, new_uid_req_info, new_uid_lan_req_info,
}
use ab_dyeing.Proto.Request.RoundTrip.{read_request-Consumes, read_lan_request-Consumes}
use ab_dyeing.Proto.UidRequest.{
  UidReqInfoRead, uid_req_info_field, uid_req_info_end, read_uid_req_info, UidLanReqInfoRead,
  uid_lan_req_info_field, uid_lan_req_info_end, read_uid_lan_req_info, BatchRequestRead,
  batch_request_field, batch_request_end, read_batch_request, BatchLanRequestRead,
  batch_lan_request_field, batch_lan_request_end, read_batch_lan_request,
}

module _ {p : TProtocol} (c : IsConsuming p) where
  pub uid_req_info_field-Consumes :
      (id : ℕ) (ty : TType) (a : UidReqInfoRead) → Consumes (uid_req_info_field p id ty a)
  unfolding uid_req_info_field
  uid_req_info_field-Consumes id ty a =
      if-Consumes (id == 1) _ _ (field_of-Consumes c _ _ _ ty a c.string) (
        if-Consumes (id == 2) _ _
          (field_of-Consumes c _ _ _ ty a (read_request-Consumes c a.this.uid_info))
          (skip_field-Consumes c ty a))

  uid_req_info_end-Consumes : (a : UidReqInfoRead) → Consumes (uid_req_info_end p a)
  unfolding uid_req_info_end
  uid_req_info_end-Consumes a =
      >>=-Consumes (required a.isset_uid) _ (required-Consumes a.isset_uid) λ _.
        >>=-Consumes (required a.isset_uid_info) _ (required-Consumes a.isset_uid_info)
          λ _. return-Consumes a.this

  pub read_uid_req_info-Consumes : (r : UidReqInfo) → Consumes (read_uid_req_info p r)
  unfolding read_uid_req_info
  read_uid_req_info-Consumes r =
      read_struct-Consumes c (uid_req_info_field p) _ (uid_req_info_end p)
        uid_req_info_field-Consumes uid_req_info_end-Consumes

  pub uid_lan_req_info_field-Consumes :
      (id : ℕ) (ty : TType) (a : UidLanReqInfoRead) → Consumes (uid_lan_req_info_field p id ty a)
  unfolding uid_lan_req_info_field
  uid_lan_req_info_field-Consumes id ty a =
      if-Consumes (id == 1) _ _ (field_of-Consumes c _ _ _ ty a c.string) (
        if-Consumes (id == 2) _ _
          (field_of-Consumes c _ _ _ ty a (read_lan_request-Consumes c a.this.uid_lan_info))
          (skip_field-Consumes c ty a))

  uid_lan_req_info_end-Consumes : (a : UidLanReqInfoRead) → Consumes (uid_lan_req_info_end p a)
  unfolding uid_lan_req_info_end
  uid_lan_req_info_end-Consumes a =
      >>=-Consumes (required a.isset_uid) _ (required-Consumes a.isset_uid) λ _.
        >>=-Consumes (required a.isset_uid_lan_info) _ (required-Consumes a.isset_uid_lan_info)
          λ _. return-Consumes a.this

  pub read_uid_lan_req_info-Consumes : (r : UidLanReqInfo) → Consumes (read_uid_lan_req_info p r)
  unfolding read_uid_lan_req_info
  read_uid_lan_req_info-Consumes r =
      read_struct-Consumes c (uid_lan_req_info_field p) _ (uid_lan_req_info_end p)
        uid_lan_req_info_field-Consumes uid_lan_req_info_end-Consumes

  pub batch_request_field-Consumes :
      (id : ℕ) (ty : TType) (a : BatchRequestRead) → Consumes (batch_request_field p id ty a)
  unfolding batch_request_field
  batch_request_field-Consumes id ty a =
      if-Consumes (id == 1) _ _
        (field_of-Consumes c _ _ _ ty a (
          read_list-Consumes c (read_uid_req_info p new_uid_req_info)
            (read_uid_req_info-Consumes new_uid_req_info)))
        (skip_field-Consumes c ty a)

  batch_request_end-Consumes : (a : BatchRequestRead) → Consumes (batch_request_end p a)
  unfolding batch_request_end
  batch_request_end-Consumes a =
      >>=-Consumes (required a.isset_uid_req_infos) _ (required-Consumes a.isset_uid_req_infos)
        λ _. return-Consumes a.this

  pub read_batch_request-Consumes : (r : BatchRequest) → Consumes (read_batch_request p r)
  unfolding read_batch_request
  read_batch_request-Consumes r =
      read_struct-Consumes c (batch_request_field p) _ (batch_request_end p)
        batch_request_field-Consumes batch_request_end-Consumes

  pub batch_lan_request_field-Consumes :
      (id : ℕ) (ty : TType) (a : BatchLanRequestRead) → Consumes (batch_lan_request_field p id ty a)
  unfolding batch_lan_request_field
  batch_lan_request_field-Consumes id ty a =
      if-Consumes (id == 1) _ _
        (field_of-Consumes c _ _ _ ty a (
          read_list-Consumes c (read_uid_lan_req_info p new_uid_lan_req_info)
            (read_uid_lan_req_info-Consumes new_uid_lan_req_info)))
        (skip_field-Consumes c ty a)

  batch_lan_request_end-Consumes : (a : BatchLanRequestRead) → Consumes (batch_lan_request_end p a)
  unfolding batch_lan_request_end
  batch_lan_request_end-Consumes a =
      >>=-Consumes (required a.isset_uid_lan_req_infos) _
        (required-Consumes a.isset_uid_lan_req_infos) λ _. return-Consumes a.this

  pub read_batch_lan_request-Consumes :
      (r : BatchLanRequest) → Consumes (read_batch_lan_request p r)
  unfolding read_batch_lan_request
  read_batch_lan_request-Consumes r =
      read_struct-Consumes c (batch_lan_request_field p) _ (batch_lan_request_end p)
        batch_lan_request_field-Consumes batch_lan_request_end-Consumes
