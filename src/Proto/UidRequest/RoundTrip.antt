-- ===== src/Proto/UidRequest/RoundTrip.antt =====
-- The requests of a batch: what is written is read back.
use ab_dyeing.Base.{arith, List, [], ◌∷◌, All, codes}
use ab_dyeing.Thrift.{
  t_string, t_list, t_struct, is_string, is_list, is_struct, TProtocol, required, read_list,
  write_list,
}
use ab_dyeing.Thrift.Laws.{Reads, IsText, IsShort, IsProtocol, IsConsuming}
use ab_dyeing.Thrift.Laws.Written.{
  return-Reads, field_of-Reads, read_list-Reads, field_rounds-Reads_field, field_rounds-Reads_stop,
  read_struct-Reads,
}
use ab_dyeing.Proto.{
  UidReqInfo, UidLanReqInfo, BatchRequest, BatchLanRequest, new_uid_req_info, new_uid_lan_req_info,
}
use ab_dyeing.Proto.Request.RoundTrip.{
  IsSendableRequest, IsSendableLanRequest, read_request-write, read_lan_request-write,
}
use ab_dyeing.Proto.UidRequest.{
  uid_req_info_field, uid_req_info_end, read_uid_req_info, write_uid_req_info,
  uid_lan_req_info_field, uid_lan_req_info_end, read_uid_lan_req_info, write_uid_lan_req_info,
  batch_request_field, batch_request_end, read_batch_request, write_batch_request,
  batch_lan_request_field, batch_lan_request_end, read_batch_lan_request, write_batch_lan_request,
}
use ab_dyeing.Proto.UidRequest.Ends.{
  uid_req_info_field-Consumes, uid_lan_req_info_field-Consumes, batch_request_field-Consumes,
  batch_lan_request_field-Consumes,
}

-- What the wire can carry.
pub record IsSendableUidReqInfo (r : UidReqInfo) : Type 0 where
  pub uid : IsText r.uid
  pub uid_info : IsSendableRequest r.uid_info

pub record IsSendableUidLanReqInfo (r : UidLanReqInfo) : Type 0 where
  pub uid : IsText r.uid
  pub uid_lan_info : IsSendableLanRequest r.uid_lan_info

pub record IsSendableBatchRequest (r : BatchRequest) : Type 0 where
  pub short : IsShort r
  pub uid_req_infos : All IsSendableUidReqInfo r

pub record IsSendableBatchLanRequest (r : BatchLanRequest) : Type 0 where
  pub short : IsShort r
  pub uid_lan_req_infos : All IsSendableUidLanReqInfo r

module _ {p : TProtocol} (w : IsProtocol p) where
  pub read_uid_req_info-write :
      IsConsuming p
      → (this r : UidReqInfo) → IsSendableUidReqInfo r
      → Reads (read_uid_req_info p this) r (write_uid_req_info p r)
  unfolding read_uid_req_info write_uid_req_info uid_req_info_field uid_req_info_end is_string
      is_struct required
  read_uid_req_info-write c this r s =
      read_struct-Reads w (uid_req_info_field p) (uid_req_info_end p) 3 _
        (codes "ABDyeingUidReqInfo") _ c (uid_req_info_field-Consumes c)
        (field_rounds-Reads_field w (uid_req_info_field p) 2 _ (codes "uid") t_string 1 _ _
          (λ e. cc) (omega arith) (field_of-Reads p _ _ t_string _ _ (w.string r.uid s.uid))
          (field_rounds-Reads_field w (uid_req_info_field p) 1 _ (codes "_uid_info") t_struct 2 _ _
            (λ e. cc) (omega arith)
            (field_of-Reads p _ _ t_struct _ _
              (read_request-write w c this.uid_info r.uid_info s.uid_info))
            (field_rounds-Reads_stop w (uid_req_info_field p) 0 _)))
        (return-Reads r)

  All-uid_req_info :
      IsConsuming p
      → (xs : List UidReqInfo) → All IsSendableUidReqInfo xs
      → All (λ x. Reads (read_uid_req_info p new_uid_req_info) x (write_uid_req_info p x)) xs
  All-uid_req_info c [] h = tt
  All-uid_req_info c (x ∷ xs) h =
      (read_uid_req_info-write c new_uid_req_info x (h.0), All-uid_req_info c xs (h.1))

  pub read_uid_req_infos-Reads :
      IsConsuming p
      → (xs : List UidReqInfo) → IsShort xs
      → All IsSendableUidReqInfo xs
      → Reads
          (read_list p (read_uid_req_info p new_uid_req_info))
          xs
          (write_list p t_struct (write_uid_req_info p) xs)
  read_uid_req_infos-Reads c xs short h =
      read_list-Reads w (read_uid_req_info p new_uid_req_info) (write_uid_req_info p) t_struct xs
        short (All-uid_req_info c xs h)

  pub read_uid_lan_req_info-write :
      IsConsuming p
      → (this r : UidLanReqInfo) → IsSendableUidLanReqInfo r
      → Reads (read_uid_lan_req_info p this) r (write_uid_lan_req_info p r)
  unfolding read_uid_lan_req_info write_uid_lan_req_info uid_lan_req_info_field uid_lan_req_info_end
      is_string is_struct required
  read_uid_lan_req_info-write c this r s =
      read_struct-Reads w (uid_lan_req_info_field p) (uid_lan_req_info_end p) 3 _
        (codes "ABDyeingUidLanReqInfo") _ c (uid_lan_req_info_field-Consumes c)
        (field_rounds-Reads_field w (uid_lan_req_info_field p) 2 _ (codes "uid") t_string 1 _ _
          (λ e. cc) (omega arith) (field_of-Reads p _ _ t_string _ _ (w.string r.uid s.uid))
          (field_rounds-Reads_field w (uid_lan_req_info_field p) 1 _ (codes "_uid_lan_info")
            t_struct 2 _ _ (λ e. cc) (omega arith)
            (field_of-Reads p _ _ t_struct _ _
              (read_lan_request-write w c this.uid_lan_info r.uid_lan_info s.uid_lan_info))
            (field_rounds-Reads_stop w (uid_lan_req_info_field p) 0 _)))
        (return-Reads r)

  All-uid_lan_req_info :
      IsConsuming p
      → (xs : List UidLanReqInfo) → All IsSendableUidLanReqInfo xs
      → All
          (λ x. Reads (read_uid_lan_req_info p new_uid_lan_req_info) x (write_uid_lan_req_info p x))
          xs
  All-uid_lan_req_info c [] h = tt
  All-uid_lan_req_info c (x ∷ xs) h =
      (read_uid_lan_req_info-write c new_uid_lan_req_info x (h.0), All-uid_lan_req_info c xs (h.1))

  pub read_uid_lan_req_infos-Reads :
      IsConsuming p
      → (xs : List UidLanReqInfo) → IsShort xs
      → All IsSendableUidLanReqInfo xs
      → Reads
          (read_list p (read_uid_lan_req_info p new_uid_lan_req_info))
          xs
          (write_list p t_struct (write_uid_lan_req_info p) xs)
  read_uid_lan_req_infos-Reads c xs short h =
      read_list-Reads w (read_uid_lan_req_info p new_uid_lan_req_info) (write_uid_lan_req_info p)
        t_struct xs short (All-uid_lan_req_info c xs h)

  pub read_batch_request-write :
      IsConsuming p
      → (this r : BatchRequest) → IsSendableBatchRequest r
      → Reads (read_batch_request p this) r (write_batch_request p r)
  unfolding read_batch_request write_batch_request batch_request_field batch_request_end is_list
      required
  read_batch_request-write c this r s =
      read_struct-Reads w (batch_request_field p) (batch_request_end p) 2 _
        (codes "ABDyeingBatchRequest") _ c (batch_request_field-Consumes c)
        (field_rounds-Reads_field w (batch_request_field p) 1 _ (codes "_uid_req_infos") t_list 1 _
          _ (λ e. cc) (omega arith)
          (field_of-Reads p _ _ t_list _ _ (read_uid_req_infos-Reads c r s.short s.uid_req_infos))
          (field_rounds-Reads_stop w (batch_request_field p) 0 _))
        (return-Reads r)

  pub read_batch_lan_request-write :
      IsConsuming p
      → (this r : BatchLanRequest) → IsSendableBatchLanRequest r
      → Reads (read_batch_lan_request p this) r (write_batch_lan_request p r)
  unfolding read_batch_lan_request write_batch_lan_request batch_lan_request_field
      batch_lan_request_end is_list required
  read_batch_lan_request-write c this r s =
      read_struct-Reads w (batch_lan_request_field p) (batch_lan_request_end p) 2 _
        (codes "ABDyeingBatchLanRequest") _ c (batch_lan_request_field-Consumes c)
        (field_rounds-Reads_field w (batch_lan_request_field p) 1 _ (codes "_uid_lan_req_infos")
          t_list 1 _ _ (λ e. cc) (omega arith)
          (field_of-Reads p _ _ t_list _ _
            (read_uid_lan_req_infos-Reads c r s.short s.uid_lan_req_infos))
          (field_rounds-Reads_stop w (batch_lan_request_field p) 0 _))
        (return-Reads r)
