-- ===== src/Proto/Request/RoundTrip.antt =====
-- The requests of one user: what is written is read back, and a read of any bytes ends.
use ab_dyeing.Base.{ℕ, arith, List, [], ◌∷◌, All, Bytes, codes, ◌==◌}
use ab_dyeing.Thrift.{
  TType, t_string, t_list, is_string, is_list, TProtocol, required, read_list, write_list,
}
use ab_dyeing.Thrift.Laws.{Reads, Consumes, IsText, IsShort, IsProtocol, IsConsuming}
use ab_dyeing.Thrift.Laws.Written.{
  return-Reads, field_of-Reads, read_list-Reads, field_rounds-Reads_field, field_rounds-Reads_stop,
  read_struct-Reads,
}
use ab_dyeing.Thrift.Laws.Consumed.{
  if-Consumes, required-Consumes, return-Consumes, >>=-Consumes, skip_field-Consumes,
  field_of-Consumes, read_list-Consumes, read_struct-Consumes,
}
use ab_dyeing.Proto.{DyeingRequest, DyeingLanRequest}
use ab_dyeing.Proto.Request.{
  RequestRead, LanRequestRead, request_field, request_end, read_request, write_request,
  lan_request_field, lan_request_end, read_lan_request, write_lan_request,
}

-- A request whose parts the wire can carry.
pub record IsSendableRequest (r : DyeingRequest) : Type 0 where
  pub app : IsText r.app
  pub app_ver : IsText r.app_ver
  pub short : IsShort r.types
  pub types : All IsText r.types

pub record IsSendableLanRequest (r : DyeingLanRequest) : Type 0 where
  pub app : IsText r.app
  pub app_ver : IsText r.app_ver
  pub app_lan : IsText r.app_lan
  pub short : IsShort r.types
  pub types : All IsText r.types

module _ {p : TProtocol} (c : IsConsuming p) where
  request_field-Consumes :
      (id : ℕ) (ty : TType) (a : RequestRead) → Consumes (request_field p id ty a)
  unfolding request_field
  request_field-Consumes id ty a =
      if-Consumes (id == 1) _ _ (field_of-Consumes c _ _ _ ty a c.string) (
        if-Consumes (id == 2) _ _ (field_of-Consumes c _ _ _ ty a c.string) (
          if-Consumes (id == 3) _ _
            (field_of-Consumes c _ _ _ ty a (read_list-Consumes c p.read_string c.string))
            (skip_field-Consumes c ty a)))

  request_end-Consumes : (a : RequestRead) → Consumes (request_end p a)
  unfolding request_end
  request_end-Consumes a =
      >>=-Consumes (required a.isset_app) _ (required-Consumes a.isset_app) λ _.
        >>=-Consumes (required a.isset_app_ver) _ (required-Consumes a.isset_app_ver) λ _.
          >>=-Consumes (required a.isset_types) _ (required-Consumes a.isset_types)
            λ _. return-Consumes a.this

  pub read_request-Consumes : (r : DyeingRequest) → Consumes (read_request p r)
  unfolding read_request
  read_request-Consumes r =
      read_struct-Consumes c (request_field p) _ (request_end p) request_field-Consumes
        request_end-Consumes

  pub lan_request_field-Consumes :
      (id : ℕ) (ty : TType) (a : LanRequestRead) → Consumes (lan_request_field p id ty a)
  unfolding lan_request_field
  lan_request_field-Consumes id ty a =
      if-Consumes (id == 1) _ _ (field_of-Consumes c _ _ _ ty a c.string) (
        if-Consumes (id == 2) _ _ (field_of-Consumes c _ _ _ ty a c.string) (
          if-Consumes (id == 3) _ _ (field_of-Consumes c _ _ _ ty a c.string) (
            if-Consumes (id == 4) _ _
              (field_of-Consumes c _ _ _ ty a (read_list-Consumes c p.read_string c.string))
              (skip_field-Consumes c ty a))))

  lan_request_end-Consumes : (a : LanRequestRead) → Consumes (lan_request_end p a)
  unfolding lan_request_end
  lan_request_end-Consumes a =
      >>=-Consumes (required a.isset_app) _ (required-Consumes a.isset_app) λ _.
        >>=-Consumes (required a.isset_app_ver) _ (required-Consumes a.isset_app_ver) λ _.
          >>=-Consumes (required a.isset_app_lan) _ (required-Consumes a.isset_app_lan) λ _.
            >>=-Consumes (required a.isset_types) _ (required-Consumes a.isset_types)
              λ _. return-Consumes a.this

  pub read_lan_request-Consumes : (r : DyeingLanRequest) → Consumes (read_lan_request p r)
  unfolding read_lan_request
  read_lan_request-Consumes r =
      read_struct-Consumes c (lan_request_field p) _ (lan_request_end p) lan_request_field-Consumes
        lan_request_end-Consumes

module _ {p : TProtocol} (w : IsProtocol p) where
  All-string :
      (xs : List Bytes) → All IsText xs → All (λ x. Reads p.read_string x (p.write_string x)) xs
  All-string [] h = tt
  All-string (x ∷ xs) h = (w.string x (h.0), All-string xs (h.1))

  pub read_strings-Reads :
      (xs : List Bytes)
      → IsShort xs
      → All IsText xs
      → Reads (read_list p p.read_string) xs (write_list p t_string p.write_string xs)
  read_strings-Reads xs short h =
      read_list-Reads w p.read_string p.write_string t_string xs short (All-string xs h)

  pub read_request-write :
      IsConsuming p
      → (this r : DyeingRequest) → IsSendableRequest r
      → Reads (read_request p this) r (write_request p r)
  unfolding read_request write_request request_field request_end is_list is_string required
  read_request-write c this r s =
      read_struct-Reads w (request_field p) (request_end p) 4 _ (codes "ABDyeingRequest") _ c
        (request_field-Consumes c)
        (field_rounds-Reads_field w (request_field p) 3 _ (codes "app") t_string 1 _ _ (λ e. cc)
          (omega arith) (field_of-Reads p _ _ t_string _ _ (w.string r.app s.app))
          (field_rounds-Reads_field w (request_field p) 2 _ (codes "app_ver") t_string 2 _ _
            (λ e. cc) (omega arith)
            (field_of-Reads p _ _ t_string _ _ (w.string r.app_ver s.app_ver))
            (field_rounds-Reads_field w (request_field p) 1 _ (codes "_types") t_list 3 _ _
              (λ e. cc) (omega arith)
              (field_of-Reads p _ _ t_list _ _ (read_strings-Reads r.types s.short s.types))
              (field_rounds-Reads_stop w (request_field p) 0 _))))
        (return-Reads r)

  pub read_lan_request-write :
      IsConsuming p
      → (this r : DyeingLanRequest) → IsSendableLanRequest r
      → Reads (read_lan_request p this) r (write_lan_request p r)
  unfolding read_lan_request write_lan_request lan_request_field lan_request_end is_list is_string
      required
  read_lan_request-write c this r s =
      read_struct-Reads w (lan_request_field p) (lan_request_end p) 5 _ (codes "ABDyeingLanRequest")
        _ c (lan_request_field-Consumes c)
        (field_rounds-Reads_field w (lan_request_field p) 4 _ (codes "app") t_string 1 _ _ (λ e. cc)
          (omega arith) (field_of-Reads p _ _ t_string _ _ (w.string r.app s.app))
          (field_rounds-Reads_field w (lan_request_field p) 3 _ (codes "app_ver") t_string 2 _ _
            (λ e. cc) (omega arith)
            (field_of-Reads p _ _ t_string _ _ (w.string r.app_ver s.app_ver))
            (field_rounds-Reads_field w (lan_request_field p) 2 _ (codes "app_lan") t_string 3 _ _
              (λ e. cc) (omega arith)
              (field_of-Reads p _ _ t_string _ _ (w.string r.app_lan s.app_lan))
              (field_rounds-Reads_field w (lan_request_field p) 1 _ (codes "_types") t_list 4 _ _
                (λ e. cc) (omega arith)
                (field_of-Reads p _ _ t_list _ _ (read_strings-Reads r.types s.short s.types))
                (field_rounds-Reads_stop w (lan_request_field p) 0 _)))))
        (return-Reads r)
