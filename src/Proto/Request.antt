-- ===== src/Proto/Request.antt =====
-- The serialisation of the requests of one user: ABDyeingRequest and ABDyeingLanRequest of
-- proto/gen-cpp/ab_dyeing_types.cpp. A `read` fills the object that it is called on.
pub mod RoundTrip
pub mod Partial
use ab_dyeing.Base.{ℕ, Bool, true, false, List, [], ◌∷◌, ◌++◌, Bytes, codes, ◌==◌, if◌then◌else◌}
use ab_dyeing.Thrift.{
  t_string, t_list, is_string, is_list, TProtocol, Read, Switch, return, ◌>>=◌, ◌>>◌, required,
  skip_field, field_of, read_struct, read_list, write_member, write_list, write_struct,
}
use ab_dyeing.Proto.{DyeingRequest, DyeingLanRequest}

-- The object of a `read`, and its local flags.
pub record RequestRead : Type 0 where
  pub this : DyeingRequest
  pub isset_app : Bool
  pub isset_app_ver : Bool
  pub isset_types : Bool

pub record LanRequestRead : Type 0 where
  pub this : DyeingLanRequest
  pub isset_app : Bool
  pub isset_app_ver : Bool
  pub isset_app_lan : Bool
  pub isset_types : Bool

module _ (p : TProtocol) where
  open p use {read_string, write_string, write_field_stop}

  unfoldable pub request_field : Switch RequestRead
  unfolding is_string is_list
  request_field id ty a =
      if id == 1
      then field_of p (is_string ty) read_string
          (λ v. record a { this = record a.this { app = v }; isset_app = true }) ty a
      else if id == 2
      then field_of p (is_string ty) read_string
          (λ v. record a { this = record a.this { app_ver = v }; isset_app_ver = true }) ty a
      else if id == 3
      then field_of p (is_list ty) (read_list p read_string)
          (λ v. record a { this = record a.this { types = v }; isset_types = true }) ty a
      else skip_field p ty a

  -- The tests behind the loop.
  unfoldable pub request_end : RequestRead → Read DyeingRequest
  unfolding required
  request_end a = do
    required a.isset_app
    required a.isset_app_ver
    required a.isset_types
    return a.this

  unfoldable pub read_request : DyeingRequest → Read DyeingRequest
  unfolding request_field request_end
  read_request this =
      read_struct p request_field
        (record { this = this; isset_app = false; isset_app_ver = false; isset_types = false })
        request_end

  unfoldable pub write_request : DyeingRequest → Bytes
  write_request r = write_struct p (codes "ABDyeingRequest") (
      write_member p (codes "app") t_string 1 (write_string r.app)
      ++ (write_member p (codes "app_ver") t_string 2 (write_string r.app_ver)
          ++ (write_member p (codes "_types") t_list 3 (write_list p t_string write_string r.types)
              ++ write_field_stop)))

  unfoldable pub lan_request_field : Switch LanRequestRead
  unfolding is_string is_list
  lan_request_field id ty a =
      if id == 1
      then field_of p (is_string ty) read_string
          (λ v. record a { this = record a.this { app = v }; isset_app = true }) ty a
      else if id == 2
      then field_of p (is_string ty) read_string
          (λ v. record a { this = record a.this { app_ver = v }; isset_app_ver = true }) ty a
      else if id == 3
      then field_of p (is_string ty) read_string
          (λ v. record a { this = record a.this { app_lan = v }; isset_app_lan = true }) ty a
      else if id == 4
      then field_of p (is_list ty) (read_list p read_string)
          (λ v. record a { this = record a.this { types = v }; isset_types = true }) ty a
      else skip_field p ty a

  unfoldable pub lan_request_end : LanRequestRead → Read DyeingLanRequest
  unfolding required
  lan_request_end a = do
    required a.isset_app
    required a.isset_app_ver
    required a.isset_app_lan
    required a.isset_types
    return a.this

  unfoldable pub read_lan_request : DyeingLanRequest → Read DyeingLanRequest
  unfolding lan_request_field lan_request_end
  read_lan_request this =
      read_struct p lan_request_field
        (record {
          this = this;
          isset_app = false;
          isset_app_ver = false;
          isset_app_lan = false;
          isset_types = false;
        })
        lan_request_end

  unfoldable pub write_lan_request : DyeingLanRequest → Bytes
  write_lan_request r = write_struct p (codes "ABDyeingLanRequest") (
      write_member p (codes "app") t_string 1 (write_string r.app)
      ++ (write_member p (codes "app_ver") t_string 2 (write_string r.app_ver)
          ++ (write_member p (codes "app_lan") t_string 3 (write_string r.app_lan)
              ++ (write_member p (codes "_types") t_list 4
                    (write_list p t_string write_string r.types)
                  ++ write_field_stop))))
