-- ===== src/Service.antt =====
-- The arguments and results of the calls of proto/gen-cpp/ABDyeingService.cpp, as they are written
-- and read. A class of pointers to arguments or results (pargs, presult) is written and read like
-- the class that holds them.
pub mod Arguments
pub mod Client
pub mod Processor
pub mod Exchange
pub mod Calls
pub mod Ends
pub mod Serving
use ab_dyeing.Base.{ℕ, Bool, true, false, ◌++◌, Bytes, codes, ◌==◌, if◌then◌else◌}
use ab_dyeing.Outcome.{Outcome}
use ab_dyeing.Thrift.{
  t_string, t_struct, is_string, is_struct, TProtocol, Read, Switch, return, skip_field, field_of,
  read_struct, write_member, write_struct,
}
use ab_dyeing.Proto.{
  AbStatus, DyeingRequest, DyeingLanRequest, BatchRequest, BatchLanRequest, Reply, BatchReply,
}
use ab_dyeing.Proto.Request.{read_request, write_request, read_lan_request, write_lan_request}
use ab_dyeing.Proto.UidRequest.{
  read_batch_request, write_batch_request, read_batch_lan_request, write_batch_lan_request,
}
use ab_dyeing.Proto.Answer.{read_reply, write_reply, read_batch_reply, write_batch_reply}

-- `ABDyeingService_dyeing_args` and `ABDyeingService_DyeingLan_args`.
pub record UserArgs (R : Type 0) : Type 0 where
  pub uid : Bytes
  pub req : R
  pub isset_uid : Bool
  pub isset_req : Bool

-- `ABDyeingService_BatchDyeing_args` and `ABDyeingService_BatchDyeingLan_args`.
pub record BatchArgs (R : Type 0) : Type 0 where
  pub batch_reqs : R
  pub isset_batch_reqs : Bool

-- `ABDyeingService_dyeing_result` and the three others.
pub record Result (R : Type 0) : Type 0 where
  pub success : R
  pub isset_success : Bool

-- What the four calls share, over the reading and writing of what they carry.
module _ (p : TProtocol) where
  unfoldable pub user_args_field : {R : Type 0} → (R → Read R) → Switch (UserArgs R)
  unfolding is_string is_struct
  user_args_field read_req id ty a =
      if id == 1
      then field_of p (is_string ty) p.read_string (λ v. record a { uid = v; isset_uid = true }) ty
          a
      else if id == 2
      then field_of p (is_struct ty) (read_req a.req) (λ v. record a { req = v; isset_req = true })
          ty a
      else skip_field p ty a

  unfoldable pub read_user_args : {R : Type 0} → (R → Read R) → UserArgs R → Read (UserArgs R)
  unfolding user_args_field
  read_user_args read_req this = read_struct p (user_args_field read_req) this return

  unfoldable pub write_user_args : {R : Type 0} → (R → Bytes) → Bytes → Bytes → R → Bytes
  write_user_args write_req name uid req = write_struct p name (
      write_member p (codes "uid") t_string 1 (p.write_string uid)
      ++ (write_member p (codes "req") t_struct 2 (write_req req) ++ p.write_field_stop))

  unfoldable pub batch_args_field : {R : Type 0} → (R → Read R) → Switch (BatchArgs R)
  unfolding is_struct
  batch_args_field read_req id ty a =
      if id == 1
      then field_of p (is_struct ty) (read_req a.batch_reqs)
          (λ v. record a { batch_reqs = v; isset_batch_reqs = true }) ty a
      else skip_field p ty a

  unfoldable pub read_batch_args : {R : Type 0} → (R → Read R) → BatchArgs R → Read (BatchArgs R)
  unfolding batch_args_field
  read_batch_args read_req this = read_struct p (batch_args_field read_req) this return

  unfoldable pub write_batch_args : {R : Type 0} → (R → Bytes) → Bytes → R → Bytes
  write_batch_args write_req name reqs =
      write_struct p name
        (write_member p (codes "batch_reqs") t_struct 1 (write_req reqs) ++ p.write_field_stop)

  unfoldable pub result_field : {R : Type 0} → (R → Read R) → Switch (Result R)
  unfolding is_struct
  result_field read_reply id ty a =
      if id == 0
      then field_of p (is_struct ty) (read_reply a.success)
          (λ v. record a { success = v; isset_success = true }) ty a
      else skip_field p ty a

  unfoldable pub read_result : {R : Type 0} → (R → Read R) → Result R → Read (Result R)
  unfolding result_field
  read_result read_reply this = read_struct p (result_field read_reply) this return

  unfoldable pub write_result : {R : Type 0} → (R → Bytes) → Bytes → Result R → Bytes
  write_result write_reply name r = write_struct p name (
      if r.isset_success
      then write_member p (codes "success") t_struct 0 (write_reply r.success) ++ p.write_field_stop
      else p.write_field_stop)

  -- The call `dyeing`.
  unfoldable pub read_dyeing_args : UserArgs DyeingRequest → Read (UserArgs DyeingRequest)
  read_dyeing_args = read_user_args (read_request p)

  unfoldable pub write_dyeing_args : Bytes → DyeingRequest → Bytes
  write_dyeing_args = write_user_args (write_request p) (codes "ABDyeingService_dyeing_args")

  unfoldable pub write_dyeing_pargs : Bytes → DyeingRequest → Bytes
  write_dyeing_pargs = write_user_args (write_request p) (codes "ABDyeingService_dyeing_pargs")

  unfoldable pub write_dyeing_result : Result Reply → Bytes
  write_dyeing_result = write_result (write_reply p) (codes "ABDyeingService_dyeing_result")

  -- The call `DyeingLan`.
  unfoldable pub read_dyeing_lan_args : UserArgs DyeingLanRequest → Read (UserArgs DyeingLanRequest)
  read_dyeing_lan_args = read_user_args (read_lan_request p)

  unfoldable pub write_dyeing_lan_args : Bytes → DyeingLanRequest → Bytes
  write_dyeing_lan_args =
      write_user_args (write_lan_request p) (codes "ABDyeingService_DyeingLan_args")

  unfoldable pub write_dyeing_lan_pargs : Bytes → DyeingLanRequest → Bytes
  write_dyeing_lan_pargs =
      write_user_args (write_lan_request p) (codes "ABDyeingService_DyeingLan_pargs")

  unfoldable pub write_dyeing_lan_result : Result Reply → Bytes
  write_dyeing_lan_result = write_result (write_reply p) (codes "ABDyeingService_DyeingLan_result")

  -- The call `BatchDyeing`.
  unfoldable pub read_batch_dyeing_args : BatchArgs BatchRequest → Read (BatchArgs BatchRequest)
  read_batch_dyeing_args = read_batch_args (read_batch_request p)

  unfoldable pub write_batch_dyeing_args : BatchRequest → Bytes
  write_batch_dyeing_args =
      write_batch_args (write_batch_request p) (codes "ABDyeingService_BatchDyeing_args")

  unfoldable pub write_batch_dyeing_pargs : BatchRequest → Bytes
  write_batch_dyeing_pargs =
      write_batch_args (write_batch_request p) (codes "ABDyeingService_BatchDyeing_pargs")

  unfoldable pub write_batch_dyeing_result : Result BatchReply → Bytes
  write_batch_dyeing_result =
      write_result (write_batch_reply p) (codes "ABDyeingService_BatchDyeing_result")

  -- The call `BatchDyeingLan`.
  unfoldable pub read_batch_dyeing_lan_args :
      BatchArgs BatchLanRequest → Read (BatchArgs BatchLanRequest)
  read_batch_dyeing_lan_args = read_batch_args (read_batch_lan_request p)

  unfoldable pub write_batch_dyeing_lan_args : BatchLanRequest → Bytes
  write_batch_dyeing_lan_args =
      write_batch_args (write_batch_lan_request p) (codes "ABDyeingService_BatchDyeingLan_args")

  unfoldable pub write_batch_dyeing_lan_pargs : BatchLanRequest → Bytes
  write_batch_dyeing_lan_pargs =
      write_batch_args (write_batch_lan_request p) (codes "ABDyeingService_BatchDyeingLan_pargs")

  unfoldable pub write_batch_dyeing_lan_result : Result BatchReply → Bytes
  write_batch_dyeing_lan_result =
      write_result (write_batch_reply p) (codes "ABDyeingService_BatchDyeingLan_result")

-- A client, or who else reads a result, meets numbers that are no enumerator.
module _ (p : TProtocol) (unspecified : ℕ → AbStatus) where
  unfoldable pub read_dyeing_result : Result Reply → Read (Result Reply)
  read_dyeing_result = read_result p (read_reply p unspecified)

  unfoldable pub read_dyeing_presult : Result Reply → Read (Result Reply)
  read_dyeing_presult = read_result p (read_reply p unspecified)

  unfoldable pub read_dyeing_lan_result : Result Reply → Read (Result Reply)
  read_dyeing_lan_result = read_result p (read_reply p unspecified)

  unfoldable pub read_dyeing_lan_presult : Result Reply → Read (Result Reply)
  read_dyeing_lan_presult = read_result p (read_reply p unspecified)

  unfoldable pub read_batch_dyeing_result : Result BatchReply → Read (Result BatchReply)
  read_batch_dyeing_result = read_result p (read_batch_reply p unspecified)

  unfoldable pub read_batch_dyeing_presult : Result BatchReply → Read (Result BatchReply)
  read_batch_dyeing_presult = read_result p (read_batch_reply p unspecified)

  unfoldable pub read_batch_dyeing_lan_result : Result BatchReply → Read (Result BatchReply)
  read_batch_dyeing_lan_result = read_result p (read_batch_reply p unspecified)

  unfoldable pub read_batch_dyeing_lan_presult : Result BatchReply → Read (Result BatchReply)
  read_batch_dyeing_lan_presult = read_result p (read_batch_reply p unspecified)
