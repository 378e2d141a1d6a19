-- ===== src/Service/Arguments.antt =====
-- The arguments and results of the calls: what is written is read back, and a read of any bytes
-- ends.
use ab_dyeing.Base.{ℕ, arith, true, false, Bytes, codes, ◌==◌}
use ab_dyeing.Thrift.{TType, t_string, t_struct, is_string, is_struct, TProtocol, Read, return}
use ab_dyeing.Thrift.Laws.{Reads, Consumes, IsText, IsProtocol, IsConsuming}
use ab_dyeing.Thrift.Laws.Written.{
  return-Reads, field_of-Reads, field_rounds-Reads_field, field_rounds-Reads_stop,
  read_struct-Reads,
}
use ab_dyeing.Thrift.Laws.Consumed.{
  if-Consumes, return-Consumes, skip_field-Consumes, field_of-Consumes, read_struct-Consumes,
}
use ab_dyeing.Service.{
  UserArgs, BatchArgs, Result, user_args_field, read_user_args, write_user_args, batch_args_field,
  read_batch_args, write_batch_args, result_field, read_result, write_result,
}

module _ {p : TProtocol} (c : IsConsuming p) {R : Type 0} (read_part : R → Read R)
    (ends : (r : R) → Consumes (read_part r)) where
  user_args_field-Consumes :
      (id : ℕ) (ty : TType) (a : UserArgs R) → Consumes (user_args_field p read_part id ty a)
  unfolding user_args_field
  user_args_field-Consumes id ty a =
      if-Consumes (id == 1) _ _ (field_of-Consumes c _ _ _ ty a c.string) (
        if-Consumes (id == 2) _ _ (field_of-Consumes c _ _ _ ty a (ends a.req))
          (skip_field-Consumes c ty a))

  batch_args_field-Consumes :
      (id : ℕ) (ty : TType) (a : BatchArgs R) → Consumes (batch_args_field p read_part id ty a)
  unfolding batch_args_field
  batch_args_field-Consumes id ty a =
      if-Consumes (id == 1) _ _ (field_of-Consumes c _ _ _ ty a (ends a.batch_reqs))
        (skip_field-Consumes c ty a)

  result_field-Consumes :
      (id : ℕ) (ty : TType) (a : Result R) → Consumes (result_field p read_part id ty a)
  unfolding result_field
  result_field-Consumes id ty a =
      if-Consumes (id == 0) _ _ (field_of-Consumes c _ _ _ ty a (ends a.success))
        (skip_field-Consumes c ty a)

  pub read_user_args-Consumes : (a : UserArgs R) → Consumes (read_user_args p read_part a)
  unfolding read_user_args
  read_user_args-Consumes a =
      read_struct-Consumes c (user_args_field p read_part) a return user_args_field-Consumes
        return-Consumes

  pub read_batch_args-Consumes : (a : BatchArgs R) → Consumes (read_batch_args p read_part a)
  unfolding read_batch_args
  read_batch_args-Consumes a =
      read_struct-Consumes c (batch_args_field p read_part) a return batch_args_field-Consumes
        return-Consumes

  module _ (w : IsProtocol p) (write_part : R → Bytes) (r0 r : R)
      (part : Reads (read_part r0) r (write_part r)) where
    pub read_user_args-write :
        (name uid u : Bytes)
        → IsText uid
        → Reads
            (read_user_args p read_part
              (record { uid = u; req = r0; isset_uid = false; isset_req = false }))
            (record { uid = uid; req = r; isset_uid = true; isset_req = true })
            (write_user_args p write_part name uid r)
    unfolding read_user_args write_user_args user_args_field is_string is_struct
    read_user_args-write name uid u text =
        read_struct-Reads w (user_args_field p read_part) return 3 _ name _ c
          user_args_field-Consumes
          (field_rounds-Reads_field w (user_args_field p read_part) 2 _ (codes "uid") t_string 1 _ _
            (λ e. cc) (omega arith) (field_of-Reads p _ _ t_string _ _ (w.string uid text))
            (field_rounds-Reads_field w (user_args_field p read_part) 1 _ (codes "req") t_struct 2 _
              _ (λ e. cc) (omega arith) (field_of-Reads p _ _ t_struct _ _ part)
              (field_rounds-Reads_stop w (user_args_field p read_part) 0 _)))
          (return-Reads _)

    pub read_batch_args-write :
        (name : Bytes)
        → Reads
            (read_batch_args p read_part (record { batch_reqs = r0; isset_batch_reqs = false }))
            (record { batch_reqs = r; isset_batch_reqs = true })
            (write_batch_args p write_part name r)
    unfolding read_batch_args write_batch_args batch_args_field is_struct
    read_batch_args-write name =
        read_struct-Reads w (batch_args_field p read_part) return 2 _ name _ c
          batch_args_field-Consumes
          (field_rounds-Reads_field w (batch_args_field p read_part) 1 _ (codes "batch_reqs")
            t_struct 1 _ _ (λ e. cc) (omega arith) (field_of-Reads p _ _ t_struct _ _ part)
            (field_rounds-Reads_stop w (batch_args_field p read_part) 0 _))
          (return-Reads _)

    pub read_result-write :
        (name : Bytes)
        → Reads
            (read_result p read_part (record { success = r0; isset_success = false }))
            (record { success = r; isset_success = true })
            (write_result p write_part name (record { success = r; isset_success = true }))
    unfolding read_result write_result result_field is_struct
    read_result-write name =
        read_struct-Reads w (result_field p read_part) return 2 _ name _ c result_field-Consumes
          (field_rounds-Reads_field w (result_field p read_part) 1 _ (codes "success") t_struct 0 _
            _ (λ e. cc) (omega arith) (field_of-Reads p _ _ t_struct _ _ part)
            (field_rounds-Reads_stop w (result_field p read_part) 0 _))
          (return-Reads _)
