-- ===== src/Proto.antt =====
-- The messages of proto/ab_dyeing.thrift, as the classes of proto/gen-cpp/ab_dyeing_types.h hold
-- them: an optional field is the field with its `__isset` flag.
pub mod Request
pub mod UidRequest
pub mod Answer
use ab_dyeing.Base.{Bool, false, List, [], Bytes}

pub data AbStatus : Type 0 where
  rc_status_ok rc_server_error rc_server_fault rc_unknow_error : AbStatus

pub record DyeingRequest : Type 0 where
  pub app : Bytes
  pub app_ver : Bytes
  pub types : List Bytes

pub record DyeingLanRequest : Type 0 where
  pub app : Bytes
  pub app_ver : Bytes
  pub app_lan : Bytes
  pub types : List Bytes

pub record UidReqInfo : Type 0 where
  pub uid : Bytes
  pub uid_info : DyeingRequest

pub record UidLanReqInfo : Type 0 where
  pub uid : Bytes
  pub uid_lan_info : DyeingLanRequest

pub record Entry : Type 0 where
  pub type : Bytes
  pub config_id : Bytes

-- `ABDyeingUidReqInfo()`.
abbrev pub new_uid_req_info : UidReqInfo
new_uid_req_info = record { uid = []; uid_info = record { app = []; app_ver = []; types = [] } }

-- `ABDyeingUidLanReqInfo()`.
abbrev pub new_uid_lan_req_info : UidLanReqInfo
new_uid_lan_req_info = record {
  uid = [];
  uid_lan_info = record { app = []; app_ver = []; app_lan = []; types = [] };
}

-- `ABDyeingEntry()`.
abbrev pub new_entry : Entry
new_entry = record { type = []; config_id = [] }

-- A batch has a single field, and stands for it.
abbrev pub BatchRequest : Type 0
BatchRequest = List UidReqInfo

abbrev pub BatchLanRequest : Type 0
BatchLanRequest = List UidLanReqInfo

pub record Reply : Type 0 where
  pub status : AbStatus
  pub entries : List Entry
  pub isset_entries : Bool

-- `ABDyeingReply()`.
abbrev pub new_reply : Reply
new_reply = record { status = rc_status_ok; entries = []; isset_entries = false }

pub record UidRepInfo : Type 0 where
  pub uid : Bytes
  pub uid_rep : Reply

-- `ABDyeingUidRepInfo()`.
abbrev pub new_uid_rep_info : UidRepInfo
new_uid_rep_info = record { uid = []; uid_rep = new_reply }

pub record BatchReply : Type 0 where
  pub status : AbStatus
  pub uid_rep_infos : List UidRepInfo
  pub isset_uid_rep_infos : Bool

-- `ABDyeingBatchReply()`.
abbrev pub new_batch_reply : BatchReply
new_batch_reply = record { status = rc_status_ok; uid_rep_infos = []; isset_uid_rep_infos = false }
