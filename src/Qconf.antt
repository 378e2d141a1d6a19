-- ===== src/Qconf.antt =====
-- `INV_QConfig::get` of common/inutil/inv_qconfig.cpp. The QConf client library is not in the
-- repository: `qconf_get_conf` is the argument `conf`, a snapshot of the configuration service.
use ab_dyeing.Base.{Bytes, [], ◌≡◌, ◌≢◌, arith, ◌++◌, codes}
use ab_dyeing.Outcome.{Outcome, done, throws, qconfig_exception}

-- The code that `qconf_get_conf` returns, with the buffer that it fills on `QCONF_OK`.
pub data QconfReply : Type 0 where
  qconf_ok : Bytes → QconfReply
  not_found null_value failed : QconfReply

abbrev pub Qconf : Type 0
Qconf = Bytes → QconfReply

abbrev reply : Bytes → QconfReply → Outcome Bytes
reply path (qconf_ok value) = done value
reply path not_found = done []
reply path null_value = done []
reply path failed = throws (qconfig_exception path)

-- `get(path)` with the default value "".
unfoldable pub get : Qconf → Bytes → Outcome Bytes
get conf path = reply path (conf path)

-- `_prefix + "/value"`.
abbrev pub types_path : Bytes → Bytes
types_path prefix = prefix ++ codes "/value"

-- `_prefix + "/" + business_type + "/value"`.
abbrev pub full_path : Bytes → Bytes → Bytes
full_path prefix business_type = prefix ++ (codes "/" ++ (business_type ++ codes "/value"))

-- The text of a node; a node that is missing or has no value is the empty text.
abbrev pub text_of : QconfReply → Bytes
text_of (qconf_ok value) = value
text_of not_found = []
text_of null_value = []
text_of failed = []

-- The service answered for the path.
abbrev pub IsAnswered : Qconf → Bytes → Type 0
IsAnswered conf path = conf path ≢ failed

pub get-text_of :
    (conf : Qconf) (path : Bytes)
    → IsAnswered conf path
    → get conf path ≡ done (text_of (conf path))
unfolding get
get-text_of conf path h = ground arith

pub get-done : (conf : Qconf) (path v : Bytes) → get conf path ≡ done v → text_of (conf path) ≡ v
unfolding get
get-done conf path v h = ground arith
