-- ===== src/Mysql.antt =====
-- The calls of `INV_Mysql` (common/inutil/util/inv_mysql.h), a wrapper of the MySQL client library,
-- which is not in the repository. A connection attempt and a query are arguments of the model.
use ab_dyeing.Base.{
  ℕ, Bool, true, false, Option, none, some, List, [], ◌++◌, Bytes, codes, Dict, find,
}
use ab_dyeing.Outcome.{Outcome, done, throws, mysql_exception, ◌>>=◌}
use ab_dyeing.Qconf
use ab_dyeing.Qconf.{Qconf}
use ab_dyeing.Util.Decimal.{atoi_u32}

-- The arguments of `INV_Mysql::init`; the port is the bit pattern of an `int32_t`.
pub record Settings : Type 0 where
  pub host : Bytes
  pub port : ℕ
  pub user : Bytes
  pub pass : Bytes
  pub db : Bytes
  pub charset : Bytes

-- A row: the fields by their names.
abbrev pub Row : Type 0
Row = Dict Bytes

-- `queryRecord` returns the rows, or throws `INV_Mysql_Exception`.
pub data QueryReply : Type 0 where
  rows : List Row → QueryReply
  query_failed : QueryReply

pub record Mysql : Type 0 where
  pub connects : Settings → Bool
  pub query : Settings → Bytes → QueryReply

-- `records[i][name]`, the empty string where the row has no such field.
abbrev pub or_blank : Option Bytes → Bytes
or_blank none = []
or_blank (some s) = s

unfoldable pub field : Bytes → Row → Bytes
unfolding find
field name row = or_blank (find name row)

-- The lines that read the settings under `_prefix`.
unfoldable pub settings : Qconf → Bytes → Outcome Settings
unfolding Qconf.get atoi_u32
settings conf prefix = do
  host ← Qconf.get conf (prefix ++ codes "/ch_host")
  port ← Qconf.get conf (prefix ++ codes "/ch_port")
  user ← Qconf.get conf (prefix ++ codes "/ch_user")
  pass ← Qconf.get conf (prefix ++ codes "/ch_pass")
  db ← Qconf.get conf (prefix ++ codes "/ch_db")
  charset ← Qconf.get conf (prefix ++ codes "/ch_charset")
  done (record {
    host = host;
    port = atoi_u32 port;
    user = user;
    pass = pass;
    db = db;
    charset = charset;
  })

abbrev connected : Settings → Bool → Outcome Settings
connected s true = done s
connected s false = throws mysql_exception

-- `_db.init(…)` and `_db.connect()`, which stands outside the `try` of its callers.
unfoldable pub connect : Qconf → Mysql → Bytes → Outcome Settings
unfolding settings
connect conf mysql prefix = do s ← settings conf prefix; connected s (mysql.connects s)
