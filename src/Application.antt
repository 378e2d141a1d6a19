-- ===== src/Application.antt =====
-- `INVApplication::start` of common/inutil/util/inv_application.h, which src/main.cc calls: from the
-- command line and the configuration file to a handler that can serve. The server's sockets and
-- threads are Thrift's.
pub mod Chosen
pub mod Started
pub mod Serving
pub mod Remote
use ab_dyeing.Base.{
  ℕ, Bool, true, false, Option, none, some, List, [], ◌∷◌, Bytes, codes, is_empty, if◌then◌else◌,
}
use ab_dyeing.Outcome.{Outcome, done, throws, undefined, process_exit, ◌>>=◌}
use ab_dyeing.Argv
use ab_dyeing.Argv.{Argv, get_value}
use ab_dyeing.Util.Decimal.{atoi_u32}
use ab_dyeing.ConfigFile.Tree.{Domain}
use ab_dyeing.ConfigFile.Reader.{parse_file}
use ab_dyeing.ConfigFile.Lookup.{get}
use ab_dyeing.Qconf.{Qconf}
use ab_dyeing.Mysql.{Mysql}
use ab_dyeing.Logic.{Config}
use ab_dyeing.Handler.{Handler}
use ab_dyeing.Handler.Start.{start}

-- The number that the socket is bound to, that of the worker threads, and the level of the log.
pub record ServerSettings : Type 0 where
  pub port : ℕ
  pub thread_num : ℕ
  pub log_level : Bytes

-- What the file says, else what the command line says; `usage`, which exits, where neither does.
abbrev pub or_usage : Bytes → Outcome Bytes
or_usage [] = throws process_exit
or_usage (c ∷ s) = done (c ∷ s)

abbrev pub file_or_argument : Bytes → Bytes → Outcome Bytes
file_or_argument [] argument = or_usage argument
file_or_argument (c ∷ s) argument = done (c ∷ s)

abbrev pub or_debug : Bytes → Bytes
or_debug s = if is_empty s then codes "DEBUG" else s

unfoldable pub read_settings : Argv → Domain → Outcome ServerSettings
read_settings ag root = do
  file_port ← get root (codes "/main/[port]")
  port ← file_or_argument file_port (get_value (codes "port") ag)
  file_threads ← get root (codes "/main/[threadnum]")
  threads ← file_or_argument file_threads (get_value (codes "threadnum") ag)
  level ← get root (codes "/main/[loglevel]")
  done (record { port = atoi_u32 port; thread_num = atoi_u32 threads; log_level = or_debug level })

-- `conf.get` in the handler, whose paths are literals that have the form that `get` asks for.
abbrev pub got : Outcome Bytes → Bytes
got (done s) = s
got (throws e) = []
got undefined = []

abbrev pub config_at : Domain → Config
config_at root = λ path. got (get root path)

-- `conf.parseFile(conf_path)` of the handler's `init`, which reads the file again.
unfoldable pub handler_config : (Bytes → Option Bytes) → Bytes → Outcome Config
handler_config files path = do root ← parse_file files path; done (config_at root)

-- `start`, from `main`; `files` are the files, `tids` the threads that the factory makes.
unfoldable pub run :
    List Bytes
    → (Bytes → Option Bytes)
    → Qconf
    → Mysql
    → ℕ
    → (ℕ → ℕ)
    → List ℕ
    → Outcome (ServerSettings × Handler)
run argv files qconf mysql now clock tids = do
  let ag = Argv.decode argv (record { param = []; single = [] })
  path ← or_usage (get_value (codes "config") ag)
  root ← parse_file files path
  settings ← read_settings ag root
  handler ← start (handler_config files path) qconf mysql now clock tids
  done (settings, handler)
