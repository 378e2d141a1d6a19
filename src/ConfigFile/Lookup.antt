-- ===== src/ConfigFile/Lookup.antt =====
-- `INV_ConfigDomain::parseDomainName`, `INV_Config::get` and `getDomainLine` of
-- common/inutil/inv_config.cpp.
pub mod Path
pub mod Last
use ab_dyeing.Base.{
  ℕ, ◌+◌, ◌-◌, ◌%◌, ◌^◌, Bool, true, false, Option, none, some, List, [], ◌∷◌, Bytes, Dict, find,
  take, drop, ◌==◌, if◌then◌else◌,
}
use ab_dyeing.Outcome.{Outcome, done, throws, config_exception, ◌>>=◌}
use ab_dyeing.Util.Sepstr.{index_of, sepstr}
use ab_dyeing.ConfigFile.{Params}
use ab_dyeing.ConfigFile.Tree.{Domain, get_params, get_line, find_at}

pub record DomainPath : Type 0 where
  pub domains : List Bytes
  pub param : Bytes

abbrev pub found_at : Option ℕ → Outcome ℕ
found_at none = throws config_exception
found_at (some i) = done i

-- `path[0] != '/'`; an empty path has the zero byte there.
abbrev pub check_root : Bytes → Outcome (Unit {0})
check_root [] = throws config_exception
check_root (c ∷ s) = if c == b'/' then done tt else throws config_exception

-- `parseDomainName(path, true)`; the length of the parameter wraps at 64 bits.
unfoldable pub parse_param_path : Bytes → Outcome DomainPath
unfolding index_of sepstr
parse_param_path path = do
  pos1 ← found_at (index_of (b'[' ∷ []) path)
  root ← check_root path
  pos2 ← found_at (index_of (b']' ∷ []) path)
  done (record {
    domains = sepstr (take (pos1 - 1) (drop 1 path)) (b'/' ∷ []) false;
    param = take ((pos2 + 2 ^ 64 - pos1 - 1) % 2 ^ 64) (drop (pos1 + 1) path);
  })

-- `parseDomainName(path, false)`.
unfoldable pub parse_domain_path : Bytes → Outcome (List Bytes)
unfolding sepstr
parse_domain_path path = do root ← check_root path; done (sepstr (drop 1 path) (b'/' ∷ []) false)

abbrev pub or_default : Bytes → Option Bytes → Bytes
or_default v none = v
or_default v (some s) = s

-- `getParamValue`, and a null pointer, with the default of `get` where either throws.
abbrev pub param_of : Bytes → Option Domain → Bytes
param_of name none = []
param_of name (some d) = or_default [] (find name ((get_params d).param))

-- `get(sName)` with the default value "".
unfoldable pub get : Domain → Bytes → Outcome Bytes
unfolding parse_param_path find_at find
get root path = do dp ← parse_param_path path; done (param_of dp.param (find_at dp.domains root))

abbrev pub lines_of : Option Domain → List Bytes
lines_of none = []
lines_of (some d) = get_line d

-- `getDomainLine`.
unfoldable pub get_domain_line : Domain → Bytes → Outcome (List Bytes)
unfolding parse_domain_path find_at
get_domain_line root path = do
  domains ← parse_domain_path path
  done (lines_of (find_at domains root))
