-- ===== src/ConfigFile/Tree.antt =====
-- The tree of domains: `INV_ConfigDomain` of common/inutil/util/inv_config.h and inv_config.cpp. A
-- pointer to a domain is the path of names from the root, since a domain that is made stays where
-- it is.
pub mod Paths
pub mod Names
pub mod Found
pub mod Shaped
use ab_dyeing.Base.{
  ℕ, Bool, true, false, Option, none, some, List, [], ◌∷◌, ◌++◌, Bytes, is_empty, eqb, find,
  if◌then◌else◌,
}
use ab_dyeing.Outcome.{Outcome, done, throws, undefined, config_exception, ◌>>=◌}
use ab_dyeing.Util.Trim.{trim, blanks}
use ab_dyeing.ConfigFile.{Params, set_param_value}
use ab_dyeing.ConfigFile.Line.{read_param_line}

-- `_name`, `_param` with `_key`, `_line`, and `_subdomain` in the order of `_domain`.
mutual
  pub data Domain : Type 0 where
    domain : Bytes → Params → List Bytes → Domains → Domain

  pub data Domains : Type 0 where
    no_domains : Domains
    add_domain : Bytes → Domain → Domains → Domains

abbrev pub get_name : Domain → Bytes
get_name (domain name p ls ds) = name

abbrev pub get_params : Domain → Params
get_params (domain name p ls ds) = p

abbrev pub get_line : Domain → List Bytes
get_line (domain name p ls ds) = ls

abbrev pub get_subdomain : Domain → Domains
get_subdomain (domain name p ls ds) = ds

-- `INV_ConfigDomain(sLine)`.
unfoldable pub new_domain : Bytes → Domain
unfolding trim
new_domain line = domain (trim blanks line) (record { param = []; key = [] }) [] no_domains

unfoldable pub find_domain : Bytes → Domains → Option Domain
unfolding eqb
find_domain n no_domains = none
find_domain n (add_domain m d ds) = if eqb m n then some d else find_domain n ds

-- `_subdomain[n] = d`; a new name stands last in `_domain`.
unfoldable pub put_domain : Bytes → Domain → Domains → Domains
unfolding eqb
put_domain n d no_domains = add_domain n d no_domains
put_domain n d (add_domain m e ds) =
    if eqb m n then add_domain n d ds else add_domain m e (put_domain n d ds)

abbrev pub with_subdomain : Bytes → Domain → Domain → Domain
with_subdomain n e (domain name p ls ds) = domain name p ls (put_domain n e ds)

-- The domain that `addSubDomain` returns.
abbrev pub or_new : Bytes → Option Domain → Domain
or_new n none = new_domain n
or_new n (some d) = d

-- `addSubDomain`, the change of the domain.
unfoldable pub add_sub_domain : Bytes → Domain → Domain
unfolding find_domain put_domain new_domain
add_sub_domain n d = with_subdomain n (or_new n (find_domain n (get_subdomain d))) d

-- `setParamValue(line)`.
abbrev pub with_param : Bytes → Bytes × Bytes → Domain → Domain
with_param line (name, value) (domain n p ls ds) =
    domain n (set_param_value name value p) (ls ++ line ∷ []) ds

unfoldable pub set_param_line : Bytes → Domain → Outcome Domain
unfolding read_param_line set_param_value
set_param_line line d =
    if is_empty line then done d else (do nv ← read_param_line line; done (with_param line nv d))

-- `getSubTcConfigDomain`: the domain at a path, `none` for a null pointer.
unfoldable pub find_at : List Bytes → Domain → Option Domain
unfolding find_domain
find_at [] d = some d
find_at (n ∷ path) d = elim (find_domain n (get_subdomain d)) [
  | none ↦ none
  | some e ↦ find_at path e
]

-- A write through the pointer to the domain at a path.
unfoldable pub put_at : List Bytes → Domain → Domain → Domain
unfolding find_domain put_domain
put_at [] new d = new
put_at (n ∷ path) new d = elim (find_domain n (get_subdomain d)) [
  | none ↦ d
  | some e ↦ with_subdomain n (put_at path new e) d
]
