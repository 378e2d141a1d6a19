-- ===== src/WhiteList.antt =====
-- `DyeingWhiteListPlugin` of src/white_list.h and src/white_list.cc.
pub mod Lookup
pub mod Load
use ab_dyeing.Base.{
  ℕ, Bool, true, false, Option, none, some, List, [], ◌∷◌, Bytes, codes, Dict, find, put, is_empty,
  if◌then◌else◌,
}
use ab_dyeing.Outcome.{Outcome, done, ◌>>=◌}
use ab_dyeing.Qconf
use ab_dyeing.Qconf.{Qconf, types_path, full_path}
use ab_dyeing.Util.Sepstr.{sepstr}

-- `map` holds the users of each business type with their configurations.
pub record WhiteList : Type 0 where
  pub prefix : Bytes
  pub map : Dict (Dict Bytes)

abbrev pub new : Bytes → WhiteList
new prefix = record { prefix = prefix; map = [] }

-- `m[k]` where the entry is made if there is none.
abbrev pub or_empty {ℓ} : {V : Type ℓ} → Option (Dict V) → Dict V
or_empty none = []
or_empty (some m) = m

unfoldable pub push_conf : Bytes → Bytes → Bytes → WhiteList → WhiteList
unfolding find put
push_conf business_type k v w = record w {
  map = put business_type (put k v (or_empty (find business_type w.map))) w.map;
}

-- One round of the loop of `loadInternal`, on the pieces of a `key=value`.
unfoldable pub load_pair : Bytes → List Bytes → WhiteList → WhiteList
unfolding push_conf
load_pair business_type (k ∷ v ∷ []) w = push_conf business_type k v w
load_pair business_type kv w = w

unfoldable pub load_pairs : Bytes → List Bytes → WhiteList → WhiteList
unfolding load_pair sepstr
load_pairs business_type [] w = w
load_pairs business_type (key ∷ keys) w =
    load_pairs business_type keys (load_pair business_type (sepstr key (codes "=") false) w)

unfoldable pub load_internal : Qconf → Bytes → WhiteList → Outcome (WhiteList × Bool)
load_internal conf business_type w = do
  qvalue ← Qconf.get conf (full_path w.prefix business_type)
  done (load_pairs business_type (sepstr qvalue (codes ";") false) w, true)

unfoldable pub load_types : Qconf → List Bytes → WhiteList → Bool → Outcome (WhiteList × Bool)
load_types conf [] w rtval = done (w, rtval)
load_types conf (t ∷ ts) w rtval = do r ← load_internal conf t w; load_types conf ts r.0 r.1

-- The types in the node, or those of the caller where the node is empty.
unfoldable pub tmp_business_types : Bytes → List Bytes → List Bytes
unfolding sepstr
tmp_business_types qvalue business_types =
    let tmp : List Bytes = if is_empty qvalue then [] else sepstr qvalue (codes "|") true in
    if is_empty tmp then business_types else tmp

unfoldable pub load_config : Qconf → List Bytes → WhiteList → Outcome (WhiteList × Bool)
load_config conf business_types w = do
  qvalue ← Qconf.get conf (types_path w.prefix)
  load_types conf (tmp_business_types qvalue business_types) w false

-- `get`: `some` with the configuration where the source returns true.
unfoldable pub get : WhiteList → Bytes → Bytes → Option Bytes
unfolding find
get w uid business_type = elim (find business_type w.map) [
  | none ↦ none
  | some users ↦ find uid users
]
