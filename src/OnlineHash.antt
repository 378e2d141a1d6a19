-- ===== src/OnlineHash.antt =====
-- `DyeingOnlinePlugin` of src/online_hash.h and src/online_hash.cc. `CityHash64WithSeed` is not in
-- the repository: it is the argument `city_hash`, on the bytes of the uid and the seed.
pub mod Buckets
pub mod Products
pub mod Format
pub mod Usable
pub mod Load
use ab_dyeing.Base.{
  ℕ, ◌%◌, Bool, true, false, ◌&&◌, Option, none, some, List, [], ◌∷◌, ◌++◌, Bytes, codes, Dict,
  find, put, has, is_empty, leb, if◌then◌else◌,
}
use ab_dyeing.Outcome.{Outcome, done, undefined, ◌>>=◌}
use ab_dyeing.Qconf
use ab_dyeing.Qconf.{Qconf, types_path, full_path}
use ab_dyeing.Util.Sepstr.{sepstr}
use ab_dyeing.Util.Decimal.{atoi_u32}
use ab_dyeing.WhiteList.{or_empty, tmp_business_types}

pub record ConfIdInfo : Type 0 where
  pub conf_id : Bytes
  pub start_id : ℕ
  pub end_id : ℕ

pub record Policy : Type 0 where
  pub seed : ℕ
  pub prefix : Bytes
  pub conf_id_infos : List ConfIdInfo

pub record Online : Type 0 where
  pub prefix : Bytes
  pub policy_map : Dict (Dict Policy)

abbrev pub new : Bytes → Online
new prefix = record { prefix = prefix; policy_map = [] }

-- The pieces of one `conf_id,start_id,end_id`; any other number of pieces is skipped.
unfoldable pub parse_conf_id_info : List Bytes → Option ConfIdInfo
unfolding atoi_u32
parse_conf_id_info (conf_id ∷ start ∷ stop ∷ []) =
    some (record { conf_id = conf_id; start_id = atoi_u32 start; end_id = atoi_u32 stop })
parse_conf_id_info _ = none

abbrev cons_some {ℓ} : {A : Type ℓ} → Option A → List A → List A
cons_some none xs = xs
cons_some (some x) xs = x ∷ xs

-- The loop over the fields from the third on.
unfoldable pub parse_conf_id_infos : List Bytes → List ConfIdInfo
unfolding parse_conf_id_info sepstr
parse_conf_id_infos [] = []
parse_conf_id_infos (field ∷ fields) =
    cons_some (parse_conf_id_info (sepstr field (codes ",") true)) (parse_conf_id_infos fields)

-- `prefix:seed:info:…`, three fields at least.
unfoldable pub parse_policy : List Bytes → Option Policy
unfolding parse_conf_id_infos
parse_policy (prefix ∷ seed ∷ field ∷ fields) = some (record {
  seed = atoi_u32 seed;
  prefix = prefix;
  conf_id_infos = parse_conf_id_infos (field ∷ fields);
})
parse_policy _ = none

abbrev put_some {ℓ} : {V : Type ℓ} → Bytes → Option V → Dict V → Dict V
put_some k none m = m
put_some k (some v) m = put k v m

-- One round of the loop of `ParseProductPolicy`, on the pieces of a `product_id|policy`.
unfoldable pub parse_product : List Bytes → Dict Policy → Dict Policy
unfolding parse_policy put
parse_product (product_id ∷ policy ∷ []) m =
    put_some product_id (parse_policy (sepstr policy (codes ":") true)) m
parse_product _ m = m

unfoldable pub parse_products : List Bytes → Dict Policy → Dict Policy
unfolding parse_product
parse_products [] m = m
parse_products (product ∷ products) m =
    parse_products products (parse_product (sepstr product (codes "|") true) m)

-- Policies that the map holds already under the type stay, and are replaced product by product.
unfoldable pub parse_product_policy : Bytes → Bytes → Online → Online
unfolding parse_products find
parse_product_policy business_type product_conf o = record o {
  policy_map =
      put business_type
        (parse_products (sepstr product_conf (codes ";") true)
          (or_empty (find business_type o.policy_map)))
        o.policy_map;
}

unfoldable pub load_internal : Qconf → Bytes → Online → Outcome (Online × Bool)
load_internal conf business_type o = do
  product_conf ← Qconf.get conf (full_path o.prefix business_type)
  done (
      if is_empty product_conf
      then (o, false)
      else (parse_product_policy business_type product_conf o, true))

unfoldable pub load_types : Qconf → List Bytes → Online → Bool → Outcome (Online × Bool)
load_types conf [] o rtval = done (o, rtval)
load_types conf (t ∷ ts) o rtval = do r ← load_internal conf t o; load_types conf ts r.0 r.1

unfoldable pub load_config : Qconf → List Bytes → Online → Outcome (Online × Bool)
load_config conf business_types o = do
  qvalue ← Qconf.get conf (types_path o.prefix)
  load_types conf (tmp_business_types qvalue business_types) o false

-- The product whose policy is taken: the first of these keys that has one, else "default".
unfoldable pub product_id : Dict Policy → Bytes → Bytes → Bytes → Bytes
unfolding find
product_id m app app_ver app_lan =
    if has (app ++ (app_ver ++ app_lan)) m
    then app ++ (app_ver ++ app_lan)
    else if has (app ++ app_lan) m
    then app ++ app_lan
    else if has (app ++ app_ver) m
    then app ++ app_ver
    else if has app m
    then app
    else codes "default"

abbrev pub max_config_id : ℕ
max_config_id = 1000

-- The loop over the intervals, which stops at the first that holds `hv`.
unfoldable pub find_conf_id : List ConfIdInfo → ℕ → Bytes
find_conf_id [] hv = []
find_conf_id (info ∷ infos) hv =
    if leb info.start_id hv && leb hv info.end_id then info.conf_id else find_conf_id infos hv

-- `conf_id_infos[0].conf_id`, which is out of range where there is no interval.
abbrev first_conf_id : List ConfIdInfo → Outcome Bytes
first_conf_id [] = undefined
first_conf_id (info ∷ infos) = done info.conf_id

unfoldable pub conf_id_of : List ConfIdInfo → ℕ → Outcome Bytes
unfolding find_conf_id
conf_id_of infos hv =
    let conf_id = find_conf_id infos hv in
    if is_empty conf_id then first_conf_id infos else done conf_id

module _ (city_hash : Bytes → ℕ → ℕ) where
  unfoldable pub config_of : Policy → Bytes → Outcome Bytes
  unfolding conf_id_of
  config_of policy uid = do
    conf_id ← conf_id_of policy.conf_id_infos (city_hash uid policy.seed % max_config_id)
    done (policy.prefix ++ conf_id)

  abbrev pub config_for : Option Policy → Bytes → Outcome (Option Bytes)
  config_for none uid = done none
  config_for (some policy) uid = do config_id ← config_of policy uid; done (some config_id)

  abbrev get_in : Option (Dict Policy) → Bytes → Bytes → Bytes → Bytes → Outcome (Option Bytes)
  get_in none uid app app_ver app_lan = done none
  get_in (some m) uid app app_ver app_lan =
      config_for (find (product_id m app app_ver app_lan) m) uid

  -- `get`: `none` where the source returns false.
  unfoldable pub get : Online → Bytes → Bytes → Bytes → Bytes → Bytes → Outcome (Option Bytes)
  unfolding config_of find product_id
  get o uid app app_ver app_lan business_type =
      get_in (find business_type o.policy_map) uid app app_ver app_lan
