-- ===== src/WhiteList/Load.antt =====
-- What `loadConfig` of the white list returns and leaves in the plugin.
use ab_dyeing.Base.{
  ◌≡◌, ◌≢◌, ◌⊎◌, inl, inr, refl, ◌∙◌, Bool, true, false, List, [], ◌∷◌, Bytes, codes,
}
use ab_dyeing.Outcome.{done}
use ab_dyeing.Qconf.{Qconf, text_of, IsAnswered, get-text_of, types_path, full_path}
use ab_dyeing.Util.Sepstr.{sepstr}
use ab_dyeing.WhiteList.{
  WhiteList, load_pair, load_pairs, push_conf, load_internal, load_types, tmp_business_types,
  load_config,
}

abbrev pub load_one : Qconf → WhiteList → Bytes → WhiteList
load_one conf w t =
    load_pairs t (sepstr (text_of (conf (full_path w.prefix t))) (codes ";") false) w

abbrev pub load_all : Qconf → WhiteList → List Bytes → WhiteList
load_all conf w [] = w
load_all conf w (t ∷ ts) = load_all conf (load_one conf w t) ts

load_pair-prefix :
    (t : Bytes) (kv : List Bytes) (w : WhiteList) → (load_pair t kv w).prefix ≡ w.prefix
unfolding load_pair push_conf
load_pair-prefix t [] w = refl
load_pair-prefix t (k ∷ []) w = refl
load_pair-prefix t (k ∷ v ∷ []) w = refl
load_pair-prefix t (k ∷ v ∷ x ∷ kv) w = refl

load_pairs-prefix :
    (t : Bytes) (keys : List Bytes) (w : WhiteList) → (load_pairs t keys w).prefix ≡ w.prefix
unfolding load_pairs
load_pairs-prefix t [] w = refl
load_pairs-prefix t (key ∷ keys) w =
    load_pairs-prefix t keys (load_pair t (sepstr key (codes "=") false) w)
    ∙ load_pair-prefix t (sepstr key (codes "=") false) w

load_internal_lem :
    (conf : Qconf) (w : WhiteList) (t : Bytes)
    → IsAnswered conf (full_path w.prefix t)
    → load_internal conf t w ≡ done (load_one conf w t, true)
unfolding load_internal
load_internal_lem conf w t h = rw (get-text_of conf (full_path w.prefix t) h)

load_types-all :
    (conf : Qconf) (ts : List Bytes) (w : WhiteList) (rtval : Bool)
    → ((path : Bytes) → IsAnswered conf path)
    → (ts ≢ []) ⊎ (rtval ≡ true)
    → load_types conf ts w rtval ≡ done (load_all conf w ts, true)
unfolding load_types
load_types-all conf [] w rtval up (inl n) = absurd (n refl)
load_types-all conf [] w rtval up (inr e) = rw e
load_types-all conf (t ∷ ts) w rtval up _ =
    rw (load_internal_lem conf w t (up _))
      (load_types-all conf ts (load_one conf w t) true up (inr refl))

-- Where the service answers, loading for one type or more returns true, also if no node holds a
-- text: the plugin then has the users that the nodes name, and none if they are empty.
pub load_config-true :
    (conf : Qconf) (types : List Bytes) (w : WhiteList)
    → ((path : Bytes) → IsAnswered conf path)
    → tmp_business_types (text_of (conf (types_path w.prefix))) types ≢ []
    → load_config conf types w
      ≡ done
          (load_all conf w (tmp_business_types (text_of (conf (types_path w.prefix))) types), true)
unfolding load_config
load_config-true conf types w up n =
    rw (get-text_of conf (types_path w.prefix) (up _)) (load_types-all conf _ w false up (inl n))
