-- ===== src/WhiteList/Lookup.antt =====
-- What a lookup finds after configurations are pushed and texts are loaded.
use ab_dyeing.Base.{
  ◌≡◌, ◌≢◌, refl, ap, ◌∙◌, true, false, ◌&&◌, Option, none, some, List, [], ◌∷◌, map, Bytes, codes,
  Dict, find, put, find-put, eqb, eqb_iff, All, if◌then◌else◌, arith,
}
use ab_dyeing.Outcome.{done}
use ab_dyeing.Qconf
use ab_dyeing.Qconf.{Qconf, qconf_ok, full_path}
use ab_dyeing.Util.Sepstr.{sepstr}
use ab_dyeing.Util.Sepstr.Join.{join, Lacks, sepstr-join_filled, join-Lacks, join-ne-nil}
use ab_dyeing.WhiteList.{WhiteList, or_empty, push_conf, load_pair, load_pairs, load_internal, get}

abbrev find_in : Option (Dict Bytes) → Bytes → Option Bytes
find_in none uid = none
find_in (some users) uid = find uid users

find-or_empty : (o : Option (Dict Bytes)) (uid : Bytes) → find uid (or_empty o) ≡ find_in o uid
unfolding find
find-or_empty none uid = refl
find-or_empty (some users) uid = refl

-- A pushed configuration is found for its type and user, and nothing else changes.
pub get-push_conf :
    (business_type k v uid t : Bytes) (w : WhiteList)
    → get (push_conf business_type k v w) uid t
      ≡ (if eqb business_type t && eqb k uid then some v else get w uid t)
get-push_conf business_type k v uid t w =
    unfold get push_conf in
    ground (
      arith,
      find-put business_type t (put k v (or_empty (find business_type w.map))) w.map,
      find-put k uid v (or_empty (find business_type w.map)),
      find-or_empty (find business_type w.map) uid,
      eqb_iff business_type t,
    )

-- The text of a white list: `user=configuration;user=configuration`.
abbrev pub pair_text : Bytes × Bytes → Bytes
pair_text (k, v) = join b'=' (k ∷ v ∷ [])

abbrev pub pairs_text : List (Bytes × Bytes) → Bytes
pairs_text ps = join b';' (map pair_text ps)

pub record IsWord (s : Bytes) : Type 0 where
  pub filled : s ≢ []
  pub equals : Lacks b'=' s
  pub semicolon : Lacks b';' s

abbrev pub IsWordPair : Bytes × Bytes → Type 0
IsWordPair (k, v) = IsWord k × IsWord v

-- The configuration of the last pair that names the user, if there is one.
abbrev pub last_value : Bytes → List (Bytes × Bytes) → Option Bytes → Option Bytes
last_value uid [] old = old
last_value uid ((k, v) ∷ ps) old = last_value uid ps (if eqb k uid then some v else old)

load_pair_text :
    (t k v : Bytes) (w : WhiteList)
    → IsWordPair (k, v)
    → load_pair t (sepstr (pair_text (k, v)) (codes "=") false) w ≡ push_conf t k v w
unfolding load_pair
load_pair_text t k v w h = rw (
    sepstr-join_filled b'=' k (v ∷ []) (h.0.equals, (h.1.equals, tt))
      (h.0.filled, (h.1.filled, tt)))

get-load_pairs :
    (business_type uid t : Bytes) (ps : List (Bytes × Bytes)) (w : WhiteList)
    → All IsWordPair ps
    → get (load_pairs business_type (map pair_text ps) w) uid t
      ≡ (if eqb business_type t then last_value uid ps (get w uid t) else get w uid t)
unfolding load_pairs
get-load_pairs business_type uid t [] w h = ground arith
get-load_pairs business_type uid t ((k, v) ∷ ps) w h =
    ap (λ w'. get (load_pairs business_type (map pair_text ps) w') uid t)
      (load_pair_text business_type k v w h.0)
    ∙ get-load_pairs business_type uid t ps (push_conf business_type k v w) h.1
    ∙ rw get-push_conf (ground arith)

pairs-Lacks : (ps : List (Bytes × Bytes)) → All IsWordPair ps → All (Lacks b';') (map pair_text ps)
pairs-Lacks [] h = tt
pairs-Lacks ((k, v) ∷ ps) h = (
  join-Lacks b';' b'=' _ (omega arith) (h.0.0.semicolon, (h.0.1.semicolon, tt)),
  pairs-Lacks ps h.1,
)

pairs_filled :
    (ps : List (Bytes × Bytes)) → All IsWordPair ps → All (λ q. q ≢ []) (map pair_text ps)
pairs_filled [] h = tt
pairs_filled ((k, v) ∷ ps) h = (join-ne-nil b'=' k (v ∷ []) h.0.0.filled, pairs_filled ps h.1)

-- Loading the text of one pair or more, whose words are not empty and hold no separator, returns
-- true; then each user of the business type has the configuration of the last pair that names it,
-- or what it had before if none does, and the other types are as before.
pub load-pairs_text :
    (conf : Qconf) (business_type : Bytes) (p : Bytes × Bytes) (ps : List (Bytes × Bytes))
    (w : WhiteList)
    → conf (full_path w.prefix business_type) ≡ qconf_ok (pairs_text (p ∷ ps))
    → All IsWordPair (p ∷ ps)
    → (w' : WhiteList) × (load_internal conf business_type w ≡ done (w', true))
      × ((uid t : Bytes)
          → get w' uid t
            ≡ (if eqb business_type t then last_value uid (p ∷ ps) (get w uid t) else get w uid t))
unfolding load_internal Qconf.get
load-pairs_text conf business_type p ps w node h = (
  load_pairs business_type (map pair_text (p ∷ ps)) w,
  rw (
    node,
    sepstr-join_filled b';' (pair_text p) (map pair_text ps) (pairs-Lacks (p ∷ ps) h)
        (pairs_filled (p ∷ ps) h),
  ),
  λ uid t. get-load_pairs business_type uid t (p ∷ ps) w h,
)
