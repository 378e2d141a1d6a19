-- ===== src/OnlineHash/Usable.antt =====
-- A policy with no interval: how it comes about, and what a lookup in it does.
use ab_dyeing.Base.{
  ℕ, ◌%◌, ◌≡◌, ◌≢◌, refl, true, Option, none, some, List, [], ◌∷◌, ◌++◌, Bytes, codes, Dict, find,
  All, is_empty, length, Bool-cases, Option-cases, inl, inr, arith,
}
use ab_dyeing.Outcome.{done, undefined}
use ab_dyeing.Util.Sepstr.{sepstr}
use ab_dyeing.OnlineHash.{
  ConfIdInfo, Policy, Online, max_config_id, find_conf_id, conf_id_of, config_of, config_for, get,
  parse_conf_id_info, parse_conf_id_infos, parse_policy,
}
use ab_dyeing.OnlineHash.Products.{first_policy, policy_for, get-first_policy}

-- The choice of a configuration is defined exactly where there is an interval.
pub conf_id_of-total :
    (info : ConfIdInfo) (infos : List ConfIdInfo) (hv : ℕ)
    → (id : Bytes) × (conf_id_of (info ∷ infos) hv ≡ done id)
unfolding conf_id_of
conf_id_of-total info infos hv = elim (Bool-cases (is_empty (find_conf_id (info ∷ infos) hv))) [
  | inl e ↦ (info.conf_id, rw (e, conf_id_of))
  | inr e ↦ (find_conf_id (info ∷ infos) hv, rw (e, conf_id_of))
]

abbrev pub HasIntervals : Policy → Type 0
HasIntervals p = p.conf_id_infos ≢ []

-- Every policy of the plugin has an interval.
pub record IsUsable (o : Online) : Type 0 where
  pub intervals :
      (t k : Bytes) (m : Dict Policy) (p : Policy)
      → find t o.policy_map ≡ some m
      → find k m ≡ some p
      → HasIntervals p

module _ (city_hash : Bytes → ℕ → ℕ) where
  config_of_list :
      (seed : ℕ) (prefix uid : Bytes) (infos : List ConfIdInfo)
      → infos ≢ []
      → (id : Bytes) × (config_of city_hash
            (record { seed = seed; prefix = prefix; conf_id_infos = infos })
            uid
          ≡ done id)
  unfolding config_of
  config_of_list seed prefix uid [] h = absurd (h refl)
  config_of_list seed prefix uid (info ∷ infos) h =
      let (id, e) = conf_id_of-total info infos (city_hash uid seed % max_config_id) in
      (prefix ++ id, rw e)

  config_for-total :
      (p : Option Policy) (uid : Bytes)
      → ((q : Policy) → p ≡ some q → HasIntervals q)
      → (r : Option Bytes) × (config_for city_hash p uid ≡ done r)
  config_for-total none uid h = (none, refl)
  config_for-total (some p) uid h =
      let (id, e) = config_of_list p.seed p.prefix uid p.conf_id_infos (h p refl) in (some id, rw e)

  first_policy-HasIntervals :
      (ks : List Bytes) (m : Dict Policy) (p : Policy)
      → ((k : Bytes) (q : Policy) → find k m ≡ some q → HasIntervals q)
      → first_policy ks m ≡ some p
      → HasIntervals p
  first_policy-HasIntervals [] m p h e = absurd (ground arith)
  first_policy-HasIntervals (k ∷ ks) m p h e = elim (Option-cases (find k m)) [
    | inl n ↦ first_policy-HasIntervals ks m p h (rw (n, first_policy) at e)
    | inr (q, s) ↦ h k p (ground arith)
  ]

  policy_for-HasIntervals :
      (o : Online) (t : Bytes) (ks : List Bytes) (p : Policy)
      → IsUsable o
      → policy_for (find t o.policy_map) ks ≡ some p
      → HasIntervals p
  policy_for-HasIntervals o t ks p u e = elim (Option-cases (find t o.policy_map)) [
    | inl n ↦ absurd (ground arith)
    | inr (m, s) ↦
        first_policy-HasIntervals ks m p (λ k q f. u.intervals t k m q s f)
          (rw (s, policy_for) at e)
  ]

  -- Where every policy has an interval, a lookup neither throws nor leaves defined behaviour,
  -- whatever the hash.
  pub get-total :
      (o : Online) (uid app app_ver app_lan business_type : Bytes)
      → IsUsable o
      → (r : Option Bytes) × (get city_hash o uid app app_ver app_lan business_type ≡ done r)
  get-total o uid app app_ver app_lan business_type u =
      rw get-first_policy
        (config_for-total _ uid (λ p e. policy_for-HasIntervals o business_type _ p u e))

-- The text of one interval is cut into three pieces.
abbrev pub IsTriple : Bytes → Type 0
IsTriple field = length (sepstr field (codes ",") true) ≡ 3

parse_conf_id_info-none : (ps : List Bytes) → length ps ≢ 3 → parse_conf_id_info ps ≡ none
unfolding parse_conf_id_info
parse_conf_id_info-none [] h = refl
parse_conf_id_info-none (a ∷ []) h = refl
parse_conf_id_info-none (a ∷ b ∷ []) h = refl
parse_conf_id_info-none (a ∷ b ∷ c ∷ []) h = absurd (h refl)
parse_conf_id_info-none (a ∷ b ∷ c ∷ d ∷ ps) h = refl

parse_conf_id_infos-none :
    (fields : List Bytes) → All (λ f. ¬ IsTriple f) fields → parse_conf_id_infos fields ≡ []
unfolding parse_conf_id_infos
parse_conf_id_infos-none [] h = refl
parse_conf_id_infos-none (f ∷ fs) h =
    rw (parse_conf_id_info-none (sepstr f (codes ",") true) h.0) (parse_conf_id_infos-none fs h.1)

-- A policy text of three fields or more whose intervals are all malformed is accepted, and every
-- lookup that it serves reads past the end of an empty vector.
pub malformed_intervals_undefined :
    (city_hash : Bytes → ℕ → ℕ) (prefix seed field uid : Bytes) (fields : List Bytes)
    → All (λ f. ¬ IsTriple f) (field ∷ fields)
    → config_for city_hash (parse_policy (prefix ∷ seed ∷ field ∷ fields)) uid ≡ undefined
unfolding parse_policy config_of conf_id_of find_conf_id
malformed_intervals_undefined city_hash prefix seed field uid fields h =
    rw (parse_conf_id_infos-none (field ∷ fields) h)
