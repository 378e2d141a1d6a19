-- ===== src/OnlineHash/Products.antt =====
-- Which product's policy serves a request: the most specific key that has one.
use ab_dyeing.Base.{
  ℕ, ◌≡◌, ap, Option, none, some, List, [], ◌∷◌, ◌++◌, Bytes, codes, Dict, find, Option-cases, inl,
  inr, arith,
}
use ab_dyeing.OnlineHash.{Policy, Online, product_id, config_for, get}

-- The keys that a request may be served under, in the order of their precedence.
abbrev pub candidates : Bytes → Bytes → Bytes → List Bytes
candidates app app_ver app_lan =
    (app ++ (app_ver ++ app_lan)) ∷ (app ++ app_lan) ∷ (app ++ app_ver) ∷ app ∷ codes "default" ∷ []

-- The policy of the first key in the map.
abbrev pub first_policy : List Bytes → Dict Policy → Option Policy
first_policy [] m = none
first_policy (k ∷ ks) m = elim (find k m) [ none ↦ first_policy ks m | some p ↦ some p ]

find-product_id :
    (m : Dict Policy) (app app_ver app_lan : Bytes)
    → find (product_id m app app_ver app_lan) m ≡ first_policy (candidates app app_ver app_lan) m
unfolding product_id
find-product_id m app app_ver app_lan = ground arith

abbrev pub policy_for : Option (Dict Policy) → List Bytes → Option Policy
policy_for none keys = none
policy_for (some m) keys = first_policy keys m

-- A lookup serves the policy of the first of the five keys that the business type has, and
-- returns false exactly where the type is unknown or none of the keys has a policy.
pub get-first_policy :
    (city_hash : Bytes → ℕ → ℕ) (o : Online) (uid app app_ver app_lan business_type : Bytes)
    → get city_hash o uid app app_ver app_lan business_type
      ≡ config_for city_hash
          (policy_for (find business_type o.policy_map) (candidates app app_ver app_lan))
          uid
unfolding get
get-first_policy city_hash o uid app app_ver app_lan business_type =
    elim (Option-cases (find business_type o.policy_map)) [
      | inl e ↦ rw (e, get)
      | inr (m, e) ↦
          rw (e, get) (ap (λ p. config_for city_hash p uid) (find-product_id m app app_ver app_lan))
    ]
