-- ===== src/OnlineHash/Buckets.antt =====
-- Which interval of a policy takes a bucket, and how many of the buckets each interval takes.
use ab_dyeing.Base.{
  ℕ, zero, suc, ◌+◌, ◌-◌, ◌≤◌, ◌<◌, ◌≡◌, ◌≢◌, ◌↔◌, ◌⊎◌, inl, inr, refl, sym, ap, ◌∙◌, Bool, true,
  false, ◌&&◌, List, [], ◌∷◌, ◌++◌, Bytes, All, is_empty, eqb, eqb_iff, leb, if◌then◌else◌,
  Bool-cases, arith,
}
use ab_dyeing.Outcome.{Outcome, done, throws, undefined, done-injective}
use ab_dyeing.OnlineHash.{ConfIdInfo, max_config_id, find_conf_id, conf_id_of}

-- The bucket lies in the interval, both ends included.
abbrev pub holds : ConfIdInfo → ℕ → Bool
holds info hv = leb info.start_id hv && leb hv info.end_id

-- The intervals have no bucket in common, and their configurations are not the same.
pub record Separate (info other : ConfIdInfo) : Type 0 where
  pub ids : other.conf_id ≢ info.conf_id
  pub apart : (other.end_id < info.start_id) ⊎ (info.end_id < other.start_id)

find_conf_id-miss :
    (info : ConfIdInfo) (infos : List ConfIdInfo) (hv : ℕ)
    → info.conf_id ≢ []
    → All (Separate info) infos
    → find_conf_id infos hv ≢ info.conf_id
unfolding find_conf_id
find_conf_id-miss info [] hv named sep = λ e. named (sym e)
find_conf_id-miss info (other ∷ infos) hv named sep = elim (Bool-cases (holds other hv)) [
  | inl e ↦ rw (e, find_conf_id) sep.0.ids
  | inr e ↦ rw (e, find_conf_id) (find_conf_id-miss info infos hv named sep.1)
]

find_conf_id-hit :
    (info : ConfIdInfo) (before after : List ConfIdInfo) (hv : ℕ)
    → All (Separate info) before
    → holds info hv ≡ true
    → find_conf_id (before ++ info ∷ after) hv ≡ info.conf_id
unfolding find_conf_id
find_conf_id-hit info [] after hv sep h = rw h
find_conf_id-hit info (other ∷ before) after hv sep h =
    let off : holds other hv ≡ false = other_misses sep.0.apart in
    rw off (find_conf_id-hit info before after hv sep.1 h)
  where
    other_misses :
        (other.end_id < info.start_id) ⊎ (info.end_id < other.start_id) → holds other hv ≡ false
    other_misses a = ground arith

find_conf_id-outside :
    (info : ConfIdInfo) (before after : List ConfIdInfo) (hv : ℕ)
    → info.conf_id ≢ []
    → All (Separate info) before
    → All (Separate info) after
    → holds info hv ≡ false
    → find_conf_id (before ++ info ∷ after) hv ≢ info.conf_id
unfolding find_conf_id
find_conf_id-outside info [] after hv named sb sa h =
    rw h (find_conf_id-miss info after hv named sa)
find_conf_id-outside info (other ∷ before) after hv named sb sa h =
    elim (Bool-cases (holds other hv)) [
      | inl e ↦ rw (e, find_conf_id) sb.0.ids
      | inr e ↦ rw (e, find_conf_id) (find_conf_id-outside info before after hv named sb.1 sa h)
    ]

conf_id_of-named :
    (infos : List ConfIdInfo) (hv : ℕ) (id : Bytes)
    → find_conf_id infos hv ≡ id
    → id ≢ []
    → conf_id_of infos hv ≡ done id
unfolding conf_id_of
conf_id_of-named infos hv [] e n = absurd (n refl)
conf_id_of-named infos hv (c ∷ id) e n = rw (e, conf_id_of)

-- A bucket outside the interval of `info` goes elsewhere, also by the fallback to the first.
conf_id_of-other :
    (first : ConfIdInfo) (infos : List ConfIdInfo) (hv : ℕ) (id : Bytes)
    → first.conf_id ≢ id
    → find_conf_id (first ∷ infos) hv ≢ id
    → conf_id_of (first ∷ infos) hv ≢ done id
unfolding conf_id_of
conf_id_of-other first infos hv id nf n e =
    elim (Bool-cases (is_empty (find_conf_id (first ∷ infos) hv))) [
      | inl b ↦ nf (done-injective (rw (b, conf_id_of) at e))
      | inr b ↦ n (done-injective (rw (b, conf_id_of) at e))
    ]

module _ (first info : ConfIdInfo) (before after : List ConfIdInfo) where
  -- The intervals of a policy, `info` being any but the first.
  abbrev pub infos : List ConfIdInfo
  infos = first ∷ before ++ info ∷ after

  -- Where the interval of `info`, which is not the first of its policy, shares no bucket and no
  -- configuration with the others, its configuration is chosen exactly for the buckets in it.
  pub conf_id_of_iff :
      (hv : ℕ)
      → info.conf_id ≢ []
      → Separate info first
      → All (Separate info) before
      → All (Separate info) after
      → (conf_id_of infos hv ≡ done info.conf_id) ↔ (holds info hv ≡ true)
  conf_id_of_iff hv named sf sb sa = (
    λ chosen. elim (Bool-cases (holds info hv)) [
      | inl e ↦ e
      | inr e ↦ absurd (
          conf_id_of-other first (before ++ info ∷ after) hv info.conf_id sf.ids
            (find_conf_id-outside info (first ∷ before) after hv named (sf, sb) sa e) chosen)
    ],
    λ h.
        conf_id_of-named infos hv info.conf_id
          (find_conf_id-hit info (first ∷ before) after hv (sf, sb) h) named,
  )

-- The number of buckets below `n` that pass a test.
unfoldable pub count_below : ℕ → (ℕ → Bool) → ℕ
count_below zero p = 0
count_below (suc n) p = count_below n p + (if p n then 1 else 0)

count_below-ext :
    (n : ℕ) (p q : ℕ → Bool) → ((h : ℕ) → p h ≡ q h) → count_below n p ≡ count_below n q
unfolding count_below
count_below-ext zero p q e = refl
count_below-ext (suc n) p q e = rw (count_below-ext n p q e, e n)

count_below-range :
    (n a b : ℕ)
    → a ≤ b + 1
    → count_below n (λ h. leb a h && leb h b)
      ≡ (if leb n a then 0 else (if leb n (b + 1) then n - a else b + 1 - a))
unfolding count_below
count_below-range zero a b h = ground arith
count_below-range (suc n) a b h = ground (arith, count_below-range n a b h)

-- The bucket is given the configuration `id`.
abbrev pub gives : Bytes → Outcome Bytes → Bool
gives id (done c) = eqb c id
gives id (throws e) = false
gives id undefined = false

gives_iff : (id : Bytes) (o : Outcome Bytes) → (gives id o ≡ true) ↔ (o ≡ done id)
gives_iff id (done c) =
    (λ h. ap done ((eqb_iff c id).0 h), λ e. (eqb_iff c id).1 (done-injective e))
gives_iff id (throws e) = (λ h. cc, λ h. cc)
gives_iff id undefined = (λ h. cc, λ h. cc)

Bool-ext : (a b : Bool) → (a ≡ true → b ≡ true) → (b ≡ true → a ≡ true) → a ≡ b
Bool-ext true b f g = sym (f refl)
Bool-ext false true f g = g refl
Bool-ext false false f g = refl

-- Where the interval of `info`, which is not the first of its policy, is in order, ends within the
-- buckets, has a named configuration, and shares no bucket and no configuration with the others,
-- that configuration is given exactly `end_id - start_id + 1` of the 1000 buckets.
pub share_of_buckets :
    (first info : ConfIdInfo) (before after : List ConfIdInfo)
    → info.conf_id ≢ []
    → info.start_id ≤ info.end_id
    → info.end_id < max_config_id
    → Separate info first
    → All (Separate info) before
    → All (Separate info) after
    → count_below max_config_id
        (λ hv. gives info.conf_id (conf_id_of (infos first info before after) hv))
      ≡ info.end_id - info.start_id + 1
share_of_buckets first info before after named ordered inside sf sb sa =
    count_below-ext max_config_id _ (holds info) same
    ∙ count_below-range max_config_id info.start_id info.end_id (omega arith)
    ∙ ground arith
  where
    same :
        (hv : ℕ)
        → gives info.conf_id (conf_id_of (infos first info before after) hv) ≡ holds info hv
    same hv =
        let exact = conf_id_of_iff first info before after hv named sf sb sa in
        let given = gives_iff info.conf_id (conf_id_of (infos first info before after) hv) in
        Bool-ext _ (holds info hv) (λ h. exact.0 (given.0 h)) (λ h. given.1 (exact.1 h))
