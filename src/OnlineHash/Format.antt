-- ===== src/OnlineHash/Format.antt =====
-- The configuration text that `ParseProductPolicy` reads, written from the data:
-- `product_id|prefix:seed:conf_id,start_id,end_id:…;product_id|…`.
use ab_dyeing.Base.{
  ℕ, ◌^◌, ◌<◌, ◌≡◌, ◌≢◌, refl, ap, subst, ◌∙◌, true, some, List, [], ◌∷◌, map, Bytes, codes, Dict,
  find, put, All, arith,
}
use ab_dyeing.Util.Sepstr.{sepstr}
use ab_dyeing.Util.Sepstr.Join.{join, Lacks, sepstr-join, join-Lacks}
use ab_dyeing.Util.Decimal.{show}
use ab_dyeing.Util.Decimal.RoundTrip.{IsDigit, show-Digits, Digits-All, atoi_u32-show}
use ab_dyeing.WhiteList.{or_empty}
use ab_dyeing.OnlineHash.{
  ConfIdInfo, Policy, Online, parse_conf_id_info, parse_conf_id_infos, parse_policy, parse_product,
  parse_products, parse_product_policy,
}

abbrev pub info_text : ConfIdInfo → Bytes
info_text i = join b',' (i.conf_id ∷ show i.start_id ∷ show i.end_id ∷ [])

abbrev pub policy_text : Policy → Bytes
policy_text p = join b':' (p.prefix ∷ show p.seed ∷ map info_text p.conf_id_infos)

abbrev pub product_text : Bytes × Policy → Bytes
product_text (product_id, p) = join b'|' (product_id ∷ policy_text p ∷ [])

abbrev pub products_text : List (Bytes × Policy) → Bytes
products_text ps = join b';' (map product_text ps)

-- A name that holds none of the four separators.
pub record IsPlain (s : Bytes) : Type 0 where
  pub comma : Lacks b',' s
  pub colon : Lacks b':' s
  pub bar : Lacks b'|' s
  pub semicolon : Lacks b';' s

pub record IsPlainInfo (i : ConfIdInfo) : Type 0 where
  pub conf_id : IsPlain i.conf_id
  pub start_id : i.start_id < 2 ^ 32
  pub end_id : i.end_id < 2 ^ 32

pub record IsPlainPolicy (p : Policy) : Type 0 where
  pub prefix : IsPlain p.prefix
  pub seed : p.seed < 2 ^ 32
  pub some_info : p.conf_id_infos ≢ []
  pub infos : All IsPlainInfo p.conf_id_infos

abbrev pub IsPlainProduct : Bytes × Policy → Type 0
IsPlainProduct (product_id, p) = IsPlain product_id × IsPlainPolicy p

All-Lacks : (c : ℕ) (s : Bytes) → ¬ IsDigit c → All IsDigit s → Lacks c s
All-Lacks c [] n h = tt
All-Lacks c (d ∷ s) n h = (λ e. n (subst IsDigit e h.0), All-Lacks c s n h.1)

show-IsPlain : (n : ℕ) → IsPlain (show n)
show-IsPlain n = record {
  comma = All-Lacks b',' (show n) (λ h. omega arith) (Digits-All (show-Digits n));
  colon = All-Lacks b':' (show n) (λ h. omega arith) (Digits-All (show-Digits n));
  bar = All-Lacks b'|' (show n) (λ h. omega arith) (Digits-All (show-Digits n));
  semicolon = All-Lacks b';' (show n) (λ h. omega arith) (Digits-All (show-Digits n));
}

-- The fields of a policy, and what no field holds.
module _ (c : ℕ) (other : b',' ≢ c) (get : (s : Bytes) → IsPlain s → Lacks c s) where
  info_text-Lacks : (i : ConfIdInfo) → IsPlainInfo i → Lacks c (info_text i)
  info_text-Lacks i h =
      join-Lacks c b',' _ other
        (get _ h.conf_id, (get _ (show-IsPlain i.start_id), (get _ (show-IsPlain i.end_id), tt)))

  infos-Lacks :
      (infos : List ConfIdInfo) → All IsPlainInfo infos → All (Lacks c) (map info_text infos)
  infos-Lacks [] h = tt
  infos-Lacks (i ∷ infos) h = (info_text-Lacks i h.0, infos-Lacks infos h.1)

  fields-Lacks :
      (p : Policy)
      → IsPlainPolicy p
      → All (Lacks c) (p.prefix ∷ show p.seed ∷ map info_text p.conf_id_infos)
  fields-Lacks p h =
      (get _ h.prefix, (get _ (show-IsPlain p.seed), infos-Lacks p.conf_id_infos h.infos))

  policy_text-Lacks : b':' ≢ c → (p : Policy) → IsPlainPolicy p → Lacks c (policy_text p)
  policy_text-Lacks colon p h = join-Lacks c b':' _ colon (fields-Lacks p h)

parse_info_text :
    (i : ConfIdInfo)
    → IsPlainInfo i
    → parse_conf_id_info (sepstr (info_text i) (codes ",") true) ≡ some i
unfolding parse_conf_id_info
parse_info_text i h = rw (
  sepstr-join b',' i.conf_id (show i.start_id ∷ show i.end_id ∷ [])
      (h.conf_id.comma, ((show-IsPlain i.start_id).comma, ((show-IsPlain i.end_id).comma, tt))),
  atoi_u32-show i.start_id h.start_id,
  atoi_u32-show i.end_id h.end_id,
)

parse_info_texts :
    (infos : List ConfIdInfo)
    → All IsPlainInfo infos
    → parse_conf_id_infos (map info_text infos) ≡ infos
unfolding parse_conf_id_infos
parse_info_texts [] h = refl
parse_info_texts (i ∷ infos) h =
    rw (parse_info_text i h.0) (ap (λ is. i ∷ is) (parse_info_texts infos h.1))

parse_fields :
    (prefix : Bytes) (seed : ℕ) (infos : List ConfIdInfo)
    → seed < 2 ^ 32
    → infos ≢ []
    → All IsPlainInfo infos
    → parse_policy (prefix ∷ show seed ∷ map info_text infos)
      ≡ some (record { seed = seed; prefix = prefix; conf_id_infos = infos })
unfolding parse_policy
parse_fields prefix seed [] hs n h = absurd (n refl)
parse_fields prefix seed (i ∷ infos) hs n h =
    rw (atoi_u32-show seed hs, parse_info_texts (i ∷ infos) h)

parse_policy_text :
    (p : Policy) → IsPlainPolicy p → parse_policy (sepstr (policy_text p) (codes ":") true) ≡ some p
parse_policy_text p h =
    rw
      (sepstr-join b':' p.prefix (show p.seed ∷ map info_text p.conf_id_infos)
        (fields-Lacks b':' (omega arith) (λ s h. h.colon) p h))
      (parse_fields p.prefix p.seed p.conf_id_infos h.seed h.some_info h.infos)

parse_product_text :
    (k : Bytes) (p : Policy) (m : Dict Policy)
    → IsPlainProduct (k, p)
    → parse_product (sepstr (product_text (k, p)) (codes "|") true) m ≡ put k p m
unfolding parse_product
parse_product_text k p m h = rw (
  sepstr-join b'|' k (policy_text p ∷ [])
      (h.0.bar, (policy_text-Lacks b'|' (omega arith) (λ s h. h.bar) (omega arith) p h.1, tt)),
  parse_policy_text p h.1,
)

-- The assignments that a list of products stands for, in order.
abbrev pub put_all : List (Bytes × Policy) → Dict Policy → Dict Policy
put_all [] m = m
put_all ((k, p) ∷ ps) m = put_all ps (put k p m)

parse_product_texts :
    (ps : List (Bytes × Policy)) (m : Dict Policy)
    → All IsPlainProduct ps
    → parse_products (map product_text ps) m ≡ put_all ps m
unfolding parse_products
parse_product_texts [] m h = refl
parse_product_texts ((k, p) ∷ ps) m h =
    ap (parse_products (map product_text ps)) (parse_product_text k p m h.0)
    ∙ parse_product_texts ps (put k p m) h.1

products-Lacks :
    (ps : List (Bytes × Policy)) → All IsPlainProduct ps → All (Lacks b';') (map product_text ps)
products-Lacks [] h = tt
products-Lacks ((k, p) ∷ ps) h = (
  join-Lacks b';' b'|' _ (omega arith) (
    h.0.0.semicolon,
    (policy_text-Lacks b';' (omega arith) (λ s h. h.semicolon) (omega arith) p h.0.1, tt),
  ),
  products-Lacks ps h.1,
)

-- The text of one product or more, whose names hold no separator and whose numbers fit 32 bits,
-- is read back as those products: each replaces the policy that the type had for it, and the
-- policies of other products and types stay.
pub parse-products_text :
    (business_type : Bytes) (product : Bytes × Policy) (products : List (Bytes × Policy))
    (o : Online)
    → All IsPlainProduct (product ∷ products)
    → parse_product_policy business_type (products_text (product ∷ products)) o ≡ record o {
      policy_map =
          put business_type
            (put_all (product ∷ products) (or_empty (find business_type o.policy_map)))
            o.policy_map;
    }
unfolding parse_product_policy
parse-products_text business_type product products o h = rw (
  sepstr-join b';' (product_text product) (map product_text products)
      (products-Lacks (product ∷ products) h),
  parse_product_texts (product ∷ products) _ h,
)
