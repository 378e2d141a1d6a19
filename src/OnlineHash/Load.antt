-- ===== src/OnlineHash/Load.antt =====
-- What `loadConfig` returns and leaves in the plugin.
use ab_dyeing.Base.{
  ◌≡◌, refl, subst, ◌∙◌, Bool, true, false, not, some, List, [], ◌∷◌, ◌++◌, Bytes, codes, Dict,
  find, put, find-put, All, is_empty, eqb, if◌then◌else◌, Bool-cases, Option-cases, inl, inr, arith,
}
use ab_dyeing.Outcome.{done, >>=-eq-done}
use ab_dyeing.Qconf
use ab_dyeing.Qconf.{Qconf, text_of, IsAnswered, get-text_of, get-done, types_path, full_path}
use ab_dyeing.Util.Sepstr.{sepstr}
use ab_dyeing.WhiteList.{or_empty, tmp_business_types}
use ab_dyeing.OnlineHash.{
  Policy, Online, new, parse_policy, parse_product, parse_products, parse_product_policy,
  load_internal, load_types, load_config,
}
use ab_dyeing.OnlineHash.Usable.{HasIntervals, IsUsable}

-- The policies of one type are read if its node has a text.
abbrev pub load_one : Qconf → Online → Bytes → Online
load_one conf o t =
    let text = text_of (conf (full_path o.prefix t)) in
    if is_empty text then o else parse_product_policy t text o

abbrev pub load_all : Qconf → Online → List Bytes → Online
load_all conf o [] = o
load_all conf o (t ∷ ts) = load_all conf (load_one conf o t) ts

load_one-prefix : (conf : Qconf) (o : Online) (t : Bytes) → (load_one conf o t).prefix ≡ o.prefix
unfolding parse_product_policy
load_one-prefix conf o t = ground arith

load_internal_lem :
    (conf : Qconf) (o : Online) (t : Bytes)
    → IsAnswered conf (full_path o.prefix t)
    → load_internal conf t o
      ≡ done (load_one conf o t, not (is_empty (text_of (conf (full_path o.prefix t)))))
unfolding load_internal
load_internal_lem conf o t h =
    rw (get-text_of conf (full_path o.prefix t) h)
      (elim (Bool-cases (is_empty (text_of (conf (full_path o.prefix t))))) [
        | inl e ↦ rw e
        | inr e ↦ rw e
      ])

load_types-all :
    (conf : Qconf) (prefix : Bytes) (ts : List Bytes) (t : Bytes) (o : Online) (rtval : Bool)
    → o.prefix ≡ prefix
    → All (λ t. IsAnswered conf (full_path prefix t)) (ts ++ t ∷ [])
    → load_types conf (ts ++ t ∷ []) o rtval
      ≡ done (load_all conf o (ts ++ t ∷ []), not (is_empty (text_of (conf (full_path prefix t)))))
unfolding load_types
load_types-all conf prefix [] t o rtval e h = rw (← e) (rw (load_internal_lem conf o t (rw e h.0)))
load_types-all conf prefix (s ∷ ts) t o rtval e h =
    rw (load_internal_lem conf o s (rw e h.0))
      (load_types-all conf prefix ts t (load_one conf o s) _ (load_one-prefix conf o s ∙ e) h.1)

-- Where the service answers for the paths that are read, and there is a type, loading returns true
-- exactly if the node of the last type has a text, whatever the nodes of the other types hold, and
-- the policies are those of all the types whose nodes have a text.
pub load_config-last :
    (conf : Qconf) (types ts : List Bytes) (t : Bytes) (o : Online)
    → IsAnswered conf (types_path o.prefix)
    → tmp_business_types (text_of (conf (types_path o.prefix))) types ≡ ts ++ t ∷ []
    → All (λ t. IsAnswered conf (full_path o.prefix t)) (ts ++ t ∷ [])
    → load_config conf types o
      ≡ done
          (load_all conf o (ts ++ t ∷ []), not (is_empty (text_of (conf (full_path o.prefix t)))))
unfolding load_config
load_config-last conf types ts t o answered e h =
    rw (get-text_of conf (types_path o.prefix) answered, e)
      (load_types-all conf o.prefix ts t o false refl h)

-- A policy that the fields are read as has an interval.
abbrev pub IsGoodPolicy : List Bytes → Type 0
IsGoodPolicy fields = (p : Policy) → parse_policy fields ≡ some p → HasIntervals p

abbrev IsGoodPieces : List Bytes → Type 0
IsGoodPieces (product_id ∷ policy ∷ []) = IsGoodPolicy (sepstr policy (codes ":") true)
IsGoodPieces _ = Unit

-- Each product of the text that is not skipped has an interval.
abbrev pub IsGoodText : Bytes → Type 0
IsGoodText text = All (λ p. IsGoodPieces (sepstr p (codes "|") true)) (sepstr text (codes ";") true)

abbrev IsUsableMap : Dict Policy → Type 0
IsUsableMap m = (k : Bytes) (p : Policy) → find k m ≡ some p → HasIntervals p

parse_product-IsUsableMap :
    (pieces : List Bytes) (m : Dict Policy)
    → IsGoodPieces pieces
    → IsUsableMap m
    → IsUsableMap (parse_product pieces m)
unfolding parse_product
parse_product-IsUsableMap [] m g u = u
parse_product-IsUsableMap (a ∷ []) m g u = u
parse_product-IsUsableMap (a ∷ b ∷ c ∷ ps) m g u = u
parse_product-IsUsableMap (id ∷ policy ∷ []) m g u =
    elim (Option-cases (parse_policy (sepstr policy (codes ":") true))) [
      | inl e ↦ rw e u
      | inr (q, e) ↦ rw e (put_usable q (g q e))
    ]
  where
    put_usable : (q : Policy) → HasIntervals q → IsUsableMap (put id q m)
    put_usable q good k p f = elim (Bool-cases (eqb id k)) [
      | inl same ↦
          let e : some q ≡ some p = ground (arith, find-put id k q m) in
          let e' : q ≡ p = cc in rw (← e') good
      | inr other ↦ u k p (ground (arith, find-put id k q m))
    ]

parse_products-IsUsableMap :
    (ps : List Bytes) (m : Dict Policy)
    → All (λ p. IsGoodPieces (sepstr p (codes "|") true)) ps
    → IsUsableMap m
    → IsUsableMap (parse_products ps m)
unfolding parse_products
parse_products-IsUsableMap [] m g u = u
parse_products-IsUsableMap (p ∷ ps) m g u =
    parse_products-IsUsableMap ps _ g.1 (parse_product-IsUsableMap _ m g.0 u)

or_empty-IsUsableMap :
    (o : Online) (t : Bytes) → IsUsable o → IsUsableMap (or_empty (find t o.policy_map))
or_empty-IsUsableMap o t u k p e = elim (Option-cases (find t o.policy_map)) [
  | inl n ↦ absurd (nothing (rw (n, or_empty) at e))
  | inr (m, f) ↦ u.intervals t k m p f (rw (f, or_empty) at e)
]
  where
    nothing : find k [] ≡ some p → ⊥
    nothing h = unfold find in cc h

parse_product_policy-IsUsable :
    (t text : Bytes) (o : Online)
    → IsGoodText text
    → IsUsable o
    → IsUsable (parse_product_policy t text o)
unfolding parse_product_policy
parse_product_policy-IsUsable t text o g u = record {
  intervals = λ s k m p e f. elim (Bool-cases (eqb t s)) [
    | inl same ↦
        parse_products-IsUsableMap (sepstr text (codes ";") true) _ g (or_empty-IsUsableMap o t u) k
          p (let e' = rw (find-put, same) at e in ground arith)
    | inr other ↦ u.intervals s k m p (rw (find-put, other) at e) f
  ];
}

load_one-IsUsable :
    (conf : Qconf) (o : Online) (t : Bytes)
    → IsGoodText (text_of (conf (full_path o.prefix t)))
    → IsUsable o
    → IsUsable (load_one conf o t)
load_one-IsUsable conf o t g u =
    elim (Bool-cases (is_empty (text_of (conf (full_path o.prefix t))))) [
      | inl e ↦ rw e u
      | inr e ↦ rw e (parse_product_policy-IsUsable t _ o g u)
    ]

load_internal-done :
    (conf : Qconf) (t : Bytes) (o : Online) (r : Online × Bool)
    → load_internal conf t o ≡ done r
    → r.0 ≡ load_one conf o t
unfolding load_internal
load_internal-done conf t o r h =
    let (text, got, rest) = >>=-eq-done (Qconf.get conf (full_path o.prefix t)) _ h in
    rw (get-done conf (full_path o.prefix t) text got) (ground arith)

load_types-IsUsable :
    (conf : Qconf) (prefix : Bytes) (ts : List Bytes) (o : Online) (rtval : Bool)
    (r : Online × Bool)
    → o.prefix ≡ prefix
    → ((t : Bytes) → IsGoodText (text_of (conf (full_path prefix t))))
    → IsUsable o
    → load_types conf ts o rtval ≡ done r
    → IsUsable r.0
unfolding load_types
load_types-IsUsable conf prefix [] o rtval r e g u h =
    let same : o ≡ r.0 = cc h in subst IsUsable same u
load_types-IsUsable conf prefix (t ∷ ts) o rtval r e g u h =
    let (s, got, rest) = >>=-eq-done (load_internal conf t o) _ h in
    let there = load_internal-done conf t o s got in
    load_types-IsUsable conf prefix ts s.0 s.1 r (rw there (load_one-prefix conf o t ∙ e)) g
      (rw there (load_one-IsUsable conf o t (rw e (g t)) u)) rest

-- Whatever loading returns, texts of which every product that is not skipped has an interval
-- leave a usable plugin.
pub load_config-IsUsable :
    (conf : Qconf) (types : List Bytes) (prefix : Bytes) (r : Online × Bool)
    → ((t : Bytes) → IsGoodText (text_of (conf (full_path prefix t))))
    → load_config conf types (new prefix) ≡ done r
    → IsUsable r.0
unfolding load_config
load_config-IsUsable conf types prefix r g h =
    let (text, got, rest) = >>=-eq-done (Qconf.get conf (types_path prefix)) _ h in
    load_types-IsUsable conf prefix _ (new prefix) false r refl g
      (unfold find in record { intervals = λ t k m p e f. cc e }) rest
