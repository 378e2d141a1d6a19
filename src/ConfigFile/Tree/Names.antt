-- ===== src/ConfigFile/Tree/Names.antt =====
-- The name of a domain is the name that its parent holds it under, without the blanks at its ends.
use ab_dyeing.Base.{
  ◌≡◌, refl, Option, none, some, [], ◌∷◌, Bytes, eqb, eqb_iff, Bool-cases, inl, inr, subst,
}
use ab_dyeing.Outcome.{done, >>=-eq-done, done-injective}
use ab_dyeing.Util.Trim.{trim, blanks}
use ab_dyeing.ConfigFile.Line.{read_param_line}
use ab_dyeing.ConfigFile.Tree.{
  Domain, Domains, domain, no_domains, add_domain, get_name, get_subdomain, new_domain, find_domain,
  put_domain, with_subdomain, or_new, with_param, set_param_line,
}

mutual
  pub IsNamed : Domain → Type 0
  IsNamed (domain name p ls ds) = AreNamed ds

  AreNamed : Domains → Type 0
  AreNamed no_domains = Unit
  AreNamed (add_domain n d ds) = (get_name d ≡ trim blanks n) × IsNamed d × AreNamed ds

-- A domain of a name, and all below it.
pub record IsNamedBy (n : Bytes) (d : Domain) : Type 0 where
  pub name : get_name d ≡ trim blanks n
  pub below : IsNamed d

found :
    (n : Bytes) (ds : Domains) {e : Domain}
    → AreNamed ds
    → find_domain n ds ≡ some e
    → IsNamedBy n e
unfolding find_domain IsNamed
found n no_domains h e = cc
found n (add_domain m d ds) (name, inside, rest) e = elim (Bool-cases (eqb m n)) [
  | inl h ↦
      let same : some d ≡ some _ = rw h at e in
      subst (IsNamedBy n) (some-injective same)
        (record { name = rw (← (eqb_iff m n).0 h) name; below = inside })
  | inr h ↦ found n ds rest (rw h at e)
]
  where
    some-injective : {a b : Domain} → some a ≡ some b → a ≡ b
    some-injective e = cc

put :
    (n : Bytes) (e : Domain) (ds : Domains)
    → AreNamed ds
    → IsNamedBy n e
    → AreNamed (put_domain n e ds)
unfolding put_domain IsNamed
put n e no_domains h i = (i.name, i.below, tt)
put n e (add_domain m d ds) (name, inside, rest) i = elim (Bool-cases (eqb m n)) [
  | inl h ↦ rw h (i.name, i.below, rest)
  | inr h ↦ rw h (name, inside, put n e ds rest i)
]

pub new_domain-IsNamedBy : (n : Bytes) → IsNamedBy n (new_domain n)
unfolding new_domain IsNamed
new_domain-IsNamedBy n = record { name = refl; below = tt }

-- The domain that `addSubDomain` returns.
pub or_new-IsNamedBy :
    (n : Bytes) (d : Domain) → IsNamed d → IsNamedBy n (or_new n (find_domain n (get_subdomain d)))
unfolding IsNamed
or_new-IsNamedBy n (domain name p ls ds) h = by_cases (find_domain n ds) (λ e. found n ds h)
  where
    by_cases :
        (o : Option Domain) → ((e : Domain) → o ≡ some e → IsNamedBy n e) → IsNamedBy n (or_new n o)
    by_cases none h = new_domain-IsNamedBy n
    by_cases (some e) h = h e refl

pub with_subdomain-IsNamed :
    (n : Bytes) (e d : Domain) → IsNamed d → IsNamedBy n e → IsNamed (with_subdomain n e d)
unfolding IsNamed
with_subdomain-IsNamed n e (domain name p ls ds) h i = put n e ds h i

pub get_name-with_subdomain :
    (n : Bytes) (e d : Domain) → get_name (with_subdomain n e d) ≡ get_name d
get_name-with_subdomain n e (domain name p ls ds) = refl

-- A parameter changes neither the name nor the domains below.
pub set_param_line-IsNamed :
    (line : Bytes) (d : Domain) {e : Domain}
    → set_param_line line d ≡ done e
    → (get_name e ≡ get_name d) × (IsNamed d → IsNamed e)
unfolding set_param_line IsNamed
set_param_line-IsNamed [] d h = same d (done-injective h)
  where
    same : (d : Domain) {e : Domain} → d ≡ e → (get_name e ≡ get_name d) × (IsNamed d → IsNamed e)
    same d h = subst (λ x. (get_name x ≡ get_name d) × (IsNamed d → IsNamed x)) h (refl, λ i. i)
set_param_line-IsNamed (c ∷ s) d h =
    let (nv, read, e) = >>=-eq-done (read_param_line (c ∷ s)) _ h in
    subst (λ x. (get_name x ≡ get_name d) × (IsNamed d → IsNamed x)) (done-injective e)
      (kept (c ∷ s) nv d)
  where
    kept :
        (line : Bytes) (nv : Bytes × Bytes) (d : Domain)
        → (get_name (with_param line nv d) ≡ get_name d)
          × (IsNamed d → IsNamed (with_param line nv d))
    kept line (name, value) (domain n p ls ds) = (refl, λ i. i)
