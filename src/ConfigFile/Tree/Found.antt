-- ===== src/ConfigFile/Tree/Found.antt =====
-- The pointers that are there stay valid when a domain below gets more.
use ab_dyeing.Base.{
  ◌≡◌, ◌≢◌, refl, ap, sym, subst, ◌∙◌, true, false, some, List, [], ◌∷◌, Bytes, is_some, eqb,
  eqb_iff, arith, Bool-cases, Option-cases, inl, inr,
}
use ab_dyeing.ConfigFile.Tree.{
  Domain, Domains, no_domains, add_domain, get_subdomain, find_domain, put_domain, with_subdomain,
  find_at, put_at,
}
use ab_dyeing.ConfigFile.Tree.Paths.{
  find_at-step, put_at-step, find_at-head, find_domain-with_subdomain, get_subdomain-with_subdomain,
  here, some-injective,
}

-- The path leads to a domain.
pub IsFound : List Bytes → Domain → Type 0
unfolding find_at
IsFound path d = is_some (find_at path d) ≡ true

-- Each path that leads somewhere in the first domain does so in the second.
abbrev pub Extends : Domain → Domain → Type 0
Extends d e = (q : List Bytes) → IsFound q d → IsFound q e

pub IsFound-some :
    (path : List Bytes) (d : Domain) {e : Domain} → find_at path d ≡ some e → IsFound path d
unfolding IsFound
IsFound-some path d h = rw h refl

pub find_at-IsFound :
    (path : List Bytes) (d : Domain) → IsFound path d → (e : Domain) × (find_at path d ≡ some e)
unfolding IsFound
find_at-IsFound path d h = elim (Option-cases (find_at path d)) [
  | inl n ↦ absurd (false-ne-true (ap is_some (sym n) ∙ h))
  | inr (e, s) ↦ (e, s)
]
  where
    false-ne-true : false ≢ true
    false-ne-true h = cc

-- What is below a domain is what decides whether a path leads somewhere.
IsFound-step :
    (n : Bytes) (q : List Bytes) (d e : Domain)
    → find_domain n (get_subdomain e) ≡ find_domain n (get_subdomain d)
    → IsFound (n ∷ q) d
    → IsFound (n ∷ q) e
IsFound-step n q d e h i =
    let (x, found) = find_at-IsFound (n ∷ q) d i in
    let (y, below, more) = find_at-head n q d x found in
    IsFound-some (n ∷ q) e (find_at-step n q e (h ∙ below) ∙ more)

IsFound-nil : (d : Domain) → IsFound [] d
unfolding IsFound find_at
IsFound-nil d = refl

pub same-Extends : (d e : Domain) → get_subdomain e ≡ get_subdomain d → Extends d e
same-Extends d e h [] i = IsFound-nil e
same-Extends d e h (n ∷ q) i = IsFound-step n q d e (ap (find_domain n) h) i

find_domain-put_domain_other :
    (n m : Bytes) (d : Domain) (ds : Domains)
    → eqb n m ≡ false
    → find_domain m (put_domain n d ds) ≡ find_domain m ds
unfolding find_domain put_domain
find_domain-put_domain_other n m d no_domains h = rw h refl
find_domain-put_domain_other n m d (add_domain k e ds) h =
    ground (arith, eqb_iff k n, eqb_iff k m, eqb_iff n m, find_domain-put_domain_other n m d ds h)

find_domain-with_subdomain_other :
    (n m : Bytes) (e d : Domain)
    → eqb n m ≡ false
    → find_domain m (get_subdomain (with_subdomain n e d)) ≡ find_domain m (get_subdomain d)
find_domain-with_subdomain_other n m e d h =
    rw get_subdomain-with_subdomain (find_domain-put_domain_other n m e (get_subdomain d) h)

-- A domain below that extends the one that stands there, if one does.
pub with_subdomain-Extends :
    (n : Bytes) (new d : Domain)
    → ((e : Domain) → find_domain n (get_subdomain d) ≡ some e → Extends e new)
    → Extends d (with_subdomain n new d)
with_subdomain-Extends n new d h [] i = IsFound-nil (with_subdomain n new d)
with_subdomain-Extends n new d h (m ∷ q) i = elim (Bool-cases (eqb n m)) [
  | inl e ↦
      subst (λ k. IsFound (k ∷ q) (with_subdomain n new d)) ((eqb_iff n m).0 e)
        (under (subst (λ k. IsFound (k ∷ q) d) (sym ((eqb_iff n m).0 e)) i))
  | inr e ↦
      IsFound-step m q d (with_subdomain n new d) (find_domain-with_subdomain_other n m new d e) i
]
  where
    under : IsFound (n ∷ q) d → IsFound (n ∷ q) (with_subdomain n new d)
    under i =
        let (x, found) = find_at-IsFound (n ∷ q) d i in
        let (y, below, more) = find_at-head n q d x found in
        let (z, more') = find_at-IsFound q new (h y below q (IsFound-some q y more)) in
        IsFound-some (n ∷ q) (with_subdomain n new d)
          (find_at-step n q (with_subdomain n new d) (find_domain-with_subdomain n new d) ∙ more')

-- A write through a pointer.
pub put_at-Extends :
    (path : List Bytes) (new root d : Domain)
    → find_at path root ≡ some d
    → Extends d new
    → Extends root (put_at path new root)
put_at-Extends [] new root d h x = unfold put_at in subst (λ r. Extends r new) (sym (here root h)) x
put_at-Extends (n ∷ path) new root d h x =
    let (e, c, below) = find_at-head n path root d h in
    subst (Extends root) (sym (put_at-step n path new root c)) (
      with_subdomain-Extends n (put_at path new e) root (λ y found.
        subst (λ y. Extends y (put_at path new e)) (some-injective (sym c ∙ found))
          (put_at-Extends path new e d below x)))
