-- ===== src/ConfigFile/Tree/Paths.antt =====
-- The domain that a path leads to, after a write through a pointer to it or to the domain above it.
use ab_dyeing.Base.{
  ◌≡◌, ◌≢◌, refl, subst, ap, sym, ◌∙◌, none, some, List, [], ◌∷◌, ◌++◌, Bytes, eqb, eqb_iff,
  eqb_refl, Option-cases, Bool-cases, inl, inr,
}
use ab_dyeing.ConfigFile.Tree.{
  Domain, Domains, domain, no_domains, add_domain, get_subdomain, find_domain, put_domain,
  with_subdomain, find_at, put_at,
}

pub find_domain-put_domain :
    (n : Bytes) (d : Domain) (ds : Domains) → find_domain n (put_domain n d ds) ≡ some d
unfolding find_domain put_domain
find_domain-put_domain n d no_domains = rw (eqb_refl n)
find_domain-put_domain n d (add_domain m e ds) = elim (Bool-cases (eqb m n)) [
  | inl h ↦ rw (h, find_domain, eqb_refl n)
  | inr h ↦ rw (h, find_domain, h) (find_domain-put_domain n d ds)
]

put_domain-put_domain :
    (n : Bytes) (a b : Domain) (ds : Domains)
    → put_domain n a (put_domain n b ds) ≡ put_domain n a ds
unfolding put_domain
put_domain-put_domain n a b no_domains = rw (eqb_refl n)
put_domain-put_domain n a b (add_domain m e ds) = elim (Bool-cases (eqb m n)) [
  | inl h ↦ rw (h, put_domain, eqb_refl n)
  | inr h ↦ rw (h, put_domain, h) (ap (add_domain m e) (put_domain-put_domain n a b ds))
]

-- A step down to the name of a domain that is there.
pub find_at-step :
    (n : Bytes) (path : List Bytes) (d : Domain) {e : Domain}
    → find_domain n (get_subdomain d) ≡ some e
    → find_at (n ∷ path) d ≡ find_at path e
unfolding find_at
find_at-step n path d h = rw (find_at, h)

pub put_at-step :
    (n : Bytes) (path : List Bytes) (new d : Domain) {e : Domain}
    → find_domain n (get_subdomain d) ≡ some e
    → put_at (n ∷ path) new d ≡ with_subdomain n (put_at path new e) d
unfolding put_at
put_at-step n path new d h = rw (put_at, h)

stops :
    (n : Bytes) (path : List Bytes) (d : Domain)
    → find_domain n (get_subdomain d) ≡ none
    → find_at (n ∷ path) d ≡ none
unfolding find_at
stops n path d h = rw (find_at, h)

none-ne-some : {d : Domain} → none ≢ some d
none-ne-some h = cc

pub some-injective : {d e : Domain} → some d ≡ some e → d ≡ e
some-injective h = cc

pub find_at-head :
    (n : Bytes) (path : List Bytes) (root d : Domain)
    → find_at (n ∷ path) root ≡ some d
    → (e : Domain) × (find_domain n (get_subdomain root) ≡ some e) × (find_at path e ≡ some d)
find_at-head n path root d h = elim (Option-cases (find_domain n (get_subdomain root))) [
  | inl c ↦ absurd (none-ne-some (sym (stops n path root c) ∙ h))
  | inr (e, c) ↦ (e, c, sym (find_at-step n path root c) ∙ h)
]

pub get_subdomain-with_subdomain :
    (n : Bytes) (e d : Domain)
    → get_subdomain (with_subdomain n e d) ≡ put_domain n e (get_subdomain d)
get_subdomain-with_subdomain n e (domain name p ls ds) = refl

pub find_domain-with_subdomain :
    (n : Bytes) (e d : Domain) → find_domain n (get_subdomain (with_subdomain n e d)) ≡ some e
find_domain-with_subdomain n e d =
    rw get_subdomain-with_subdomain (find_domain-put_domain n e (get_subdomain d))

pub with_subdomain-with_subdomain :
    (n : Bytes) (a b d : Domain) → with_subdomain n a (with_subdomain n b d) ≡ with_subdomain n a d
with_subdomain-with_subdomain n a b (domain name p ls ds) =
    ap (domain name p ls) (put_domain-put_domain n a b ds)

pub find_at-put_at :
    (path : List Bytes) (new root : Domain) {d : Domain}
    → find_at path root ≡ some d
    → find_at path (put_at path new root) ≡ some new
unfolding find_at put_at
find_at-put_at [] new root h = refl
find_at-put_at (n ∷ path) new root h =
    let (e, c, below) = find_at-head n path root _ h in
    rw (put_at-step n path new root c) (
      find_at-step n path (with_subdomain n (put_at path new e) root)
        (find_domain-with_subdomain n (put_at path new e) root)
      ∙ find_at-put_at path new e below)

-- A second write through the pointer hides the first.
pub put_at-put_at :
    (path : List Bytes) (a b root : Domain) {d : Domain}
    → find_at path root ≡ some d
    → put_at path a (put_at path b root) ≡ put_at path a root
unfolding find_at put_at
put_at-put_at [] a b root h = refl
put_at-put_at (n ∷ path) a b root h =
    let (e, c, below) = find_at-head n path root _ h in
    rw (put_at-step n path b root c, put_at-step n path a root c)
      (put_at-step n path a _ (find_domain-with_subdomain n _ root)
        ∙ with_subdomain-with_subdomain n _ _ root
        ∙ ap (λ x. with_subdomain n x root) (put_at-put_at path a b e below))

-- The empty path leads to the root.
pub here : (root : Domain) {d : Domain} → find_at [] root ≡ some d → root ≡ d
unfolding find_at
here root h = some-injective h

nothing :
    (n : Bytes) (new e root : Domain)
    → with_subdomain n (put_at [] new e) root ≡ put_at [] (with_subdomain n new root) root
unfolding put_at
nothing n new e root = refl

-- The pointer to the domain of a name in the domain at a path.
pub find_at-append :
    (path : List Bytes) (n : Bytes) (root : Domain) {d : Domain}
    → find_at path root ≡ some d
    → find_at (path ++ n ∷ []) root ≡ find_at (n ∷ []) d
find_at-append [] n root h = ap (find_at (n ∷ [])) (here root h)
find_at-append (m ∷ path) n root h =
    let (e, c, below) = find_at-head m path root _ h in
    find_at-step m (path ++ n ∷ []) root c ∙ find_at-append path n e below

pub put_at-append :
    (path : List Bytes) (n : Bytes) (new root : Domain) {d e : Domain}
    → find_at path root ≡ some d
    → find_domain n (get_subdomain d) ≡ some e
    → put_at (path ++ n ∷ []) new root ≡ put_at path (with_subdomain n new d) root
put_at-append [] n new root h g =
    let same = here root h in
    subst (λ x. put_at (n ∷ []) new root ≡ put_at [] (with_subdomain n new x) root) same
      (put_at-step n [] new root (ap (λ x. find_domain n (get_subdomain x)) same ∙ g)
        ∙ nothing n new _ root)
put_at-append (m ∷ path) n new root h g =
    let (e, c, below) = find_at-head m path root _ h in
    rw (put_at-step m (path ++ n ∷ []) new root c, put_at-step m path _ root c)
      (ap (λ x. with_subdomain m x root) (put_at-append path n new e below g))

put_domain_self :
    (n : Bytes) (d : Domain) (ds : Domains) → find_domain n ds ≡ some d → put_domain n d ds ≡ ds
unfolding find_domain put_domain
put_domain_self n d no_domains h = cc
put_domain_self n d (add_domain m e ds) h = elim (Bool-cases (eqb m n)) [
  | inl b ↦
      let same : some e ≡ some d = rw b at h in rw (b, ← (eqb_iff m n).0 b, some-injective same)
  | inr b ↦ rw b (ap (add_domain m e) (put_domain_self n d ds (rw b at h)))
]

with_subdomain_self :
    (n : Bytes) (e d : Domain) → find_domain n (get_subdomain d) ≡ some e → with_subdomain n e d ≡ d
with_subdomain_self n e (domain name p ls ds) h = ap (domain name p ls) (put_domain_self n e ds h)

-- A write of what stands there changes nothing.
pub put_at_self :
    (path : List Bytes) (root d : Domain) → find_at path root ≡ some d → put_at path d root ≡ root
put_at_self [] root d h = unfold put_at in sym (here root h)
put_at_self (n ∷ path) root d h =
    let (e, c, below) = find_at-head n path root d h in
    put_at-step n path d root c
    ∙ ap (λ x. with_subdomain n x root) (put_at_self path e d below)
    ∙ with_subdomain_self n e root c

-- The domain that `addSubDomain` makes in the domain at a path, and the pointer to it.
pub find_at-opened :
    (path : List Bytes) (n : Bytes) (e d root : Domain)
    → find_at path root ≡ some d
    → find_at (path ++ n ∷ []) (put_at path (with_subdomain n e d) root) ≡ some e
find_at-opened path n e d root h =
    find_at-append path n _ (find_at-put_at path (with_subdomain n e d) root h)
    ∙ find_at-step n [] (with_subdomain n e d) (find_domain-with_subdomain n e d)
    ∙ (unfold find_at in refl)

-- A write through the pointer that `addSubDomain` returned.
pub put_at-opened :
    (path : List Bytes) (n : Bytes) (new e d root : Domain)
    → find_at path root ≡ some d
    → put_at (path ++ n ∷ []) new (put_at path (with_subdomain n e d) root)
      ≡ put_at path (with_subdomain n new d) root
put_at-opened path n new e d root h =
    put_at-append path n new _ (find_at-put_at path (with_subdomain n e d) root h)
      (find_domain-with_subdomain n e d)
    ∙ put_at-put_at path _ _ root h
    ∙ ap (λ x. put_at path x root) (with_subdomain-with_subdomain n new e d)
