-- ===== src/ConfigFile/Tree/Shaped.antt =====
-- Reading the line of a parameter returns or throws, and leaves the domain's name and the domains
-- below it.
use ab_dyeing.Base.{
  ℕ, ◌≡◌, refl, false, Option, none, some, [], ◌∷◌, Bytes, ◌==◌, Bool-cases, Option-cases, inl, inr,
}
use ab_dyeing.Outcome.{Outcome, Ensures, Ensures->>=}
use ab_dyeing.Util.Trim.{trim, blanks}
use ab_dyeing.ConfigFile.{unescaped, cons_done, parse}
use ab_dyeing.ConfigFile.Line.{value_of, read_parts, read_param_line, cut_equal}
use ab_dyeing.ConfigFile.Tree.{Domain, domain, get_name, get_subdomain, with_param, set_param_line}

IsDefined : {A : Type 0} → Outcome A → Type 0
IsDefined m = Ensures (λ a. Unit) m

cons_done-IsDefined : (c : ℕ) (m : Outcome Bytes) → IsDefined m → IsDefined (cons_done c m)
unfolding IsDefined
cons_done-IsDefined c m h = Ensures->>= _ _ m _ h (λ s e u. tt)

parse-IsDefined : (s : Bytes) → IsDefined (parse s)
unfolding parse IsDefined
parse-IsDefined [] = tt
parse-IsDefined (c ∷ []) = elim (Bool-cases (c == b'\\')) [ inl e ↦ rw e tt | inr e ↦ rw e tt ]
parse-IsDefined (c ∷ d ∷ s) = elim (Bool-cases (c == b'\\')) [
  | inl e ↦
      rw (parse, e)
        (elim (Option-cases (unescaped d)) [
          | inl n ↦ rw n tt
          | inr (x, n) ↦ rw n (cons_done-IsDefined x (parse s) (parse-IsDefined s))
        ])
  | inr e ↦ rw (parse, e) (cons_done-IsDefined c (parse (d ∷ s)) (parse-IsDefined (d ∷ s)))
]

value_of-IsDefined : (r : Bytes) → IsDefined (value_of r)
unfolding value_of IsDefined
value_of-IsDefined [] = tt
value_of-IsDefined (c ∷ r) = parse-IsDefined (trim blanks (c ∷ r))

read_parts-IsDefined : (line : Bytes) (o : Option (Bytes × Bytes)) → IsDefined (read_parts line o)
unfolding IsDefined
read_parts-IsDefined line none = tt
read_parts-IsDefined line (some (l, r)) =
    Ensures->>= _ _ (parse (trim blanks l)) _ (parse-IsDefined (trim blanks l))
      (λ name e u. Ensures->>= _ _ (value_of r) _ (value_of-IsDefined r) (λ value f v. tt))

-- The name and the domains below stay.
abbrev pub IsShaped : Domain → Domain → Type 0
IsShaped d e = (get_name e ≡ get_name d) × (get_subdomain e ≡ get_subdomain d)

pub set_param_line-IsShaped :
    (line : Bytes) (d : Domain) → Ensures (IsShaped d) (set_param_line line d)
unfolding set_param_line read_param_line IsDefined
set_param_line-IsShaped [] d = (refl, refl)
set_param_line-IsShaped (c ∷ s) d =
    Ensures->>= _ (IsShaped d) (read_param_line (c ∷ s)) _
      (read_parts-IsDefined (c ∷ s) (cut_equal false (c ∷ s))) (λ nv e u. shaped (c ∷ s) nv d)
  where
    shaped : (line : Bytes) (nv : Bytes × Bytes) (d : Domain) → IsShaped d (with_param line nv d)
    shaped line (name, value) (domain n p ls ds) = (refl, refl)
