-- ===== src/Util/Sepstr/Join.antt =====
-- Writing pieces with a separator between them, and cutting the text again with `sepstr`.
use ab_dyeing.Base.{
  ℕ, ◌≡◌, ◌≢◌, refl, ap, true, false, List, [], ◌∷◌, ◌++◌, Bytes, All, All-append, ◌∙◌, arith,
}
use ab_dyeing.Util.Sepstr.{in_set, sepstr}
use ab_dyeing.Util.Sepstr.Reference.{split, pieces, sepstr-split}

unfoldable pub join : ℕ → List Bytes → Bytes
join sep [] = []
join sep (p ∷ []) = p
join sep (p ∷ q ∷ ps) = p ++ (sep ∷ join sep (q ∷ ps))

abbrev pub Lacks : ℕ → Bytes → Type 0
Lacks sep = All (λ c. c ≢ sep)

split-Lacks : (sep : ℕ) (p : Bytes) → Lacks sep p → split (sep ∷ []) p ≡ p ∷ []
unfolding split in_set
split-Lacks sep [] h = refl
split-Lacks sep (c ∷ p) h = ground (arith, split-Lacks sep p h.1)

split-append :
    (sep : ℕ) (p t : Bytes)
    → Lacks sep p
    → split (sep ∷ []) (p ++ (sep ∷ t)) ≡ p ∷ split (sep ∷ []) t
unfolding split in_set
split-append sep [] t h = ground arith
split-append sep (c ∷ p) t h = ground (arith, split-append sep p t h.1)

split-join :
    (sep : ℕ) (p : Bytes) (ps : List Bytes)
    → All (Lacks sep) (p ∷ ps)
    → split (sep ∷ []) (join sep (p ∷ ps)) ≡ p ∷ ps
unfolding join
split-join sep p [] h = split-Lacks sep p h.0
split-join sep p (q ∷ ps) h =
    split-append sep p _ h.0 ∙ ap (λ rest. p ∷ rest) (split-join sep q ps h.1)

-- Cutting a join gives the pieces back, if there is a piece and none holds the separator.
pub sepstr-join :
    (sep : ℕ) (p : Bytes) (ps : List Bytes)
    → All (Lacks sep) (p ∷ ps)
    → sepstr (join sep (p ∷ ps)) (sep ∷ []) true ≡ p ∷ ps
sepstr-join sep p ps h = sepstr-split _ _ true ∙ split-join sep p ps h

-- A join lacks what its pieces and its separator lack.
pub join-Lacks : (c sep : ℕ) (ps : List Bytes) → sep ≢ c → All (Lacks c) ps → Lacks c (join sep ps)
unfolding join
join-Lacks c sep [] h hs = tt
join-Lacks c sep (p ∷ []) h hs = hs.0
join-Lacks c sep (p ∷ q ∷ ps) h hs = All-append _ p _ hs.0 (h, join-Lacks c sep (q ∷ ps) h hs.1)

keep_filled : (ps : List Bytes) → All (λ p. p ≢ []) ps → pieces false ps ≡ ps
keep_filled [] h = refl
keep_filled ([] ∷ ps) h = absurd (h.0 refl)
keep_filled ((c ∷ p) ∷ ps) h = ap (λ qs. (c ∷ p) ∷ qs) (keep_filled ps h.1)

-- The same where empty pieces are skipped, and no piece is empty.
pub sepstr-join_filled :
    (sep : ℕ) (p : Bytes) (ps : List Bytes)
    → All (Lacks sep) (p ∷ ps)
    → All (λ q. q ≢ []) (p ∷ ps)
    → sepstr (join sep (p ∷ ps)) (sep ∷ []) false ≡ p ∷ ps
sepstr-join_filled sep p ps h n =
    sepstr-split _ _ false ∙ ap (pieces false) (split-join sep p ps h) ∙ keep_filled (p ∷ ps) n

pub join-ne-nil : (sep : ℕ) (p : Bytes) (ps : List Bytes) → p ≢ [] → join sep (p ∷ ps) ≢ []
unfolding join
join-ne-nil sep [] ps n = absurd (n refl)
join-ne-nil sep (c ∷ p) [] n = n
join-ne-nil sep (c ∷ p) (q ∷ ps) n = λ e. cc
