-- ===== src/Util/Sepstr/Position.antt =====
-- Where a character is found first.
use ab_dyeing.Base.{ℕ, ◌≡◌, refl, none, some, [], ◌∷◌, ◌++◌, Bytes, length, arith}
use ab_dyeing.Util.Sepstr.{in_set, index_of}
use ab_dyeing.Util.Sepstr.Join.{Lacks}

pub index_of-behind :
    (c : ℕ) (s t : Bytes) → Lacks c s → index_of (c ∷ []) (s ++ c ∷ t) ≡ some (length s)
unfolding index_of in_set
index_of-behind c [] t h = ground arith
index_of-behind c (x ∷ s) t h = rw (index_of-behind c s t h.1) (ground arith)

pub index_of-Lacks : (c : ℕ) (s : Bytes) → Lacks c s → index_of (c ∷ []) s ≡ none
unfolding index_of in_set
index_of-Lacks c [] h = refl
index_of-Lacks c (x ∷ s) h = rw (index_of-Lacks c s h.1) (ground arith)
