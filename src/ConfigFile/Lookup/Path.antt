-- ===== src/ConfigFile/Lookup/Path.antt =====
-- A path that is written for the names of domains and a parameter, and read again.
use ab_dyeing.Base.{
  take-append, drop-behind, ℕ, suc, ◌+◌, ◌-◌, ◌%◌, ◌^◌, ◌<◌, ◌≡◌, ◌≢◌, refl, ap, sym, ◌∙◌, false,
  some, List, [], ◌∷◌, ◌++◌, append_assoc, Bytes, All, All-append, take, drop, length,
  length-append, arith,
}
use ab_dyeing.Outcome.{done}
use ab_dyeing.Util.Sepstr.{index_of, sepstr}
use ab_dyeing.Util.Sepstr.Join.{join, Lacks, sepstr-join_filled, join-Lacks}
use ab_dyeing.Util.Sepstr.Position.{index_of-behind}
use ab_dyeing.ConfigFile.Tree.{Domain, find_at}
use ab_dyeing.ConfigFile.Lookup.{parse_param_path, param_of, get}

-- `/domain/domain[param]`.
unfoldable pub path_text : List Bytes → Bytes → Bytes
unfolding join
path_text ds param = b'/' ∷ (join b'/' ds ++ (b'[' ∷ (param ++ b']' ∷ [])))

-- A name that a path can hold.
pub record IsPathName (n : Bytes) : Type 0 where
  pub filled : n ≢ []
  pub slash : Lacks b'/' n
  pub opens : Lacks b'[' n
  pub closes : Lacks b']' n

module _ {ℓ} {P : Bytes → Type ℓ} where
  pub All-map :
      {Q : Bytes → Type 0} (ps : List Bytes) → ((p : Bytes) → P p → Q p) → All P ps → All Q ps
  All-map [] f h = tt
  All-map (p ∷ ps) f h = (f p h.0, All-map ps f h.1)

sepstr-names : (ds : List Bytes) → All IsPathName ds → sepstr (join b'/' ds) (b'/' ∷ []) false ≡ ds
sepstr-names [] h = unfold sepstr in unfold join in refl
sepstr-names (d ∷ ds) h =
    sepstr-join_filled b'/' d ds (All-map (d ∷ ds) (λ p i. i.slash) h)
      (All-map (d ∷ ds) (λ p i. i.filled) h)

pub parse_param_path-path_text :
    (ds : List Bytes) (param : Bytes)
    → All IsPathName ds
    → Lacks b']' param
    → length param < 2 ^ 64
    → parse_param_path (path_text ds param) ≡ done (record { domains = ds; param = param })
unfolding parse_param_path path_text
parse_param_path-path_text ds param h l b =
    let j = join b'/' ds in
    let close : Bytes = b']' ∷ [] in
    let text = path_text ds param in
    let opens : Lacks b'[' (b'/' ∷ j) =
      (omega arith, join-Lacks b'[' b'/' ds (omega arith) (All-map ds (λ p i. i.opens) h)) in
    let at_open : index_of (b'[' ∷ []) text ≡ some (suc (length j)) =
      index_of-behind b'[' (b'/' ∷ j) (param ++ close) opens in
    let closes : Lacks b']' (b'/' ∷ (j ++ b'[' ∷ param)) = (
      omega arith,
      All-append (λ c. c ≢ b']') j (b'[' ∷ param)
          (join-Lacks b']' b'/' ds (omega arith) (All-map ds (λ p i. i.closes) h)) (omega arith, l),
    ) in
    let at_close : index_of (b']' ∷ []) text ≡ some (suc (length j + suc (length param))) =
      ap (λ s. index_of close (b'/' ∷ s)) (sym (append_assoc j (b'[' ∷ param) close))
      ∙ index_of-behind b']' (b'/' ∷ (j ++ b'[' ∷ param)) [] closes
      ∙ ap (λ n. some (suc n)) (length-append j (b'[' ∷ param)) in
    let wide : (suc (length j + suc (length param)) + 2 ^ 64 - suc (length j) - 1) % 2 ^ 64
        ≡ length param =
      omega arith in
    let far : suc (length j) + 1 ≡ suc (suc (length j)) = omega arith in
    let tail : drop (suc (length j) + 1) text ≡ param ++ close =
      ap (λ (n : ℕ). drop n text) far ∙ drop-behind b'[' j (param ++ close) in
    let back : suc (length j) - 1 ≡ length j = omega arith in
    let head : take (suc (length j) - 1) (drop 1 text) ≡ j =
      ap (λ (n : ℕ). take n (drop 1 text)) back ∙ take-append j (b'[' ∷ (param ++ close)) in
    rw (at_open, at_close, wide, tail, head, take-append param close, sepstr-names ds h)

-- `get` of a path that is written for names gives the parameter of the domain they lead to, or the
-- default where there is none.
pub get-path_text :
    (root : Domain) (ds : List Bytes) (param : Bytes)
    → All IsPathName ds
    → Lacks b']' param
    → length param < 2 ^ 64
    → get root (path_text ds param) ≡ done (param_of param (find_at ds root))
unfolding get
get-path_text root ds param h l b = rw (parse_param_path-path_text ds param h l b)
