-- ===== src/Util/Sepstr.antt =====
-- `INV_Util::sepstr<std::string>` of common/inutil/util/inv_util.h, which cuts a string at every
-- byte of a set. `strto<string>` is the identity there, so the pieces are pushed as they are.
pub mod Reference
pub mod Join
pub mod Position
use mathlib.Core.Option
use ab_dyeing.Base.{
  ℕ, zero, suc, ◌+◌, ◌-◌, Bool, true, false, Option, none, some, List, [], ◌∷◌, ◌++◌, Bytes, ◌||◌,
  leb, ◌==◌, if◌then◌else◌, length, take, drop, is_empty,
}

unfoldable pub in_set : ℕ → Bytes → Bool
in_set c [] = false
in_set c (d ∷ ds) = c == d || in_set c ds

-- The position of the first byte of the set.
unfoldable pub index_of : Bytes → Bytes → Option ℕ
unfolding in_set
index_of seps [] = none
index_of seps (c ∷ s) = if in_set c seps then some 0 else Option.map suc (index_of seps s)

-- `s.find_first_of(seps, pos)`; `none` is `npos`.
unfoldable pub find_first_of : Bytes → Bytes → ℕ → Option ℕ
unfolding index_of
find_first_of s seps pos = Option.map (λ k. pos + k) (index_of seps (drop pos s))

-- The part after the piece `s` is cut: push it, or skip an empty one.
unfoldable pub push_piece : Bool → Bytes → List Bytes → List Bytes
push_piece with_empty s vt =
    if with_empty then vt ++ s ∷ [] else if is_empty s then vt else vt ++ s ∷ []

-- The `while(true)` loop on its variables `pos` and `vt`, with fuel; `none` means out of fuel.
unfoldable pub sepstr_loop : ℕ → Bytes → Bytes → Bool → ℕ → List Bytes → Option (List Bytes)
unfolding find_first_of push_piece
sepstr_loop zero str sep with_empty pos vt = none
sepstr_loop (suc fuel) str sep with_empty pos vt = elim (find_first_of str sep pos) [
  | none ↦ some (push_piece with_empty (if leb (pos + 1) (length str) then drop pos str else []) vt)
  | some pos1 ↦
      sepstr_loop fuel str sep with_empty ((if pos1 == pos then pos else pos1) + 1)
        (push_piece with_empty (if pos1 == pos then [] else take (pos1 - pos) (drop pos str)) vt)
]

-- One round more than there are bytes is enough fuel: `Reference.sepstr_loop-split`.
unfoldable pub sepstr : Bytes → Bytes → Bool → List Bytes
unfolding sepstr_loop
sepstr str sep with_empty = elim (sepstr_loop (length str + 1) str sep with_empty 0 []) [
  | none ↦ []
  | some vt ↦ vt
]
