-- ===== src/Util/Trim.antt =====
-- `INV_Util::trim`, `trimleft` and `trimright` of common/inutil/inv_util.cpp, in their default form,
-- where the second argument is a set of characters.
pub mod Ends
use ab_dyeing.Base.{
  ℕ, zero, suc, Bool, true, false, Option, none, some, List, [], ◌∷◌, Bytes, take, drop, length,
  get_elem?, if◌then◌else◌,
}
use ab_dyeing.Util.Sepstr.{in_set}

-- `s.find_first_of(sStr[i]) != npos`, at an index inside the string.
abbrev pub in_set_at : Bytes → Option ℕ → Bool
in_set_at chars none = false
in_set_at chars (some c) = in_set c chars

-- The loop of `trimleft`: how many characters it passes.
unfoldable pub left_pos : Bytes → Bytes → ℕ
unfolding in_set
left_pos chars [] = 0
left_pos chars (c ∷ s) = if in_set c chars then suc (left_pos chars s) else 0

unfoldable pub trim_left : Bytes → Bytes → Bytes
unfolding left_pos
trim_left chars s = drop (left_pos chars s) s

-- The loop of `trimright`, from `pos` down.
unfoldable pub right_pos : Bytes → Bytes → ℕ → ℕ
unfolding in_set
right_pos chars s zero = 0
right_pos chars s (suc p) = if in_set_at chars (get_elem? s p) then right_pos chars s p else suc p

unfoldable pub trim_right : Bytes → Bytes → Bytes
unfolding right_pos
trim_right chars s = take (right_pos chars s (length s)) s

unfoldable pub trim : Bytes → Bytes → Bytes
unfolding trim_left trim_right
trim chars s = trim_right chars (trim_left chars s)

-- The default set.
abbrev pub blanks : Bytes
blanks = b' ' ∷ b'\r' ∷ b'\n' ∷ b'\t' ∷ []
