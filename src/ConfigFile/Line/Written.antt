-- ===== src/ConfigFile/Line/Written.antt =====
-- Writing a parameter as a line and reading it again.
use ab_dyeing.Base.{ℕ, ◌≡◌, refl, Bool, Option, none, some, [], ◌∷◌, ◌++◌, Bytes, ◌==◌}
use ab_dyeing.Util.Trim.{blanks}
use ab_dyeing.Util.Trim.Ends.{ends}

-- The last character is a backslash, or there is none and `before` holds.
abbrev pub ends_escaped : Bool → Bytes → Bool
ends_escaped before [] = before
ends_escaped before (c ∷ s) = ends_escaped (c == b'\\') s

abbrev prefix : Bytes → Option (Bytes × Bytes) → Option (Bytes × Bytes)
prefix t none = none
prefix t (some (l, r)) = some (t ++ l, r)

pub ends-append : (t : Bytes) (c : ℕ) (s : Bytes) → ends blanks (t ++ c ∷ s) ≡ ends blanks (c ∷ s)
ends-append [] c s = refl
ends-append (d ∷ []) c s = refl
ends-append (d ∷ e ∷ t) c s = ends-append (e ∷ t) c s
