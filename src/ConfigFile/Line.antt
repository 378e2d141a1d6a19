-- ===== src/ConfigFile/Line.antt =====
-- `INV_ConfigDomain::setParamValue(line)` of common/inutil/inv_config.cpp, up to the call that sets
-- the parameter: the name and the value that a line stands for.
pub mod Written
use ab_dyeing.Base.{
  ℕ, Bool, true, false, not, ◌&&◌, Option, none, some, List, [], ◌∷◌, Bytes, is_empty, ◌==◌,
  if◌then◌else◌,
}
use ab_dyeing.Outcome.{Outcome, done, ◌>>=◌}
use ab_dyeing.Util.Trim.{trim, blanks}
use ab_dyeing.ConfigFile.{parse}

abbrev pub cons_left : ℕ → Option (Bytes × Bytes) → Option (Bytes × Bytes)
cons_left c none = none
cons_left c (some (l, r)) = some (c ∷ l, r)

-- The loop that looks for an equals sign not behind a backslash; `escaped` says that the character
-- before was a backslash.
unfoldable pub cut_equal : Bool → Bytes → Option (Bytes × Bytes)
cut_equal escaped [] = none
cut_equal escaped (c ∷ s) =
    if c == b'=' && not escaped then some ([], s) else cons_left c (cut_equal (c == b'\\') s)

-- `parse(trim(line.substr(pos + 1)))`, where something stands behind the sign.
unfoldable pub value_of : Bytes → Outcome Bytes
value_of r = if is_empty r then done [] else parse (trim blanks r)

abbrev pub read_parts : Bytes → Option (Bytes × Bytes) → Outcome (Bytes × Bytes)
read_parts line none = done (line, [])
read_parts line (some (l, r)) = do
  name ← parse (trim blanks l)
  value ← value_of r
  done (name, value)

unfoldable pub read_param_line : Bytes → Outcome (Bytes × Bytes)
unfolding cut_equal
read_param_line line = read_parts line (cut_equal false line)
