-- ===== src/ConfigFile.antt =====
-- `INV_ConfigDomain` of common/inutil/inv_config.cpp, which the server's configuration file is read
-- with: the escapes of names and values, and the parameters of a domain in the order of their keys.
pub mod Escape
pub mod Keys
pub mod Line
pub mod Tree
pub mod Reader
pub mod Lookup
use ab_dyeing.Base.{
  ℕ, Bool, true, false, ◌||◌, Option, none, some, List, [], ◌∷◌, ◌++◌, Bytes, Dict, codes, find,
  put, eqb, ◌==◌, if◌then◌else◌,
}
use ab_dyeing.Outcome.{Outcome, done, throws, config_exception, assertion_failed, ◌>>=◌}

-- The character that the one after a backslash stands for.
unfoldable pub unescaped : ℕ → Option ℕ
unescaped c =
    if c == b'\\'
    then some b'\\'
    else if c == b'r'
    then some b'\r'
    else if c == b'n'
    then some b'\n'
    else if c == b't'
    then some b'\t'
    else if c == b'='
    then some b'='
    else none

abbrev pub cons_done : ℕ → Outcome Bytes → Outcome Bytes
cons_done c rest = do s ← rest; done (c ∷ s)

abbrev pub cons_unescaped : Option ℕ → Outcome Bytes → Outcome Bytes
cons_unescaped none rest = throws config_exception
cons_unescaped (some c) rest = cons_done c rest

-- `parse`: a backslash at the end, or before another character, is an error.
unfoldable pub parse : Bytes → Outcome Bytes
unfolding unescaped
parse [] = done []
parse (c ∷ []) = if c == b'\\' then throws config_exception else done (c ∷ [])
parse (c ∷ d ∷ s) = elim (c == b'\\') [
  | true ↦ cons_unescaped (unescaped d) (parse s)
  | false ↦ cons_done c (parse (d ∷ s))
]

-- How one character is written.
unfoldable pub escaped : ℕ → Outcome Bytes
escaped c =
    if c == b'\\'
    then done (b'\\' ∷ b'\\' ∷ [])
    else if c == b'\r'
    then done (b'\\' ∷ b'r' ∷ [])
    else if c == b'\n'
    then done (b'\\' ∷ b'n' ∷ [])
    else if c == b'\t'
    then done (b'\\' ∷ b't' ∷ [])
    else if c == b'='
    then done (b'\\' ∷ b'=' ∷ [])
    else if c == b'<' || c == b'>'
    then throws config_exception
    else done (c ∷ [])

unfoldable pub reverse_parse : Bytes → Outcome Bytes
unfolding escaped
reverse_parse [] = done []
reverse_parse (c ∷ s) = do head ← escaped c; rest ← reverse_parse s; done (head ++ rest)

-- `_param`, and `_key`, the names in the order in which they were last set.
pub record Params : Type 0 where
  pub param : Dict Bytes
  pub key : List Bytes

-- The loop that erases the first key of that name.
unfoldable pub erase_key : Bytes → List Bytes → List Bytes
unfolding eqb
erase_key name [] = []
erase_key name (k ∷ ks) = if eqb k name then ks else k ∷ erase_key name ks

-- `setParamValue(name, value)`.
unfoldable pub set_param_value : Bytes → Bytes → Params → Params
unfolding erase_key put
set_param_value name value p = record {
  param = put name value p.param;
  key = erase_key name p.key ++ name ∷ [];
}

-- The loop of `insertParamValue` that looks for the key.
unfoldable pub has_key : Bytes → List Bytes → Bool
unfolding eqb
has_key name [] = false
has_key name (k ∷ ks) = eqb k name || has_key name ks

-- `_param.insert(…)` keeps the value that a name has.
abbrev pub insert_new : Bytes → Bytes → Option Bytes → Dict Bytes → Dict Bytes
insert_new name value none m = put name value m
insert_new name value (some old) m = m

-- `insertParamValue`, the insertion and the loop over the new parameters.
unfoldable pub insert_params : Dict Bytes → Dict Bytes → Dict Bytes
unfolding find put
insert_params [] m = m
insert_params ((name, value) ∷ new) m = insert_params new (insert_new name value (find name m) m)

unfoldable pub insert_keys : Dict Bytes → List Bytes → List Bytes
unfolding has_key
insert_keys [] ks = ks
insert_keys ((name, value) ∷ new) ks =
    insert_keys new (if has_key name ks then ks else ks ++ name ∷ [])

unfoldable pub insert_param_value : Dict Bytes → Params → Params
unfolding insert_params insert_keys
insert_param_value new p = record { param = insert_params new p.param; key = insert_keys new p.key }

-- What `tostr` writes for a key, without the tabs and the line end; the assertion is that it has
-- a value.
abbrev pub line_of : Bytes → Option Bytes → Outcome Bytes
line_of name none = throws assertion_failed
line_of name (some []) = reverse_parse name
line_of name (some (c ∷ v)) = do
  k ← reverse_parse name
  w ← reverse_parse (c ∷ v)
  done (k ++ (b'=' ∷ w))

-- The loop of `tostr` over the keys.
unfoldable pub param_lines : List Bytes → Dict Bytes → Outcome (List Bytes)
unfolding reverse_parse find
param_lines [] m = done []
param_lines (k ∷ ks) m = do
  line ← line_of k (find k m)
  lines ← param_lines ks m
  done (line ∷ lines)
