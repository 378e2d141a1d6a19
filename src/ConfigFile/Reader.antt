-- ===== src/ConfigFile/Reader.antt =====
-- `INV_Config::parse` of common/inutil/inv_config.cpp, which reads the lines of a file. The stack
-- holds pointers to domains, the top first.
pub mod Steps
pub mod Sections
pub mod Text
pub mod Safe
use ab_dyeing.Base.{
  ℕ, Bool, true, false, Option, none, some, List, [], ◌∷◌, ◌++◌, Bytes, is_empty, eqb, ◌==◌,
  if◌then◌else◌,
}
use ab_dyeing.Outcome.{Outcome, done, throws, undefined, config_exception, ◌>>=◌}
use ab_dyeing.Util.Trim.{trim, blanks}
use ab_dyeing.ConfigFile.Tree.{
  Domain, new_domain, get_name, add_sub_domain, set_param_line, find_at, put_at,
}

pub record Reader : Type 0 where
  pub root : Domain
  pub stack : List (List Bytes)

-- `getline`: the lines of a file, without a last empty one.
abbrev pub cons_line : ℕ → List Bytes → List Bytes
cons_line c [] = (c ∷ []) ∷ []
cons_line c (l ∷ ls) = (c ∷ l) ∷ ls

unfoldable pub get_lines : Bytes → List Bytes
get_lines [] = []
get_lines (c ∷ s) = if c == b'\n' then [] ∷ get_lines s else cons_line c (get_lines s)

-- What stands before the first closing bracket.
abbrev pub cons_name : ℕ → Option Bytes → Option Bytes
cons_name c none = none
cons_name c (some s) = some (c ∷ s)

unfoldable pub before_close : Bytes → Option Bytes
before_close [] = none
before_close (c ∷ s) = if c == b']' then some [] else cons_name c (before_close s)

-- `top()`, which an empty stack has not.
abbrev pub top_of : List (List Bytes) → Outcome (List Bytes)
top_of [] = undefined
top_of (p ∷ ps) = done p

-- The domain that a pointer of the stack points to.
abbrev pub pointee : Option Domain → Outcome Domain
pointee none = undefined
pointee (some d) = done d

-- `top()->addSubDomain(name)`, which is pushed.
unfoldable pub open_domain : Bytes → Reader → Outcome Reader
unfolding find_at put_at add_sub_domain
open_domain name r = do
  path ← top_of r.stack
  d ← pointee (find_at path r.root)
  done (record {
    root = put_at path (add_sub_domain name d) r.root;
    stack = (path ++ name ∷ []) ∷ r.stack;
  })

-- `pop()` where the top has the name, else the exception.
abbrev pub pop_named : Bytes → List (List Bytes) → Reader → Domain → Outcome Reader
pop_named name below r d =
    if eqb (get_name d) name then done (record r { stack = below }) else throws config_exception

-- `[/name]`: the top of the stack has to have the name.
abbrev pub close_top : Bytes → Reader → List (List Bytes) → Outcome Reader
close_top name r [] = throws config_exception
close_top name r (path ∷ below) = pointee (find_at path r.root) >>= pop_named name below r

unfoldable pub close_domain : Bytes → Reader → Outcome Reader
unfolding find_at eqb
close_domain name r = close_top name r r.stack

-- `top()->setParamValue(line)`.
unfoldable pub set_param : Bytes → Reader → Outcome Reader
unfolding find_at put_at set_param_line
set_param line r = do
  path ← top_of r.stack
  d ← pointee (find_at path r.root)
  e ← set_param_line line d
  done (record r { root = put_at path e r.root })

-- A line in brackets, by what stands in them.
abbrev pub read_bracket : Option Bytes → Reader → Outcome Reader
read_bracket none r = throws config_exception
read_bracket (some []) r = open_domain [] r
read_bracket (some (c ∷ name)) r =
    if c == b'/' then close_domain name r else open_domain (c ∷ name) r

-- One round of the loop, on the trimmed line.
unfoldable pub read_trimmed : Bytes → Reader → Outcome Reader
unfolding before_close open_domain close_domain set_param
read_trimmed [] r = done r
read_trimmed (c ∷ s) r =
    if c == b'#'
    then done r
    else if c == b'['
    then read_bracket (before_close s) r
    else set_param (c ∷ s) r

unfoldable pub read_lines : List Bytes → Reader → Outcome Reader
unfolding trim
read_lines [] r = done r
read_lines (line ∷ lines) r = do r' ← read_trimmed (trim blanks line) r; read_lines lines r'

-- The end of `parse`: the root alone is left on the stack.
abbrev pub finished : Reader → Outcome Domain
finished r = elim r.stack [ path ∷ [] ↦ done r.root | _ ↦ throws config_exception ]

abbrev pub fresh_reader : Reader
fresh_reader = record { root = new_domain []; stack = [] ∷ [] }

unfoldable pub read_config : Bytes → Outcome Domain
unfolding read_lines get_lines
read_config text = do r ← read_lines (get_lines text) fresh_reader; finished r

-- `parseFile`; `files` gives the text of each file that can be opened.
abbrev pub read_opened : Option Bytes → Outcome Domain
read_opened none = throws config_exception
read_opened (some text) = read_config text

unfoldable pub parse_file : (Bytes → Option Bytes) → Bytes → Outcome Domain
unfolding read_config
parse_file files name = if is_empty name then throws config_exception else read_opened (files name)
