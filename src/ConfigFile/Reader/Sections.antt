-- ===== src/ConfigFile/Reader/Sections.antt =====
-- The text of a file that nests sections, and the tree that it stands for: the stack of `parse`
-- against a recursion over the sections.
pub mod Read
use ab_dyeing.Base.{
  ℕ, ◌≡◌, ◌≢◌, refl, ap, subst, sym, ◌∙◌, Bool, true, false, Option, none, some, List, [], ◌∷◌,
  ◌++◌, append_assoc, append-nil, Bytes, All, All-append, ◌==◌, if◌then◌else◌, arith,
}
use ab_dyeing.Outcome.{
  Outcome, done, throws, ◌>>=◌, >>=-assoc, >>=-cong, >>=-eq-done, done-injective,
}
use ab_dyeing.Util.Sepstr.Join.{Lacks}
use ab_dyeing.Util.Trim.{trim, blanks}
use ab_dyeing.ConfigFile.Tree.{
  Domain, get_name, get_subdomain, new_domain, find_domain, with_subdomain, or_new, set_param_line,
  find_at, put_at,
}
use ab_dyeing.ConfigFile.Tree.Paths.{
  find_at-put_at, put_at-put_at, put_at_self, find_at-opened, put_at-opened,
}
use ab_dyeing.ConfigFile.Tree.Names.{
  IsNamed, IsNamedBy, or_new-IsNamedBy, new_domain-IsNamedBy, with_subdomain-IsNamed,
  get_name-with_subdomain, set_param_line-IsNamed,
}
use ab_dyeing.ConfigFile.Reader.{
  Reader, read_lines, get_lines, cons_line, fresh_reader, finished, read_config,
}
use ab_dyeing.ConfigFile.Reader.Steps.{
  open_line, close_line, no_slash, is_entry, reader, read_lines-open, read_lines-close,
  read_lines-entry,
}

-- What stands between the lines of a section: lines of parameters, and sections by their names.
pub data Content : Type 0 where
  ended : Content
  entry : Bytes → Content → Content
  section : Bytes → Content → Content → Content

-- The lines that are written for it.
unfoldable pub written : Content → List Bytes
written ended = []
written (entry l rest) = l ∷ written rest
written (section n inner rest) = open_line n ∷ written inner ++ close_line n ∷ written rest

-- What it stands for: the domain with its parameters set and its sections put in.
unfoldable pub meant : Content → Domain → Outcome Domain
unfolding set_param_line find_domain
meant ended d = done d
meant (entry l rest) d = set_param_line l d >>= meant rest
meant (section n inner rest) d = do
  e ← meant inner (or_new n (find_domain n (get_subdomain d)))
  meant rest (with_subdomain n e d)

pub record IsName (n : Bytes) : Type 0 where
  pub closes : Lacks b']' n
  pub line : Lacks b'\n' n
  pub slash : no_slash n ≡ true
  pub trimmed : trim blanks n ≡ n

pub record IsEntry (l : Bytes) : Type 0 where
  pub line : Lacks b'\n' l
  pub starts : is_entry l ≡ true
  pub trimmed : trim blanks l ≡ l

-- Each name and each line can be read back.
unfoldable pub IsWritten : Content → Type 0
IsWritten ended = Unit
IsWritten (entry l rest) = IsEntry l × IsWritten rest
IsWritten (section n inner rest) = IsName n × IsWritten inner × IsWritten rest
