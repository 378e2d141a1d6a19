-- ===== src/ConfigFile/Reader/Steps.antt =====
-- One line of a file at a time: an opening line, a closing line and a line of a parameter.
use ab_dyeing.Base.{
  ◌≡◌, refl, ◌∙◌, Bool, true, false, not, ◌&&◌, some, List, [], ◌∷◌, ◌++◌, Bytes, eqb_refl, ◌==◌,
  arith,
}
use ab_dyeing.Outcome.{◌>>=◌, >>=-assoc}
use ab_dyeing.Util.Sepstr.{in_set}
use ab_dyeing.Util.Sepstr.Join.{Lacks}
use ab_dyeing.Util.Trim.{trim, blanks}
use ab_dyeing.Util.Trim.Ends.{trim_self}
use ab_dyeing.ConfigFile.Line.Written.{ends-append}
use ab_dyeing.ConfigFile.Tree.{
  Domain, get_name, get_subdomain, find_domain, with_subdomain, or_new, add_sub_domain,
  set_param_line, find_at, put_at,
}
use ab_dyeing.ConfigFile.Reader.{
  Reader, before_close, open_domain, close_domain, set_param, read_bracket, read_trimmed,
  read_lines,
}

-- The line that opens a domain, and the line that closes it.
abbrev pub open_line : Bytes → Bytes
open_line name = b'[' ∷ name ++ b']' ∷ []

abbrev pub close_line : Bytes → Bytes
close_line name = b'[' ∷ b'/' ∷ name ++ b']' ∷ []

-- A name that does not start with a slash.
abbrev pub no_slash : Bytes → Bool
no_slash [] = true
no_slash (c ∷ s) = not (c == b'/')

-- A line that is read as a parameter.
abbrev pub is_entry : Bytes → Bool
is_entry [] = false
is_entry (c ∷ s) = not (c == b'#') && not (c == b'[')

abbrev pub reader : Domain → List (List Bytes) → Reader
reader root stack = record { root = root; stack = stack }

before_close-name : (n s : Bytes) → Lacks b']' n → before_close (n ++ b']' ∷ s) ≡ some n
unfolding before_close
before_close-name [] s h = refl
before_close-name (c ∷ n) s h = ground (arith, before_close-name n s h.1)

trim-bracketed : (n : Bytes) → trim blanks (b'[' ∷ n ++ b']' ∷ []) ≡ b'[' ∷ n ++ b']' ∷ []
trim-bracketed n =
    trim_self blanks (b'[' ∷ n ++ b']' ∷ []) (unfold in_set in refl)
      (ends-append (b'[' ∷ n) b']' [] ∙ (unfold in_set in refl))

read_bracket-name :
    (n : Bytes) (r : Reader) → no_slash n ≡ true → read_bracket (some n) r ≡ open_domain n r
read_bracket-name [] r h = refl
read_bracket-name (c ∷ n) r h = ground arith

pub read_trimmed-entry :
    (l : Bytes) (r : Reader) → is_entry l ≡ true → read_trimmed l r ≡ set_param l r
unfolding read_trimmed
read_trimmed-entry [] r h = cc
read_trimmed-entry (c ∷ s) r h = ground arith

module _ (path : List Bytes) (below : List (List Bytes)) (d root : Domain)
    (found : find_at path root ≡ some d) where
  pub read_lines-open :
      (n : Bytes) (lines : List Bytes)
      → Lacks b']' n
      → no_slash n ≡ true
      → read_lines (open_line n ∷ lines) (reader root (path ∷ below))
        ≡ read_lines lines (
            reader
              (put_at path (with_subdomain n (or_new n (find_domain n (get_subdomain d))) d) root)
              ((path ++ n ∷ []) ∷ path ∷ below))
  unfolding read_lines read_trimmed open_domain add_sub_domain
  read_lines-open n lines h s =
      rw (trim-bracketed n, before_close-name n [] h, read_bracket-name n _ s, open_domain, found)

  pub read_lines-close :
      (n : Bytes) (lines : List Bytes)
      → Lacks b']' n
      → get_name d ≡ n
      → read_lines (close_line n ∷ lines) (reader root (path ∷ below))
        ≡ read_lines lines (reader root below)
  unfolding read_lines read_trimmed close_domain
  read_lines-close n lines h s =
      rw (trim-bracketed (b'/' ∷ n), before_close, before_close-name n [] h, found, s, eqb_refl n)

  pub read_lines-entry :
      (l : Bytes) (lines : List Bytes)
      → trim blanks l ≡ l
      → is_entry l ≡ true
      → read_lines (l ∷ lines) (reader root (path ∷ below)) ≡ (
          set_param_line l d >>= λ e. read_lines lines (reader (put_at path e root) (path ∷ below)))
  unfolding read_lines set_param
  read_lines-entry l lines t e =
      rw (t, read_trimmed-entry l _ e, found) (>>=-assoc (set_param_line l d) _ _)
