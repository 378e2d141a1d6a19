-- ===== src/ConfigFile/Reader/Text.antt =====
-- A whole file: its lines, each with its end, and what `parse` makes of them.
use ab_dyeing.Base.{
  ◌≡◌, ◌≢◌, refl, ap, sym, ◌∙◌, List, [], ◌∷◌, ◌++◌, append-nil, Bytes, All, All-append, arith,
}
use ab_dyeing.Outcome.{Outcome, done, throws, undefined, ◌>>=◌, >>=-assoc}
use ab_dyeing.Util.Sepstr.Join.{Lacks}
use ab_dyeing.ConfigFile.Tree.{Domain, new_domain, find_at, put_at}
use ab_dyeing.ConfigFile.Tree.Names.{new_domain-IsNamedBy}
use ab_dyeing.ConfigFile.Reader.{read_lines, get_lines, fresh_reader, finished, read_config}
use ab_dyeing.ConfigFile.Reader.Steps.{open_line, close_line, reader}
use ab_dyeing.ConfigFile.Reader.Sections.{Content, ended, entry, section, written, meant, IsWritten}
use ab_dyeing.ConfigFile.Reader.Sections.Read.{read_lines-written}

-- Each line with its end.
unfoldable pub text_of : List Bytes → Bytes
text_of [] = []
text_of (l ∷ ls) = l ++ b'\n' ∷ text_of ls

-- Lines without a line end in them are what `getline` gives.
pub get_lines-text_of : (ls : List Bytes) → All (Lacks b'\n') ls → get_lines (text_of ls) ≡ ls
unfolding get_lines text_of
get_lines-text_of [] h = refl
get_lines-text_of (l ∷ ls) h = first l ls h.0 ∙ ap (λ x. l ∷ x) (get_lines-text_of ls h.1)
  where
    first :
        (l : Bytes) (ls : List Bytes)
        → Lacks b'\n' l
        → get_lines (l ++ b'\n' ∷ text_of ls) ≡ l ∷ get_lines (text_of ls)
    first [] ls h = refl
    first (c ∷ l) ls h = rw (first l ls h.1) (ground arith)

written-Lacks : (c : Content) → IsWritten c → All (Lacks b'\n') (written c)
unfolding written IsWritten
written-Lacks ended w = tt
written-Lacks (entry l rest) w = (w.0.line, written-Lacks rest w.1)
written-Lacks (section n inner rest) w = (
  opened,
  All-append (Lacks b'\n') (written inner) _ (written-Lacks inner w.1)
      (closed, written-Lacks rest w.2),
)
  where
    bracket : Lacks b'\n' (n ++ b']' ∷ [])
    bracket = All-append (λ c. c ≢ b'\n') n (b']' ∷ []) (w.0.line) (omega arith, tt)

    opened : Lacks b'\n' (open_line n)
    opened = (omega arith, bracket)

    closed : Lacks b'\n' (close_line n)
    closed = (omega arith, (omega arith, bracket))

finished-root :
    (m : Outcome Domain)
    → (m >>= λ e. finished (reader (put_at [] e (new_domain [])) ([] ∷ []))) ≡ m
unfolding put_at
finished-root (done e) = refl
finished-root (throws e) = refl
finished-root undefined = refl

-- A file whose sections are nested and whose names and lines can be read back is read as the tree
-- it stands for; where a line of a parameter throws, reading the file throws the same.
pub read_config-written :
    (c : Content) → IsWritten c → read_config (text_of (written c)) ≡ meant c (new_domain [])
unfolding read_config read_lines
read_config-written c w = rw (get_lines-text_of (written c) (written-Lacks c w)) (
    ap (λ ls. read_lines ls fresh_reader >>= finished) (sym (append-nil (written c)))
    ∙ ap (λ m. m >>= finished)
        (read_lines-written c [] [] [] (new_domain []) (new_domain []) w (unfold find_at in refl)
          ((new_domain-IsNamedBy []).below))
    ∙ >>=-assoc (meant c (new_domain [])) _ finished
    ∙ finished-root (meant c (new_domain [])))
