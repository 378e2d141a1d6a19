-- ===== src/ConfigFile/Reader/Sections/Read.antt =====
-- `parse` reads the lines of nested sections as the tree they stand for.
use ab_dyeing.Base.{◌≡◌, refl, ap, subst, sym, ◌∙◌, some, List, [], ◌∷◌, ◌++◌, append_assoc, Bytes}
use ab_dyeing.Outcome.{done, ◌>>=◌, >>=-assoc, >>=-cong, >>=-eq-done, done-injective}
use ab_dyeing.ConfigFile.Tree.{
  Domain, get_name, get_subdomain, find_domain, with_subdomain, or_new, set_param_line, find_at,
  put_at,
}
use ab_dyeing.ConfigFile.Tree.Paths.{
  find_at-put_at, put_at-put_at, put_at_self, find_at-opened, put_at-opened,
}
use ab_dyeing.ConfigFile.Tree.Names.{
  IsNamed, IsNamedBy, or_new-IsNamedBy, with_subdomain-IsNamed, get_name-with_subdomain,
  set_param_line-IsNamed,
}
use ab_dyeing.ConfigFile.Reader.{read_lines}
use ab_dyeing.ConfigFile.Reader.Steps.{
  open_line, close_line, reader, read_lines-open, read_lines-close, read_lines-entry,
}
use ab_dyeing.ConfigFile.Reader.Sections.{
  Content, ended, entry, section, written, meant, IsName, IsWritten,
}

-- The names stay what they are.
meant-IsNamed :
    (c : Content) (d : Domain) {e : Domain}
    → meant c d ≡ done e
    → IsNamed d
    → (get_name e ≡ get_name d) × IsNamed e
unfolding meant
meant-IsNamed ended d h i =
    subst (λ x. (get_name x ≡ get_name d) × IsNamed x) (done-injective h) (refl, i)
meant-IsNamed (entry l rest) d h i =
    let (x, set, more) = >>=-eq-done (set_param_line l d) _ h in
    let (name, kept) = set_param_line-IsNamed l d set in
    let (name', kept') = meant-IsNamed rest x more (kept i) in (name' ∙ name, kept')
meant-IsNamed (section n inner rest) d h i =
    let o = or_new n (find_domain n (get_subdomain d)) in
    let (x, inside, more) = >>=-eq-done (meant inner o) _ h in
    let named = or_new-IsNamedBy n d i in
    let (name, below) = meant-IsNamed inner o inside (named.below) in
    let by : IsNamedBy n x = record { name = name ∙ named.name; below = below } in
    let (name', kept) =
      meant-IsNamed rest (with_subdomain n x d) more (with_subdomain-IsNamed n x d i by) in
    (name' ∙ get_name-with_subdomain n x d, kept)

-- The second write of a round through the pointer.
write_again :
    (rest : Content) (lines path : List Bytes) (below : List (List Bytes)) (e root : Domain)
    {d : Domain}
    → find_at path root ≡ some d
    → (meant rest e >>= λ x.
        read_lines lines (reader (put_at path x (put_at path e root)) (path ∷ below)))
      ≡ (meant rest e >>= λ x. read_lines lines (reader (put_at path x root) (path ∷ below)))
write_again rest lines path below e root f =
    >>=-cong (meant rest e) _ _
      (λ x h. ap (λ y. read_lines lines (reader y (path ∷ below))) (put_at-put_at path x e root f))

-- The closing line of a section, when what stands in it is read.
read_lines-closed :
    (n : Bytes) (lines path : List Bytes) (below : List (List Bytes)) (e o d root : Domain)
    → IsName n
    → get_name e ≡ n
    → find_at path root ≡ some d
    → read_lines (close_line n ∷ lines) (
        reader
          (put_at (path ++ n ∷ []) e (put_at path (with_subdomain n o d) root))
          ((path ++ n ∷ []) ∷ path ∷ below))
      ≡ read_lines lines (reader (put_at path (with_subdomain n e d) root) (path ∷ below))
read_lines-closed n lines path below e o d root w called f =
    rw (put_at-opened path n e o d root f) (
      read_lines-close (path ++ n ∷ []) (path ∷ below) e (put_at path (with_subdomain n e d) root)
        (find_at-opened path n e d root f) n lines (w.closes) called)

-- The lines of a section, read where the top of the stack points to a domain, leave the stack and
-- write through the pointer what the section stands for; or they throw what it throws.
pub read_lines-written :
    (c : Content) (lines : List Bytes) (path : List Bytes) (below : List (List Bytes))
    (d root : Domain)
    → IsWritten c
    → find_at path root ≡ some d
    → IsNamed d
    → read_lines (written c ++ lines) (reader root (path ∷ below))
      ≡ (meant c d >>= λ e. read_lines lines (reader (put_at path e root) (path ∷ below)))
unfolding written meant IsWritten
read_lines-written ended lines path below d root w f i =
    ap (λ x. read_lines lines (reader x (path ∷ below))) (sym (put_at_self path root d f))
read_lines-written (entry l rest) lines path below d root w f i =
    read_lines-entry path below d root f l (written rest ++ lines) (w.0.trimmed) (w.0.starts)
    ∙ >>=-cong (set_param_line l d) _ _ (λ e set.
      read_lines-written rest lines path below e (put_at path e root) w.1
        (find_at-put_at path e root f) ((set_param_line-IsNamed l d set).1 i)
      ∙ write_again rest lines path below e root f)
    ∙ sym (>>=-assoc (set_param_line l d) (meant rest) _)
read_lines-written (section n inner rest) lines path below d root w f i =
    let o = or_new n (find_domain n (get_subdomain d)) in
    let named = or_new-IsNamedBy n d i in
    let opened = put_at path (with_subdomain n o d) root in
    let tail = close_line n ∷ written rest ++ lines in
    ap (λ ls. read_lines ls (reader root (path ∷ below)))
      (ap (λ ls. open_line n ∷ ls)
        (append_assoc (written inner) (close_line n ∷ written rest) lines))
    ∙ read_lines-open path below d root f n (written inner ++ tail) (w.0.closes) (w.0.slash)
    ∙ read_lines-written inner tail (path ++ n ∷ []) (path ∷ below) o opened w.1
        (find_at-opened path n o d root f) (named.below)
    ∙ >>=-cong (meant inner o) _ _ (λ e h.
      let (name, kept) = meant-IsNamed inner o h (named.below) in
      let called : get_name e ≡ n = name ∙ named.name ∙ w.0.trimmed in
      let by : IsNamedBy n e = record { name = name ∙ named.name; below = kept } in
      read_lines-closed n (written rest ++ lines) path below e o d root w.0 called f
      ∙ read_lines-written rest lines path below (with_subdomain n e d)
          (put_at path (with_subdomain n e d) root) w.2
          (find_at-put_at path (with_subdomain n e d) root f) (with_subdomain-IsNamed n e d i by)
      ∙ write_again rest lines path below (with_subdomain n e d) root f)
    ∙ sym (>>=-assoc (meant inner o) _ _)
