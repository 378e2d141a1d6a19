-- ===== src/ConfigFile/Lookup/Last.antt =====
-- The parameter that a file sets last, looked up by its path.
use ab_dyeing.Base.{
  ◌^◌, ◌<◌, ◌≡◌, ◌≢◌, refl, ap, subst, sym, ◌∙◌, Option, none, some, List, [], ◌∷◌, Bytes, All,
  length, find, find-put_self,
}
use ab_dyeing.Outcome.{done, ◌>>=◌, >>=-assoc, >>=-cong, >>=-eq-done, done-injective}
use ab_dyeing.Util.Sepstr.Join.{Lacks}
use ab_dyeing.ConfigFile.{set_param_value}
use ab_dyeing.ConfigFile.Line.{read_param_line}
use ab_dyeing.ConfigFile.Tree.{
  Domain, domain, get_params, get_subdomain, new_domain, find_domain, with_subdomain, or_new,
  with_param, set_param_line, find_at,
}
use ab_dyeing.ConfigFile.Tree.Paths.{find_at-step, find_domain-with_subdomain}
use ab_dyeing.ConfigFile.Reader.{read_config}
use ab_dyeing.ConfigFile.Reader.Sections.{Content, ended, entry, section, written, meant, IsWritten}
use ab_dyeing.ConfigFile.Reader.Text.{text_of, read_config-written}
use ab_dyeing.ConfigFile.Lookup.{param_of, get}
use ab_dyeing.ConfigFile.Lookup.Path.{path_text, IsPathName, get-path_text}

-- One content behind another.
abbrev pub behind : Content → Content → Content
behind ended c = c
behind (entry l rest) c = entry l (behind rest c)
behind (section n inner rest) c = section n inner (behind rest c)

-- A content in the last of the sections, with what stands before each of them.
abbrev pub inside : List (Content × Bytes) → Content → Content
inside [] c = c
inside ((before, n) ∷ outer) c = behind before (section n (inside outer c) ended)

abbrev pub section_names : List (Content × Bytes) → List Bytes
section_names [] = []
section_names ((before, n) ∷ outer) = n ∷ section_names outer

meant-behind : (b c : Content) (d : Domain) → meant (behind b c) d ≡ (meant b d >>= meant c)
unfolding meant
meant-behind ended c d = refl
meant-behind (entry l rest) c d =
    >>=-cong (set_param_line l d) _ _ (λ e h. meant-behind rest c e)
    ∙ sym (>>=-assoc (set_param_line l d) (meant rest) (meant c))
meant-behind (section n inner rest) c d =
    let m = meant inner (or_new n (find_domain n (get_subdomain d))) in
    >>=-cong m _ _ (λ e h. meant-behind rest c (with_subdomain n e d))
    ∙ sym (>>=-assoc m _ (meant c))

-- The parameter that the line sets is there.
Holds : Bytes → Bytes → Option Domain → Type 0
Holds k v none = ⊥
Holds k v (some d) = find k ((get_params d).param) ≡ some v

set_param_line-Holds :
    (l k v : Bytes) (d x : Domain)
    → read_param_line l ≡ done (k, v)
    → l ≢ []
    → set_param_line l d ≡ done x
    → Holds k v (some x)
unfolding set_param_line set_param_value Holds
set_param_line-Holds [] k v d x r f h = absurd (f refl)
set_param_line-Holds (c ∷ s) k v (domain n p ls ds) x r f h =
    let set : done (with_param (c ∷ s) (k, v) (domain n p ls ds)) ≡ done x = rw r at h in
    subst (λ y. find k ((get_params y).param) ≡ some v) (done-injective set)
      (find-put_self k v (p.param))

meant-inside :
    (outer : List (Content × Bytes)) (before : Content) (l k v : Bytes) (d root : Domain)
    → read_param_line l ≡ done (k, v)
    → l ≢ []
    → meant (inside outer (behind before (entry l ended))) d ≡ done root
    → Holds k v (find_at (section_names outer) root)
unfolding meant Holds find_at
meant-inside [] before l k v d root r f h =
    let (e, above, last) =
      >>=-eq-done (meant before d) _ (sym (meant-behind before (entry l ended) d) ∙ h) in
    let (x, set, same) = >>=-eq-done (set_param_line l e) _ last in
    subst (λ y. Holds k v (some y)) (done-injective same) (set_param_line-Holds l k v e x r f set)
meant-inside ((b, n) ∷ outer) before l k v d root r f h =
    let c = inside outer (behind before (entry l ended)) in
    let (e, above, last) =
      >>=-eq-done (meant b d) _ (sym (meant-behind b (section n c ended) d) ∙ h) in
    let (x, within, same) =
      >>=-eq-done (meant c (or_new n (find_domain n (get_subdomain e)))) _ last in
    subst (λ y. Holds k v (find_at (n ∷ section_names outer) y)) (done-injective same)
      (subst (Holds k v)
        (sym (
          find_at-step n (section_names outer) (with_subdomain n x e)
            (find_domain-with_subdomain n x e)))
        (meant-inside outer before l k v (or_new n (find_domain n (get_subdomain e))) x r f within))

Holds-param_of : (k v : Bytes) (o : Option Domain) → Holds k v o → param_of k o ≡ v
unfolding Holds
Holds-param_of k v none h = absurd h
Holds-param_of k v (some d) h = rw h refl

-- A file that is written so that it can be read back ends, in nested sections, with the line of a
-- parameter, the names of the sections can stand in a path, and the name of the parameter is
-- shorter than 2 ^ 64 and holds no closing bracket: where the file is read, `get` of the path of
-- this parameter gives the value of the line, whatever the file says above it.
pub get-read_config :
    (outer : List (Content × Bytes)) (before : Content) (l k v : Bytes) (root : Domain)
    → IsWritten (inside outer (behind before (entry l ended)))
    → read_param_line l ≡ done (k, v)
    → l ≢ []
    → All IsPathName (section_names outer)
    → Lacks b']' k
    → length k < 2 ^ 64
    → read_config (text_of (written (inside outer (behind before (entry l ended))))) ≡ done root
    → get root (path_text (section_names outer) k) ≡ done v
get-read_config outer before l k v root w r f names closes b h =
    let c = inside outer (behind before (entry l ended)) in
    get-path_text root (section_names outer) k names closes b
    ∙ ap done (
        Holds-param_of k v _ (
          meant-inside outer before l k v (new_domain []) root r f
            (sym (read_config-written c w) ∙ h)))
