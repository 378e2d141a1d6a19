-- ===== src/ConfigFile/Reader/Safe/Step.antt =====
-- What each kind of line does to the stack and to the pointers on it.
use ab_dyeing.Base.{
  ◌≡◌, ◌≢◌, refl, ap, sym, subst, ◌∙◌, false, some, List, [], ◌∷◌, ◌++◌, Bytes, All, eqb,
  Bool-cases, inl, inr,
}
use ab_dyeing.Outcome.{Ensures, Ensures->>=}
use ab_dyeing.Util.Trim.{trim, trim_left, left_pos, trim_right, right_pos}
use ab_dyeing.ConfigFile.Tree.{
  Domain, get_name, get_subdomain, new_domain, find_domain, with_subdomain, or_new, add_sub_domain,
  set_param_line, find_at, put_at,
}
use ab_dyeing.ConfigFile.Tree.Paths.{find_at-opened, find_at-head, put_at-step, here}
use ab_dyeing.ConfigFile.Tree.Names.{get_name-with_subdomain}
use ab_dyeing.ConfigFile.Reader.Steps.{reader}
use ab_dyeing.ConfigFile.Tree.Found.{
  IsFound, IsFound-some, find_at-IsFound, Extends, same-Extends, with_subdomain-Extends,
  put_at-Extends,
}
use ab_dyeing.ConfigFile.Reader.{
  Reader, pointee, open_domain, close_domain, set_param, fresh_reader,
}
use ab_dyeing.ConfigFile.Tree.Shaped.{IsShaped, set_param_line-IsShaped}

-- The lowest pointer of the stack points to the root.
abbrev pub IsGrounded : List (List Bytes) → Type 0
IsGrounded [] = ⊥
IsGrounded (p ∷ []) = p ≡ []
IsGrounded (p ∷ q ∷ ps) = IsGrounded (q ∷ ps)

pub record IsReading (r : Reader) : Type 0 where
  pub nameless : get_name r.root ≡ []
  pub grounded : IsGrounded r.stack
  pub pointers : All (λ p. IsFound p r.root) r.stack

All-map :
    {P Q : List Bytes → Type 0} (ps : List (List Bytes))
    → ((p : List Bytes) → P p → Q p)
    → All P ps
    → All Q ps
All-map [] f h = tt
All-map (p ∷ ps) f h = (f p h.0, All-map ps f h.1)

put_at-name :
    (path : List Bytes) (new d root : Domain)
    → find_at path root ≡ some d
    → get_name new ≡ get_name d
    → get_name (put_at path new root) ≡ get_name root
put_at-name [] new d root f n = unfold put_at in n ∙ ap get_name (sym (here root f))
put_at-name (m ∷ path) new d root f n =
    let (e, c, below) = find_at-head m path root d f in
    ap get_name (put_at-step m path new root c) ∙ get_name-with_subdomain m (put_at path new e) root

-- A write through the pointer to a domain by one that extends it and has its name.
put_at-IsReading :
    (path : List Bytes) (new d root : Domain) (stack : List (List Bytes))
    → IsReading (reader root stack)
    → find_at path root ≡ some d
    → get_name new ≡ get_name d
    → Extends d new
    → IsReading (reader (put_at path new root) stack)
put_at-IsReading path new d root stack i f n x = record {
  nameless = put_at-name path new d root f n ∙ i.nameless;
  grounded = i.grounded;
  pointers = All-map stack (put_at-Extends path new root d f x) (i.pointers);
}

-- A pointer of the stack leads to a domain.
pointee-Ensures :
    (path : List Bytes) (root : Domain)
    → IsFound path root
    → Ensures (λ d. find_at path root ≡ some d) (pointee (find_at path root))
pointee-Ensures path root i = let (d, f) = find_at-IsFound path root i in rw f refl

eqb-nil : (n : Bytes) → n ≢ [] → eqb [] n ≡ false
unfolding eqb
eqb-nil [] h = absurd (h refl)
eqb-nil (c ∷ n) h = refl

pub open_domain-IsReading :
    (n : Bytes) (root : Domain) (stack : List (List Bytes))
    → IsReading (reader root stack)
    → Ensures IsReading (open_domain n (reader root stack))
unfolding open_domain add_sub_domain
open_domain-IsReading n root [] i = absurd (i.grounded)
open_domain-IsReading n root (path ∷ below) i =
    Ensures->>= (λ d. find_at path root ≡ some d) IsReading (pointee (find_at path root)) _
      (pointee-Ensures path root (i.pointers.0))
      (λ d e f.
        let o = or_new n (find_domain n (get_subdomain d)) in
        let j =
          put_at-IsReading path (with_subdomain n o d) d root (path ∷ below) i f
            (get_name-with_subdomain n o d) (with_subdomain-Extends n o d (kept d)) in
        record {
          nameless = j.nameless;
          grounded = j.grounded;
          pointers = (
            IsFound-some (path ++ n ∷ []) (put_at path (with_subdomain n o d) root)
                (find_at-opened path n o d root f),
            j.pointers,
          );
        })
  where
    kept :
        (d e : Domain)
        → find_domain n (get_subdomain d) ≡ some e
        → Extends e (or_new n (find_domain n (get_subdomain d)))
    kept d e h = rw h (λ q i. i)

pub close_domain-IsReading :
    (n : Bytes) (root : Domain) (stack : List (List Bytes))
    → n ≢ []
    → IsReading (reader root stack)
    → Ensures IsReading (close_domain n (reader root stack))
unfolding close_domain
close_domain-IsReading n root [] h i = tt
close_domain-IsReading n root (path ∷ []) h i =
    Ensures->>= (λ d. find_at path root ≡ some d) IsReading (pointee (find_at path root)) _
      (pointee-Ensures path root (i.pointers.0))
      (λ d e f.
        let rooted : find_at [] root ≡ some d =
          subst (λ p. find_at p root ≡ some d) (i.grounded) f in
        let nameless : get_name d ≡ [] = ap get_name (sym (here root rooted)) ∙ i.nameless in
        rw (nameless, eqb-nil n h) tt)
close_domain-IsReading n root (path ∷ q ∷ below) h i =
    Ensures->>= (λ d. find_at path root ≡ some d) IsReading (pointee (find_at path root)) _
      (pointee-Ensures path root (i.pointers.0))
      (λ d e f. elim (Bool-cases (eqb (get_name d) n)) [
        | inl b ↦
            rw b (record { nameless = i.nameless; grounded = i.grounded; pointers = i.pointers.1 })
        | inr b ↦ rw b tt
      ])

pub set_param-IsReading :
    (line : Bytes) (root : Domain) (stack : List (List Bytes))
    → IsReading (reader root stack)
    → Ensures IsReading (set_param line (reader root stack))
unfolding set_param
set_param-IsReading line root [] i = absurd (i.grounded)
set_param-IsReading line root (path ∷ below) i =
    Ensures->>= (λ d. find_at path root ≡ some d) IsReading (pointee (find_at path root)) _
      (pointee-Ensures path root (i.pointers.0))
      (λ d e f.
        Ensures->>= (IsShaped d) IsReading (set_param_line line d) _
          (set_param_line-IsShaped line d)
          (λ x g s.
            put_at-IsReading path x d root (path ∷ below) i f (s.0) (same-Extends d x (s.1))))

pub fresh-IsReading : IsReading fresh_reader
fresh-IsReading =
    let rooted : find_at [] (new_domain []) ≡ some (new_domain []) = unfold find_at in refl in
    record {
      nameless = unfold new_domain trim trim_left left_pos trim_right right_pos in refl;
      grounded = refl;
      pointers = (IsFound-some [] (new_domain []) rooted, tt);
    }
