-- ===== src/ConfigFile/Reader/Safe.antt =====
-- No line but one that starts with `[/]` makes `parse` read the top of an empty stack, and no line
-- makes it follow a pointer that leads nowhere.
pub mod Step
use ab_dyeing.Base.{
  ℕ, ◌≡◌, ◌≢◌, refl, ap, sym, subst, ◌∙◌, Bool, true, false, Option, none, some, List, [], ◌∷◌,
  ◌++◌, Bytes, All, take, codes, eqb, eqb_iff, eqb_refl, ◌==◌, if◌then◌else◌, arith, Bool-cases,
  Option-cases, inl, inr, is_empty,
}
use ab_dyeing.Outcome.{Outcome, done, throws, undefined, ◌>>=◌, Ensures, Ensures->>=}
use ab_dyeing.Util.Sepstr.{in_set}
use ab_dyeing.Util.Trim.{trim, trim_left, left_pos, trim_right, right_pos, blanks}
use ab_dyeing.ConfigFile.{unescaped, cons_done, cons_unescaped, parse}
use ab_dyeing.ConfigFile.Line.{value_of, read_parts, read_param_line, cut_equal}
use ab_dyeing.ConfigFile.Tree.{
  Domain, domain, get_name, get_subdomain, new_domain, find_domain, with_subdomain, with_param,
  or_new, add_sub_domain, set_param_line, find_at, put_at,
}
use ab_dyeing.ConfigFile.Tree.Paths.{
  find_at-put_at, find_at-opened, find_at-head, put_at-step, here, some-injective,
}
use ab_dyeing.ConfigFile.Tree.Names.{get_name-with_subdomain}
use ab_dyeing.ConfigFile.Reader.Steps.{reader, is_entry, read_trimmed-entry}
use ab_dyeing.ConfigFile.Tree.Found.{
  IsFound, IsFound-some, find_at-IsFound, Extends, same-Extends, with_subdomain-Extends,
  put_at-Extends,
}
use ab_dyeing.ConfigFile.Reader.{
  Reader, before_close, cons_name, top_of, pointee, open_domain, close_domain, close_top, pop_named,
  set_param, read_bracket, read_trimmed, read_lines, get_lines, fresh_reader, finished, read_config,
}
use ab_dyeing.ConfigFile.Tree.Shaped.{IsShaped, set_param_line-IsShaped}
use ab_dyeing.ConfigFile.Reader.Safe.Step.{
  IsReading, fresh-IsReading, open_domain-IsReading, close_domain-IsReading, set_param-IsReading,
}

-- The trimmed line starts with `[/]`.
abbrev pub closes_nameless : Bytes → Bool
closes_nameless line = eqb (take 3 (trim blanks line)) (codes "[/]")

before_close-cons :
    (c x : ℕ) (s n : Bytes)
    → before_close (c ∷ s) ≡ some (x ∷ n)
    → (c ≡ x) × (before_close s ≡ some n)
unfolding before_close
before_close-cons c x s n h = elim (Bool-cases (c == b']')) [
  | inl e ↦ absurd (nil-ne-cons (rw e at h))
  | inr e ↦ cons (before_close s) (rw e at h)
]
  where
    nil-ne-cons : some [] ≢ some (x ∷ n)
    nil-ne-cons h = cc

    cons : (o : Option Bytes) → cons_name c o ≡ some (x ∷ n) → (c ≡ x) × (o ≡ some n)
    cons none h = cc
    cons (some m) h = (cc, cc)

before_close-nil : (s : Bytes) → before_close s ≡ some [] → take 1 s ≡ b']' ∷ []
unfolding before_close
before_close-nil [] h = cc
before_close-nil (c ∷ s) h = elim (Bool-cases (c == b']')) [
  | inl e ↦ ap (λ x. x ∷ []) (ground arith)
  | inr e ↦ absurd (cons (before_close s) (rw e at h))
]
  where
    cons : (o : Option Bytes) → cons_name c o ≢ some []
    cons none h = cc
    cons (some m) h = cc

-- A closing line without a name starts with `[/]`.
closes : (s : Bytes) → before_close s ≡ some (b'/' ∷ []) → take 2 s ≡ b'/' ∷ b']' ∷ []
unfolding before_close
closes [] h = cc
closes (c ∷ s) h =
    let (same, rest) = before_close-cons c b'/' s [] h in rw (same, before_close-nil s rest)

read_bracket-IsReading :
    (o : Option Bytes) (root : Domain) (stack : List (List Bytes))
    → (o ≡ some (b'/' ∷ []) → ⊥)
    → IsReading (reader root stack)
    → Ensures IsReading (read_bracket o (reader root stack))
read_bracket-IsReading none root stack h i = tt
read_bracket-IsReading (some []) root stack h i = open_domain-IsReading [] root stack i
read_bracket-IsReading (some (c ∷ n)) root stack h i = elim (Bool-cases (c == b'/')) [
  | inl e ↦ rw e (
      close_domain-IsReading n root stack
        (λ z. h (let same : c ≡ b'/' = ground arith in rw (same, z) refl)) i)
  | inr e ↦ rw e (open_domain-IsReading (c ∷ n) root stack i)
]

read_trimmed-IsReading :
    (l : Bytes) (root : Domain) (stack : List (List Bytes))
    → eqb (take 3 l) (codes "[/]") ≡ false
    → IsReading (reader root stack)
    → Ensures IsReading (read_trimmed l (reader root stack))
unfolding read_trimmed
read_trimmed-IsReading [] root stack h i = i
read_trimmed-IsReading (c ∷ s) root stack h i = elim (Bool-cases (c == b'#')) [
  | inl e ↦ rw e i
  | inr e ↦ rw e (elim (Bool-cases (c == b'[')) [
    | inl b ↦ rw b (
        read_bracket-IsReading (before_close s) root stack (λ z. closed (ground arith) (closes s z))
          i)
    | inr b ↦ rw b (set_param-IsReading (c ∷ s) root stack i)
  ])
]
  where
    true-ne-false : true ≢ false
    true-ne-false h = cc

    closed : c ≡ b'[' → take 2 s ≡ b'/' ∷ b']' ∷ [] → ⊥
    closed same two =
        let off : eqb (b'[' ∷ b'/' ∷ b']' ∷ []) (codes "[/]") ≡ false = rw (same, two) at h in
        true-ne-false (sym (eqb_refl (codes "[/]")) ∙ off)

read_lines-IsReading :
    (ls : List Bytes) (r : Reader)
    → All (λ l. closes_nameless l ≡ false) ls
    → IsReading r
    → Ensures IsReading (read_lines ls r)
unfolding read_lines
read_lines-IsReading [] r h i = i
read_lines-IsReading (l ∷ ls) r h i =
    Ensures->>= IsReading IsReading (read_trimmed (trim blanks l) r) _
      (read_trimmed-IsReading (trim blanks l) r.root r.stack h.0 i)
      (λ x e j. read_lines-IsReading ls x h.1 j)

-- A file none of whose lines starts with `[/]` is read, or an exception is thrown: no line makes
-- `parse` read the top of an empty stack or follow a pointer that leads nowhere.
pub read_config-defined :
    (text : Bytes)
    → All (λ l. closes_nameless l ≡ false) (get_lines text)
    → read_config text ≢ undefined
unfolding read_config
read_config-defined text h =
    let safe = read_lines-IsReading (get_lines text) fresh_reader h fresh-IsReading in
    ensured (read_lines (get_lines text) fresh_reader) safe
  where
    closing : (root : Domain) (stack : List (List Bytes)) → finished (reader root stack) ≢ undefined
    closing root [] = λ x. cc
    closing root (p ∷ []) = λ x. cc
    closing root (p ∷ q ∷ ps) = λ x. cc

    ensured : (m : Outcome Reader) → Ensures IsReading m → (m >>= finished) ≢ undefined
    ensured (done r) i = closing r.root r.stack
    ensured (throws e) i = λ x. cc
    ensured undefined i = absurd i

-- `[/]` as the first line closes the root, and a line of a parameter after it reads the top of the
-- empty stack.
pub read_config-root_closed :
    (text l : Bytes) (ls : List Bytes)
    → get_lines text ≡ codes "[/]" ∷ l ∷ ls
    → trim blanks l ≡ l
    → is_entry l ≡ true
    → read_config text ≡ undefined
unfolding read_config read_lines read_trimmed before_close close_domain find_at eqb set_param trim
    trim_left left_pos trim_right right_pos new_domain in_set
read_config-root_closed text l ls h t e = rw (h, t, read_trimmed-entry l _ e)
