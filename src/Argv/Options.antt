-- ===== src/Argv/Options.antt =====
-- What the command line says, and what `decode` makes of its text.
use ab_dyeing.Base.{
  take-append, drop-behind, ℕ, suc, ◌-◌, ◌≡◌, refl, ap, ◌∙◌, true, false, Option, none, some, List,
  [], ◌∷◌, ◌++◌, append_assoc, append-nil, Bytes, Dict, find, find-put, put, take, length, eqb,
  if◌then◌else◌, All, is_empty, arith, Bool-cases, inl, inr,
}
use ab_dyeing.Util.Sepstr.{index_of}
use ab_dyeing.Util.Sepstr.Join.{Lacks}
use ab_dyeing.Util.Sepstr.Position.{index_of-behind, index_of-Lacks}
use ab_dyeing.Argv.{Argv, parse, is_option, decode_args, decode, value_or_empty, get_value}

pub data Argument : Type 0 where
  option : Bytes → Bytes → Argument
  flag : Bytes → Argument
  word : Bytes → Argument

unfoldable pub text : Argument → Bytes
text (option k v) = b'-' ∷ b'-' ∷ (k ++ b'=' ∷ v)
text (flag k) = b'-' ∷ b'-' ∷ k
text (word s) = s

unfoldable pub texts : List Argument → List Bytes
unfolding text
texts [] = []
texts (a ∷ args) = text a ∷ texts args

-- A name holds no equals sign, a flag has a name, and a word does not look like an option.
unfoldable pub IsArgument : Argument → Type 0
IsArgument (option k v) = Lacks b'=' k
IsArgument (flag k) = Lacks b'=' k × (is_empty k ≡ false)
IsArgument (word s) = is_option s ≡ false

-- The last value that is given for a name; a flag gives the empty value.
abbrev pub later_or : Option Bytes → Option Bytes → Option Bytes
later_or none b = b
later_or (some v) b = some v

abbrev pub given : Bytes → Bytes → Bytes → Option Bytes
given name k v = if eqb k name then some v else none

unfoldable pub last_value : Bytes → List Argument → Option Bytes
unfolding eqb
last_value name [] = none
last_value name (option k v ∷ args) = later_or (last_value name args) (given name k v)
last_value name (flag k ∷ args) = later_or (last_value name args) (given name k [])
last_value name (word s ∷ args) = last_value name args

unfoldable pub words : List Argument → List Bytes
words [] = []
words (option k v ∷ args) = words args
words (flag k ∷ args) = words args
words (word s ∷ args) = s ∷ words args

parse-option :
    (k v : Bytes) (m : Dict Bytes)
    → Lacks b'=' k
    → parse (b'-' ∷ b'-' ∷ (k ++ b'=' ∷ v)) m ≡ put k v m
unfolding parse
parse-option k v m h =
    let at_equals : index_of (b'=' ∷ []) (b'-' ∷ b'-' ∷ (k ++ b'=' ∷ v))
        ≡ some (suc (suc (length k))) =
      index_of-behind b'=' (b'-' ∷ b'-' ∷ k) v (omega arith, (omega arith, h)) in
    let name : take (suc (suc (length k)) - 2) (k ++ b'=' ∷ v) ≡ k =
      let back : suc (suc (length k)) - 2 ≡ length k = omega arith in
      ap (λ (n : ℕ). take n (k ++ b'=' ∷ v)) back ∙ take-append k (b'=' ∷ v) in
    rw (at_equals, name, drop-behind b'=' k v)

parse-flag : (k : Bytes) (m : Dict Bytes) → Lacks b'=' k → parse (b'-' ∷ b'-' ∷ k) m ≡ put k [] m
unfolding parse
parse-flag k m h = rw (index_of-Lacks b'=' (b'-' ∷ b'-' ∷ k) (omega arith, (omega arith, h)))

is_option-dashes : (s : Bytes) → is_empty s ≡ false → is_option (b'-' ∷ b'-' ∷ s) ≡ true
unfolding is_option
is_option-dashes [] h = cc
is_option-dashes (c ∷ s) h = ground arith

filled : (k v : Bytes) → is_empty (k ++ b'=' ∷ v) ≡ false
filled [] v = refl
filled (c ∷ k) v = refl

-- What is given before gives way to what is given after.
later_or-given :
    (name k v : Bytes) (later before : Option Bytes)
    → later_or later (if eqb k name then some v else before)
      ≡ later_or (later_or later (given name k v)) before
later_or-given name k v none before = elim (Bool-cases (eqb k name)) [
  | inl e ↦ rw e refl
  | inr e ↦ rw e refl
]
later_or-given name k v (some w) before = refl

find-decode_args :
    (name : Bytes) (args : List Argument) (a : Argv)
    → All IsArgument args
    → find name ((decode_args (texts args) a).param)
      ≡ later_or (last_value name args) (find name a.param)
unfolding decode_args texts last_value IsArgument
find-decode_args name [] a h = refl
find-decode_args name (option k v ∷ args) a h =
    rw (is_option-dashes (k ++ b'=' ∷ v) (filled k v), parse-option k v a.param h.0)
      (find-decode_args name args _ h.1
        ∙ rw find-put (later_or-given name k v (last_value name args) (find name a.param)))
find-decode_args name (flag k ∷ args) a h =
    rw (is_option-dashes k h.0.1, parse-flag k a.param h.0.0)
      (find-decode_args name args _ h.1
        ∙ rw find-put (later_or-given name k [] (last_value name args) (find name a.param)))
find-decode_args name (word s ∷ args) a h = rw h.0 (find-decode_args name args _ h.1)

single-decode_args :
    (args : List Argument) (a : Argv)
    → All IsArgument args
    → (decode_args (texts args) a).single ≡ a.single ++ words args
unfolding decode_args texts words IsArgument
single-decode_args [] a h = rw append-nil
single-decode_args (option k v ∷ args) a h =
    rw (is_option-dashes (k ++ b'=' ∷ v) (filled k v)) (single-decode_args args _ h.1)
single-decode_args (flag k ∷ args) a h =
    rw (is_option-dashes k (h.0.1)) (single-decode_args args _ h.1)
single-decode_args (word s ∷ args) a h =
    rw h.0 (single-decode_args args _ h.1 ∙ append_assoc a.single (s ∷ []) (words args))

-- On a command line whose option names hold no equals sign, whose flags have a name and whose words
-- do not look like options, the value of a name is the last one that is given for it, and empty
-- where none is; the words are kept in their order, behind what an earlier call has left.
pub decode-texts :
    (program name : Bytes) (args : List Argument) (a : Argv)
    → All IsArgument args
    → (get_value name (decode (program ∷ texts args) a) ≡ value_or_empty (last_value name args))
      × ((decode (program ∷ texts args) a).single ≡ a.single ++ words args)
unfolding decode get_value
decode-texts program name args a h = (
  ap value_or_empty
      (find-decode_args name args (record a { param = [] }) h ∙ alone (last_value name args)),
  single-decode_args args (record a { param = [] }) h,
)
  where
    alone : (o : Option Bytes) → later_or o none ≡ o
    alone none = refl
    alone (some v) = refl
