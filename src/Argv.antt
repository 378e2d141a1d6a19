-- ===== src/Argv.antt =====
-- `INV_Argv` of common/inutil/inv_argv.cpp: the options and the other arguments of the command line.
pub mod Options
use ab_dyeing.Base.{
  ℕ, suc, ◌-◌, Bool, true, false, ◌&&◌, Option, none, some, List, [], ◌∷◌, ◌++◌, Bytes, Dict, codes,
  find, has, put, take, drop, length, ltb, eqb, if◌then◌else◌,
}
use ab_dyeing.Util.Sepstr.{index_of}

pub record Argv : Type 0 where
  pub param : Dict Bytes
  pub single : List Bytes

-- `parse`: what stands between the two dashes and the first equals sign is the name.
abbrev pub parse_at : Bytes → Option ℕ → Dict Bytes → Dict Bytes
parse_at s none m = put (drop 2 s) [] m
parse_at s (some pos) m = put (take (pos - 2) (drop 2 s)) (drop (suc pos) s) m

unfoldable pub parse : Bytes → Dict Bytes → Dict Bytes
unfolding index_of put
parse s m = parse_at s (index_of (b'=' ∷ []) s) m

-- `v[i].length() > 2 && v[i].substr(0,2) == "--"`.
unfoldable pub is_option : Bytes → Bool
unfolding eqb
is_option s = ltb 2 (length s) && eqb (take 2 s) (codes "--")

-- The loop of `decode` over the arguments behind the program's name.
unfoldable pub decode_args : List Bytes → Argv → Argv
unfolding is_option parse
decode_args [] a = a
decode_args (s ∷ ss) a =
    if is_option s
    then decode_args ss (record a { param = parse s a.param })
    else decode_args ss (record a { single = a.single ++ s ∷ [] })

-- `decode`: the options are cleared first, the other arguments are not.
unfoldable pub decode : List Bytes → Argv → Argv
unfolding decode_args
decode argv a = decode_args (drop 1 argv) (record a { param = [] })

abbrev pub value_or_empty : Option Bytes → Bytes
value_or_empty none = []
value_or_empty (some v) = v

-- `getValue` and `hasParam`.
unfoldable pub get_value : Bytes → Argv → Bytes
unfolding find
get_value name a = value_or_empty (find name a.param)

unfoldable pub has_param : Bytes → Argv → Bool
unfolding find
has_param name a = has name a.param
