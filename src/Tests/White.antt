-- ===== src/Tests/White.antt =====
-- Splitting of strings, numbers and a white list on concrete inputs.
use ab_dyeing.Base.{
  ◌≡◌, ◌≢◌, refl, true, false, List, [], ◌∷◌, Bytes, codes, eqb, All, if◌then◌else◌,
}
use ab_dyeing.Outcome.{done}
use ab_dyeing.Qconf.{Qconf, qconf_ok}
use ab_dyeing.Util.Sepstr.{sepstr, sepstr_loop, find_first_of, index_of, in_set, push_piece}
use ab_dyeing.Util.Sepstr.Reference.{split, pieces, sepstr-split}
use ab_dyeing.Util.Decimal.{atoi_u32}
use ab_dyeing.WhiteList as White
use ab_dyeing.WhiteList.{WhiteList, load_internal, or_empty}
use ab_dyeing.WhiteList.Lookup.{pairs_text, IsWord, IsWordPair, last_value, load-pairs_text}
use ab_dyeing.Tests.Online.{lacks, lacks_sound, differ}

sepstr-split_example :
    sepstr (codes "a,,b;c") (codes ",;") false ≡ pieces false (split (codes ",;") (codes "a,,b;c"))
sepstr-split_example = sepstr-split (codes "a,,b;c") (codes ",;") false

-- The separators are a set of bytes, and an empty piece is skipped.
sepstr_pieces : sepstr (codes "a,,b;c") (codes ",;") false ≡ codes "a" ∷ codes "b" ∷ codes "c" ∷ []
unfolding sepstr sepstr_loop find_first_of index_of in_set push_piece
sepstr_pieces = refl

-- The number of a seed is cut to 32 bits, and garbage is 0.
atoi_u32_cut : atoi_u32 (codes " 4294967297x") ≡ 1
unfolding atoi_u32
atoi_u32_cut = refl

abbrev empty_white : WhiteList
empty_white = record { prefix = codes "/w"; map = [] }

abbrev vips : List (Bytes × Bytes)
vips = (codes "u2", codes "c") ∷ []

abbrev white_node : Qconf
white_node path = qconf_ok (pairs_text ((codes "u1", codes "d") ∷ vips))

word : (s : Bytes) → s ≢ [] → lacks b'=' s ≡ true → lacks b';' s ≡ true → IsWord s
word s n a b = record {
  filled = n;
  equals = lacks_sound b'=' s a;
  semicolon = lacks_sound b';' s b;
}

pairs-IsWordPair : All IsWordPair ((codes "u1", codes "d") ∷ vips)
unfolding lacks eqb
pairs-IsWordPair = (
  (
    word (codes "u1") (differ (codes "u1") [] refl) refl refl,
    word (codes "d") (differ (codes "d") [] refl) refl refl,
  ),
  (
    (
      word (codes "u2") (differ (codes "u2") [] refl) refl refl,
      word (codes "c") (differ (codes "c") [] refl) refl refl,
    ),
    tt,
  ),
)

load-pairs_text_example :
    (w' : WhiteList) × (load_internal white_node (codes "ui") empty_white ≡ done (w', true))
    × ((uid t : Bytes)
        → White.get w' uid t ≡ (
            if eqb (codes "ui") t
            then last_value uid ((codes "u1", codes "d") ∷ vips) (White.get empty_white uid t)
            else White.get empty_white uid t))
load-pairs_text_example =
    load-pairs_text white_node (codes "ui") (codes "u1", codes "d") vips empty_white refl
      pairs-IsWordPair
