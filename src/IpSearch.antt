-- ===== src/IpSearch.antt =====
-- `INV_IP` of common/inutil/inv_ipsearch.cpp and util/inv_ipsearch.h: a table of ranges of IP
-- addresses, read from an encrypted file and searched by halving.
pub mod Search
pub mod Loaded
use ab_dyeing.Base.{
  ℕ, zero, suc, ◌+◌, ◌-◌, ◌/◌, ◌%◌, ◌^◌, Bool, true, false, ◌&&◌, ◌||◌, Option, none, some, List,
  [], ◌∷◌, ◌++◌, Bytes, codes, eqb, length, take, get_elem?, is_empty, ltb, leb, if◌then◌else◌,
}
use ab_dyeing.Outcome.{Outcome, done, undefined, ◌>>=◌}
use ab_dyeing.Util.Sepstr.{sepstr}
use ab_dyeing.Util.Decimal.{atoi_u32}
use ab_dyeing.Xxtea.{word, int_top, decrypt}

-- `from` and `to` are `int32_t`, and are compared as `unsigned int`.
pub record IpInfo : Type 0 where
  pub from : ℕ
  pub to : ℕ
  pub find : ℕ
  pub opera : Bytes
  pub city : Bytes
  pub province : Bytes
  pub country : Bytes

-- `INV_KEY`.
abbrev pub inv_key : Bytes
inv_key = codes "INV!@#$)(*!293sF"

-- An element that `resize` adds.
abbrev pub blank_info : IpInfo
blank_info = record {
  from = 0;
  to = 0;
  find = 0;
  opera = [];
  city = [];
  province = [];
  country = [];
}

-- The four cities that are provinces, in UTF-8.
unfoldable pub is_city_province : Bytes → Bool
unfolding eqb
is_city_province p =
    eqb p (0xE5 ∷ 0x8C ∷ 0x97 ∷ 0xE4 ∷ 0xBA ∷ 0xAC ∷ [])
    || (eqb p (0xE4 ∷ 0xB8 ∷ 0x8A ∷ 0xE6 ∷ 0xB5 ∷ 0xB7 ∷ [])
        || (eqb p (0xE5 ∷ 0xA4 ∷ 0xA9 ∷ 0xE6 ∷ 0xB4 ∷ 0xA5 ∷ [])
            || eqb p (0xE9 ∷ 0x87 ∷ 0x8D ∷ 0xE5 ∷ 0xBA ∷ 0x86 ∷ [])))

-- A line with its fields cut; one of fewer than five fields is passed over.
unfoldable pub info_of : List Bytes → Option IpInfo
unfolding is_city_province atoi_u32
info_of (from ∷ to ∷ opera ∷ city ∷ province ∷ more) = some (record {
  from = atoi_u32 from;
  to = atoi_u32 to;
  find = 0;
  opera = opera;
  city = if eqb city (codes "unknown") && is_city_province province then province else city;
  province = province;
  country = [];
})
info_of _ = none

abbrev pub cons_info : Option IpInfo → List IpInfo → List IpInfo
cons_info none infos = infos
cons_info (some i) infos = i ∷ infos

-- What the loop over the lines pushes.
unfoldable pub infos_of : List Bytes → List IpInfo
unfolding info_of sepstr
infos_of [] = []
infos_of (line ∷ lines) = cons_info (info_of (sepstr line (codes "|") false)) (infos_of lines)

unfoldable pub blank_infos : ℕ → List IpInfo
blank_infos zero = []
blank_infos (suc n) = blank_info ∷ blank_infos n

-- `_infos.resize(n)`.
unfoldable pub resize : ℕ → List IpInfo → List IpInfo
unfolding blank_infos
resize n infos = take n infos ++ blank_infos (n - length infos)

-- What `init` returns: 0, -1 and -2.
pub data InitCode : Type 0 where
  loaded no_file no_lines : InitCode

-- `file` is what can be read of the file, nothing if it cannot be opened. The lines are pushed behind
-- as many elements as there are lines.
unfoldable pub init : Bytes → List IpInfo → Outcome (InitCode × List IpInfo)
unfolding decrypt sepstr resize infos_of
init file infos =
    if is_empty file
    then done (no_file, infos)
    else (decrypt file inv_key >>= λ tbs.
        let ips = sepstr tbs (codes "\n") false in
        if is_empty ips
        then done (no_lines, infos)
        else done (loaded, resize (length ips) infos ++ infos_of ips))

abbrev pub covers : IpInfo → ℕ → Bool
covers e ip = leb e.from ip && leb ip e.to

-- `while (low <= high)` over the elements from `low` up to `top`, which is `high + 1`, with fuel:
-- the element that is found, with the number of rounds. `low + high` is a sum of `int`s.
unfoldable pub search : ℕ → List IpInfo → ℕ → ℕ → ℕ → ℕ → Outcome (Option (IpInfo × ℕ))
search zero infos ip low top find = undefined
search (suc fuel) infos ip low top find =
    let mid = (low + (top - 1)) / 2 in
    let round : Outcome (Option (IpInfo × ℕ)) = elim (get_elem? infos mid) [
      | none ↦ undefined
      | some e ↦
          let rest =
            search fuel infos ip (if ltb e.to ip then mid + 1 else low)
              (if ltb ip e.from then mid else top) (find + 1) in
          if covers e ip then done (some (e, find + 1)) else rest
    ] in
    if ltb low top then (if leb int_top (low + (top - 1)) then undefined else round) else done none

-- What is written to `info` where an element is found.
unfoldable pub found : IpInfo → Option (IpInfo × ℕ) → Outcome (Bool × IpInfo)
found info none = done (false, info)
found info (some (e, find)) = done (
  true,
  record info {
    opera = e.opera;
    city = e.city;
    province = e.province;
    country = e.country;
    find = find;
  },
)

-- `high + 1`, where `high` is the `size_t` before the number of elements as an `int`.
abbrev pub search_top : ℕ → ℕ
search_top size = let high = (size + 2 ^ 64 - 1) % word in if leb int_top high then 0 else high + 1

-- `getIPInfo`: true for 0, with what it has written to `info`, and false for -1.
unfoldable pub get_ip_info : List IpInfo → ℕ → IpInfo → Outcome (Bool × IpInfo)
unfolding search found
get_ip_info infos ip info =
    search (suc (length infos)) infos ip 0 (search_top (length infos)) 0 >>= found info
