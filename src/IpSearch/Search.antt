-- ===== src/IpSearch/Search.antt =====
-- The search by halving ends, and finds an element that covers the address exactly if there is one.
use ab_dyeing.Base.{
  ℕ, zero, suc, ◌+◌, ◌-◌, ◌/◌, ◌≤◌, ◌<◌, ◌≡◌, refl, arith, Bool, true, false, Option, none, some,
  List, [], ◌∷◌, length, get_elem?, leb, ltb, if◌then◌else◌, Bool-cases, inl, inr,
}
use native.Mathlib.Decide.{dec_lt}
use ab_dyeing.Outcome.{Outcome, done, throws, undefined, ◌>>=◌}
use ab_dyeing.Xxtea.{int_top}
use ab_dyeing.IpSearch.{IpInfo, covers, search, found, search_top, get_ip_info}

-- The element at an index.
abbrev pub At : List IpInfo → ℕ → IpInfo → Type 0
At infos j e = get_elem? infos j ≡ some e

-- Both ends of the ranges rise, weakly, from each element to the later ones.
abbrev pub IsRising : List IpInfo → Type 0
IsRising infos =
    (i j : ℕ) (a b : IpInfo)
    → i ≤ j
    → At infos i a
    → At infos j b
    → (a.from ≤ b.from) × (a.to ≤ b.to)

-- What a search comes to: it finds an element that covers the address, in some rounds, or there is
-- none.
abbrev pub Found : List IpInfo → ℕ → Outcome (Option (IpInfo × ℕ)) → Type 0
Found infos ip (done (some (e, n))) =
    ((j : ℕ) × (At infos j e)) × (covers e ip ≡ true) × (n ≤ length infos)
Found infos ip (done none) = (j : ℕ) (e : IpInfo) → At infos j e → covers e ip ≡ false
Found infos ip (throws x) = ⊥
Found infos ip undefined = ⊥

get_elem?-some : (infos : List IpInfo) (j : ℕ) → j < length infos → (e : IpInfo) × (At infos j e)
get_elem?-some [] j h = absurd (omega arith)
get_elem?-some (x ∷ xs) zero h = (x, refl)
get_elem?-some (x ∷ xs) (suc j) h = get_elem?-some xs j (omega arith)

get_elem?-length : (infos : List IpInfo) (j : ℕ) (e : IpInfo) → At infos j e → j < length infos
get_elem?-length [] j e h = cc
get_elem?-length (x ∷ xs) zero e h = omega arith
get_elem?-length (x ∷ xs) (suc j) e h = omega (arith, get_elem?-length xs j e h)

search_top-small : (size : ℕ) → size ≤ 1073741824 → search_top size ≡ size
search_top-small size h = ground arith

module _ (infos : List IpInfo) (rising : IsRising infos) (few : length infos ≤ 1073741824)
    (ip : ℕ) where
  -- What covers the address stands between the bounds.
  abbrev Between : ℕ → ℕ → Type 0
  Between low top = (j : ℕ) (e : IpInfo) → At infos j e → covers e ip ≡ true → (low ≤ j) × (j < top)

  module _ (low top mid : ℕ) (e : IpInfo) (at : At infos mid e) (not_it : covers e ip ≡ false) where
    abbrev low' : ℕ
    low' = if ltb e.to ip then mid + 1 else low

    abbrev top' : ℕ
    top' = if ltb ip e.from then mid else top

    -- An element that is passed over leaves the others between the new bounds.
    Between-next : Between low top → Between low' top'
    Between-next b j a atj c = elim (dec_lt j mid) [
      | yes below ↦ ground (arith, rising j mid a e (omega arith) atj at, b j a atj c)
      | no above ↦ elim (dec_lt mid j) [
        | yes over ↦ ground (arith, rising mid j e a (omega arith) at atj, b j a atj c)
        | no same ↦ absurd (it j a atj c (omega arith))
      ]
    ]
      where
        it : (j : ℕ) (a : IpInfo) → At infos j a → covers a ip ≡ true → j ≡ mid → ⊥
        it j a atj c eq =
            let some_same : get_elem? infos j ≡ some e = rw eq at in let same : a ≡ e = cc in cc

    -- There are fewer elements between them.
    closer : low ≤ mid → mid < top → (top' - low') + 1 ≤ top - low
    closer h k = ground arith

  -- `low + high` fits an `int`.
  sum_fits : (low top : ℕ) → top ≤ length infos → low < top → leb int_top (low + (top - 1)) ≡ false
  sum_fits low top le lt = ground arith

  search-Found :
      (fuel low top find : ℕ)
      → top ≤ length infos
      → top - low < fuel
      → find + (top - low) ≤ length infos
      → Between low top
      → Found infos ip (search fuel infos ip low top find)
  unfolding search
  search-Found zero low top find le lt count b = absurd (omega arith)
  search-Found (suc fuel) low top find le lt count b = elim (Bool-cases (ltb low top)) [
    | inr ended ↦ rw ended (λ j e at. elim (Bool-cases (covers e ip)) [
      | inl c ↦ absurd (ground (arith, b j e at c))
      | inr c ↦ c
    ])
    | inl more ↦
        let mid = (low + (top - 1)) / 2 in
        let inside : mid < length infos = ground arith in
        let (e, at) = get_elem?-some infos mid inside in
        let fits : leb int_top (low + (top - 1)) ≡ false = sum_fits low top le (ground arith) in
        elim (Bool-cases (covers e ip)) [
          | inl c ↦ rw (more, fits, at, c) ((mid, at), c, ground arith)
          | inr c ↦
              let near : (top' low top mid e at c - low' low top mid e at c) + 1 ≤ top - low =
                closer low top mid e at c (ground arith) (ground arith) in
              rw (more, fits, at, c)
                (search-Found fuel (low' low top mid e at c) (top' low top mid e at c) (find + 1)
                  (ground arith) (omega arith) (omega arith) (Between-next low top mid e at c b))
        ]
  ]

  search_top-length : search_top (length infos) ≡ length infos
  search_top-length = search_top-small (length infos) few

  -- The search that `getIPInfo` makes.
  pub search_all-Found :
      Found infos ip (search (suc (length infos)) infos ip 0 (search_top (length infos)) 0)
  search_all-Found = rw search_top-length (
      search-Found (suc (length infos)) 0 (length infos) 0 (omega arith) (omega arith) (omega arith)
        (λ j e at c. (omega arith, get_elem?-length infos j e at)))

-- What `getIPInfo` does: it returns 0 with the texts of an element that covers the address, after at
-- most so many rounds, or -1 where none does, and then changes nothing.
abbrev pub Answered : ℕ → List IpInfo → ℕ → IpInfo → Outcome (Bool × IpInfo) → Type 0
Answered bound infos ip info (done (true, r)) =
    (j : ℕ) × (e : IpInfo) × (At infos j e)
    × (covers e ip ≡ true)
    × (r.find ≤ bound)
    × (r ≡ record info {
      opera = e.opera;
      city = e.city;
      province = e.province;
      country = e.country;
      find = r.find;
    })
Answered bound infos ip info (done (false, r)) =
    (r ≡ info) × ((j : ℕ) (e : IpInfo) → At infos j e → covers e ip ≡ false)
Answered bound infos ip info (throws x) = ⊥
Answered bound infos ip info undefined = ⊥

answer :
    (infos : List IpInfo) (ip : ℕ) (info : IpInfo) (r : Outcome (Option (IpInfo × ℕ)))
    → Found infos ip r
    → Answered (length infos) infos ip info (r >>= found info)
unfolding found
answer infos ip info (done (some (e, n))) ((j, at), c, few) = (j, e, at, c, few, refl)
answer infos ip info (done none) none_covers = (refl, none_covers)
answer infos ip info (throws x) h = h
answer infos ip info undefined h = h

-- On a table of at most 2 ^ 30 elements whose ranges rise, `getIPInfo` ends: it returns 0, with the texts of an element that
-- covers the address and a number of rounds that is no more than the elements, or -1, and then no
-- element covers it and `info` is as before.
pub get_ip_info-Answered :
    (infos : List IpInfo) (ip : ℕ) (info : IpInfo)
    → IsRising infos
    → length infos ≤ 1073741824
    → Answered (length infos) infos ip info (get_ip_info infos ip info)
unfolding get_ip_info
get_ip_info-Answered infos ip info rising few =
    answer infos ip info (search (suc (length infos)) infos ip 0 (search_top (length infos)) 0)
      (search_all-Found infos rising few ip)
