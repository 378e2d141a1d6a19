-- ===== src/IpSearch/Loaded.antt =====
-- A table that is encrypted, loaded and searched.
use ab_dyeing.Base.{
  ◌⊎◌, inl, inr, ℕ, zero, suc, ◌+◌, ◌-◌, ◌*◌, ◌≤◌, ◌<◌, ◌≡◌, ◌≢◌, refl, sym, subst, ap, arith, Bool,
  true, false, Option, none, some, List, [], ◌∷◌, ◌++◌, All, Bytes, codes, length, length-append,
  is_empty,
}
use ab_dyeing.Outcome.{Outcome, done, throws, undefined}
use ab_dyeing.Util.Sepstr.{sepstr}
use ab_dyeing.Xxtea.{encrypt, decrypt}
use ab_dyeing.Xxtea.Packed.{IsByte}
use ab_dyeing.Xxtea.RoundTrip.{decrypt-encrypt}
use ab_dyeing.IpSearch.{
  IpInfo, inv_key, blank_info, info_of, cons_info, infos_of, blank_infos, resize, loaded, init,
  covers, get_ip_info,
}
use ab_dyeing.IpSearch.Search.{At, IsRising, Answered, get_ip_info-Answered}

length-blank_infos : (n : ℕ) → length (blank_infos n) ≡ n
unfolding blank_infos
length-blank_infos zero = refl
length-blank_infos (suc n) = ap suc (length-blank_infos n)

-- The elements of a table behind so many blank ones.
blank_or_behind :
    (n : ℕ) (xs : List IpInfo) (j : ℕ) (e : IpInfo)
    → At (blank_infos n ++ xs) j e
    → (e ≡ blank_info) × (j < n) ⊎ ((i : ℕ) × (At xs i e) × (j ≡ n + i))
unfolding blank_infos
blank_or_behind zero xs j e at = inr (j, at, omega arith)
blank_or_behind (suc n) xs zero e at = inl (cc, omega arith)
blank_or_behind (suc n) xs (suc j) e at = elim (blank_or_behind n xs j e at) [
  | inl (b, lt) ↦ inl (b, omega arith)
  | inr (i, ati, k) ↦ inr (i, ati, omega arith)
]

behind :
    (n : ℕ) (xs : List IpInfo) (i : ℕ) (e : IpInfo)
    → At xs i e
    → (j : ℕ) × (At (blank_infos n ++ xs) j e)
unfolding blank_infos
behind zero xs i e at = (i, at)
behind (suc n) xs i e at = let (j, atj) = behind n xs i e at in (suc j, atj)

blank_infos-IsRising : (n : ℕ) (xs : List IpInfo) → IsRising xs → IsRising (blank_infos n ++ xs)
blank_infos-IsRising n xs h i j a b le ati atj = elim (blank_or_behind n xs i a ati) [
  | inl (ea, lt) ↦
      (let u : a.from ≡ 0 = ap (λ x. x.from) ea in
        let v : a.to ≡ 0 = ap (λ x. x.to) ea in omega arith)
  | inr (i', ai, ei) ↦ elim (blank_or_behind n xs j b atj) [
    | inl (eb, ltb) ↦ absurd (omega arith)
    | inr (j', bj, ej) ↦ h i' j' a b (omega arith) ai bj
  ]
]

blank-covers : (ip : ℕ) → 0 < ip → covers blank_info ip ≡ false
blank-covers ip h = ground arith

-- An address other than 0 finds behind blank elements what it finds without them.
answered-blank_infos :
    (n bound : ℕ) (xs : List IpInfo) (ip : ℕ) (info : IpInfo) (r : Outcome (Bool × IpInfo))
    → 0 < ip
    → Answered bound (blank_infos n ++ xs) ip info r
    → Answered bound xs ip info r
answered-blank_infos n bound xs ip info (done (true, r)) pos (j, e, at, c, few, same) =
    elim (blank_or_behind n xs j e at) [
      | inl (b, lt) ↦
          let no_cover : covers e ip ≡ false =
            subst (λ x. covers x ip ≡ false) (sym b) (blank-covers ip pos) in
          absurd (false_true (covers e ip) no_cover c)
      | inr (i, ati, k) ↦ (i, e, ati, c, few, same)
    ]
  where
    false_true : (b : Bool) → b ≡ false → b ≡ true → ⊥
    false_true b f t = cc
answered-blank_infos n bound xs ip info (done (false, r)) pos (same, none_covers) =
    (same, λ i e ati. let (j, atj) = behind n xs i e ati in none_covers j e atj)
answered-blank_infos n bound xs ip info (throws x) pos h = h
answered-blank_infos n bound xs ip info undefined pos h = h

within :
    (m n : ℕ) (xs : List IpInfo) (ip : ℕ) (info : IpInfo) (r : Outcome (Bool × IpInfo))
    → m ≤ n
    → Answered m xs ip info r
    → Answered n xs ip info r
within m n xs ip info (done (true, r)) le (j, e, at, c, few, same) =
    (j, e, at, c, omega arith, same)
within m n xs ip info (done (false, r)) le h = h
within m n xs ip info (throws x) le h = h
within m n xs ip info undefined le h = h

length-infos_of : (lines : List Bytes) → length (infos_of lines) ≤ length lines
unfolding infos_of
length-infos_of [] = omega arith
length-infos_of (line ∷ lines) =
    at_most_one (info_of (sepstr line (codes "|") false)) (infos_of lines) (length lines)
      (length-infos_of lines)
  where
    at_most_one :
        (o : Option IpInfo) (xs : List IpInfo) (n : ℕ)
        → length xs ≤ n
        → length (cons_info o xs) ≤ suc n
    at_most_one none xs n h = omega arith
    at_most_one (some i) xs n h = omega arith

encrypted-filled : (c key text : Bytes) → decrypt c key ≡ done text → is_empty c ≡ false
unfolding decrypt
encrypted-filled [] key text e = absurd (cc)
encrypted-filled (x ∷ c) key text e = refl

resize-nil : (n : ℕ) → resize n [] ≡ blank_infos n
unfolding resize
resize-nil zero = refl
resize-nil (suc n) = let same : suc n - 0 ≡ suc n = omega arith in ap blank_infos same

-- The table that a new object loads from the encrypted lines.
init-encrypt :
    (text : Bytes)
    → All IsByte text
    → length text < 2147483640
    → is_empty (sepstr text (codes "\n") false) ≡ false
    → text ≢ []
    → (c : Bytes) × (encrypt text inv_key ≡ done c)
      × (init c []
          ≡ done (
            loaded,
            blank_infos (length (sepstr text (codes "\n") false))
                ++ infos_of (sepstr text (codes "\n") false),
          ))
unfolding init
init-encrypt text bytes small lines filled =
    let (c, e, d) = decrypt-encrypt text bytes small inv_key (omega arith) filled in
    (
      c,
      e,
      rw
          (
            encrypted-filled c inv_key text d,
            d,
            lines,
            resize-nil (length (sepstr text (codes "\n") false)),
          )
          refl,
    )

-- The encrypted text of a table, shorter than 2 ^ 31 - 8 bytes, of at least one line and at most 2 ^ 29,
-- whose ranges rise: it is loaded into a new
-- object, and a search for an address other than 0 ends, and finds a line that covers the address
-- exactly if there is one, in no more rounds than twice the number of lines.
pub get_ip_info-init :
    (text : Bytes) (ip : ℕ) (info : IpInfo)
    → All IsByte text
    → length text < 2147483640
    → is_empty (sepstr text (codes "\n") false) ≡ false
    → text ≢ []
    → IsRising (infos_of (sepstr text (codes "\n") false))
    → length (sepstr text (codes "\n") false) ≤ 536870912
    → 0 < ip
    → (c : Bytes) × (table : List IpInfo) × (encrypt text inv_key ≡ done c)
      × (init c [] ≡ done (loaded, table))
      × Answered
          (2 * length (sepstr text (codes "\n") false))
          (infos_of (sepstr text (codes "\n") false))
          ip
          info
          (get_ip_info table ip info)
get_ip_info-init text ip info bytes small lines filled rising few pos =
    let ips = sepstr text (codes "\n") false in
    let (c, e, l) = init-encrypt text bytes small lines filled in
    let table = blank_infos (length ips) ++ infos_of ips in
    let size : length table ≤ 2 * length ips = omega (
      arith,
      length-append (blank_infos (length ips)) (infos_of ips),
      length-blank_infos (length ips),
      length-infos_of ips,
    ) in
    (
      c,
      table,
      e,
      l,
      answered-blank_infos (length ips) (2 * length ips) (infos_of ips) ip info
          (get_ip_info table ip info) pos
          (within (length table) (2 * length ips) table ip info (get_ip_info table ip info) size (
            get_ip_info-Answered table ip info
              (blank_infos-IsRising (length ips) (infos_of ips) rising) (omega arith))),
    )
