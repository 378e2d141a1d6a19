-- ===== src/Tests/Ips.antt =====
-- A text and a table that are encrypted and read.
use ab_dyeing.Base.{
  ℕ, ◌*◌, ◌≡◌, ◌⊎◌, inl, inr, refl, sym, subst, suc, zero, List, [], ◌∷◌, Bytes, codes, length, eqb,
  arith, false,
}
use ab_dyeing.Outcome.{done}
use ab_dyeing.Util.Sepstr.{sepstr, sepstr_loop, find_first_of, index_of, in_set, push_piece}
use ab_dyeing.Util.Decimal.{atoi_u32}
use ab_dyeing.Xxtea.{encrypt, decrypt}
use ab_dyeing.Xxtea.RoundTrip.{decrypt-encrypt, decrypt-encrypt_empty}
use ab_dyeing.IpSearch.{IpInfo, inv_key, blank_info, info_of, infos_of, loaded, init, get_ip_info}
use ab_dyeing.IpSearch.Search.{At, IsRising, Answered, get_ip_info-Answered}
use ab_dyeing.IpSearch.Loaded.{get_ip_info-init}

decrypt-encrypt_example :
    (c : Bytes) × (encrypt (codes "hello") inv_key ≡ done c)
    × (decrypt c inv_key ≡ done (codes "hello"))
decrypt-encrypt_example =
    decrypt-encrypt (codes "hello") (omega arith) (omega arith) inv_key (omega arith) (λ e. cc)

decrypt-encrypt_empty_example :
    (c : Bytes) × (encrypt [] inv_key ≡ done c) × (decrypt c inv_key ≡ done c) × (length c ≡ 4)
decrypt-encrypt_empty_example = decrypt-encrypt_empty inv_key (omega arith)

abbrev table_text : Bytes
table_text = codes "1|5|x|y|z\n8|9|u|v|w"

abbrev first : IpInfo
first = record {
  from = 1;
  to = 5;
  find = 0;
  opera = codes "x";
  city = codes "y";
  province = codes "z";
  country = [];
}

abbrev second : IpInfo
second = record {
  from = 8;
  to = 9;
  find = 0;
  opera = codes "u";
  city = codes "v";
  province = codes "w";
  country = [];
}

abbrev cut : List Bytes
cut = sepstr table_text (codes "\n") false

cut-lines : infos_of cut ≡ first ∷ second ∷ []
unfolding infos_of info_of sepstr sepstr_loop find_first_of index_of in_set push_piece atoi_u32 eqb
cut-lines = refl

two :
    (i : ℕ) (e : IpInfo)
    → At (first ∷ second ∷ []) i e
    → ((i ≡ 0) × (e ≡ first)) ⊎ ((i ≡ 1) × (e ≡ second))
two zero e at = inl (refl, cc)
two (suc zero) e at = inr (refl, cc)
two (suc (suc i)) e at = cc

first-second-IsRising : IsRising (first ∷ second ∷ [])
first-second-IsRising i j a b le ati atj = elim (two i a ati) [
  | inl (ei, ea) ↦ elim (two j b atj) [
    | inl (ej, eb) ↦ rw (ea, eb) (omega arith)
    | inr (ej, eb) ↦ rw (ea, eb) (omega arith)
  ]
  | inr (ei, ea) ↦ elim (two j b atj) [
    | inl (ej, eb) ↦ absurd (omega arith)
    | inr (ej, eb) ↦ rw (ea, eb) (omega arith)
  ]
]

get_ip_info-init_example :
    (c : Bytes) × (table : List IpInfo) × (encrypt table_text inv_key ≡ done c)
    × (init c [] ≡ done (loaded, table))
    × Answered (2 * length cut) (infos_of cut) 3 blank_info (get_ip_info table 3 blank_info)
unfolding sepstr sepstr_loop find_first_of index_of in_set push_piece
get_ip_info-init_example =
    get_ip_info-init table_text 3 blank_info (omega arith) (omega arith) refl (λ e. cc)
      (subst IsRising (sym cut-lines) first-second-IsRising) (omega arith) (omega arith)

get_ip_info-Answered_example :
    Answered 2 (first ∷ second ∷ []) 8 blank_info (get_ip_info (first ∷ second ∷ []) 8 blank_info)
get_ip_info-Answered_example =
    get_ip_info-Answered (first ∷ second ∷ []) 8 blank_info first-second-IsRising (omega arith)
