-- ===== src/Util/Decimal.antt =====
-- Decimal numbers of the C library as the server uses them: `%d` of `sprintf`, and `atoi` and
-- `atol`, which are `strtol` to base ten on a 64-bit long. `strtol` skips white space, reads a
-- sign and the digits that follow, and stops at the ends of the range of `long`.
pub mod RoundTrip
use ab_dyeing.Base.{
  ℕ, zero, suc, ◌+◌, ◌-◌, ◌*◌, ◌/◌, ◌%◌, ◌^◌, Bool, true, false, ◌&&◌, ◌||◌, [], ◌∷◌, Bytes, ltb,
  leb, ◌==◌, if◌then◌else◌,
}

-- `show` for a number that is not negative. Each round takes off the last digit.
unfoldable pub show_loop : ℕ → ℕ → Bytes → Bytes
show_loop zero n out = out
show_loop (suc fuel) n out =
    let rest = show_loop fuel (n / 10) ((b'0' + n % 10) ∷ out) in
    if ltb n 10 then (b'0' + n) ∷ out else rest

unfoldable pub show : ℕ → Bytes
unfolding show_loop
show n = show_loop (n + 1) n []

unfoldable pub is_digit : ℕ → Bool
is_digit c = leb b'0' c && leb c b'9'

-- `isspace` in the C locale.
unfoldable pub is_space : ℕ → Bool
is_space c = c == b' ' || (leb 9 c && leb c 13)

unfoldable pub skip_spaces : Bytes → Bytes
unfolding is_space
skip_spaces [] = []
skip_spaces (c ∷ s) = if is_space c then skip_spaces s else c ∷ s

unfoldable pub read_digits : ℕ → Bytes → ℕ
unfolding is_digit
read_digits n [] = n
read_digits n (c ∷ s) =
    let rest = read_digits (n * 10 + (c - b'0')) s in if is_digit c then rest else n

-- A value of type `long`.
pub record Long : Type 0 where
  pub negative : Bool
  pub magnitude : ℕ

abbrev min_nat : ℕ → ℕ → ℕ
min_nat a b = if leb a b then a else b

unfoldable pub clamp : Bool → ℕ → Long
clamp negative n = record {
  negative = negative;
  magnitude = if negative then min_nat n (2 ^ 63) else min_nat n (2 ^ 63 - 1);
}

unfoldable pub signed : Bytes → Long
unfolding read_digits clamp
signed [] = clamp false 0
signed (c ∷ s) =
    if c == b'-'
    then clamp true (read_digits 0 s)
    else if c == b'+'
    then clamp false (read_digits 0 s)
    else clamp false (read_digits 0 (c ∷ s))

unfoldable pub strtol : Bytes → Long
unfolding skip_spaces signed
strtol s = signed (skip_spaces s)

-- The conversion of a `long` to `uint64_t`.
abbrev pub to_u64 : Long → ℕ
to_u64 z = if z.negative then (2 ^ 64 - z.magnitude) % 2 ^ 64 else z.magnitude

-- `uint64_t t = std::atol(s)`.
unfoldable pub atol_u64 : Bytes → ℕ
unfolding strtol
atol_u64 s = to_u64 (strtol s)

-- `uint32 x = std::atoi(s)`: the long is cut to 32 bits.
unfoldable pub atoi_u32 : Bytes → ℕ
unfolding strtol
atoi_u32 s = to_u64 (strtol s) % 2 ^ 32
