-- ===== src/Xxtea.antt =====
-- `INV_xxTea` of common/inutil/inv_xxtea.cpp: the encryption of texts by a key of 16 bytes. The
-- bytes of an `unsigned int` stand with the lowest first, as on the machines that this runs on.
pub mod Round
pub mod Packed
pub mod Rounds
pub mod RoundTrip
use Prim.Native.Nat.{bit_xor}
use ab_dyeing.Base.{
  ℕ, zero, suc, ◌+◌, ◌-◌, ◌*◌, ◌/◌, ◌%◌, Bool, true, false, ◌&&◌, List, [], ◌∷◌, ◌++◌, Bytes,
  length, take, ltb, leb, ◌==◌, if◌then◌else◌,
}
use ab_dyeing.Outcome.{Outcome, done, throws, undefined, length_error, ◌>>=◌}

-- 2 ^ 32.
abbrev pub word : ℕ
word = 4294967296

abbrev pub delta : ℕ
delta = 0x9E3779B9

-- The words of some bytes, four in each; the rest that fills no word is dropped.
unfoldable pub words_of : Bytes → List ℕ
words_of (a ∷ b ∷ c ∷ d ∷ s) = (a + (b + (c + d * 256) * 256) * 256) ∷ words_of s
words_of _ = []

unfoldable pub bytes_of : List ℕ → Bytes
bytes_of [] = []
bytes_of (w ∷ ws) = w % 256 ∷ (w / 256) % 256 ∷ (w / 65536) % 256 ∷ w / 16777216 ∷ bytes_of ws

-- `k[i]`, for an index below four.
unfoldable pub key_word : List ℕ → ℕ → ℕ
key_word [] i = 0
key_word (k ∷ ks) zero = k
key_word (k ∷ ks) (suc i) = key_word ks i

-- `mx`, where `e` is `sum >> 2 & 3`. The sums bind tighter than `^`.
unfoldable pub mix : List ℕ → ℕ → ℕ → ℕ → ℕ → ℕ
unfolding key_word
mix k sum i z y =
    let e = (sum / 4) % 4 in
    bit_xor ((bit_xor (z / 32) ((y * 4) % word) + bit_xor (y / 8) ((z * 16) % word)) % word)
      ((bit_xor sum y + bit_xor (key_word k (bit_xor (i % 4) e)) z) % word)

-- `v[i] + mx` and `v[i] - mx`.
unfoldable pub add_word : ℕ → ℕ → ℕ
add_word x m = (x + m) % word

unfoldable pub sub_word : ℕ → ℕ → ℕ
sub_word x m = (x + word - m % word) % word

-- `v[n]`, the last of the words.
abbrev pub last_word : ℕ → List ℕ → ℕ
last_word x [] = x
last_word x (w ∷ ws) = last_word w ws

abbrev pub first_word : ℕ → List ℕ → ℕ
first_word x [] = x
first_word x (w ∷ ws) = w

-- The words from the index `i` on, changed from left to right: `z` is the word before, changed, and
-- `first` is `v[0]` as it stands at the last word.
unfoldable pub forward : List ℕ → ℕ → ℕ → ℕ → ℕ → List ℕ → List ℕ
unfolding add_word
forward k sum i z first [] = []
forward k sum i z first (x ∷ ws) =
    let x' = add_word x (mix k sum i z (first_word first ws)) in
    x' ∷ forward k sum (i + 1) x' first ws

-- A round of `xxtea_encrypt`: `v[0]` first. Its neighbour before is the last word; a single word is
-- its own neighbour.
unfoldable pub encrypt_round : List ℕ → ℕ → List ℕ → List ℕ
unfolding forward
encrypt_round k sum [] = []
encrypt_round k sum (x ∷ ws) =
    let x' = add_word x (mix k sum 0 (last_word x ws) (first_word x ws)) in
    x' ∷ forward k sum 1 x' x' ws

-- The words from the index `i` on, changed from right to left: `z` is the word before, as it was, and
-- `first` is `v[0]`, which is not changed yet.
unfoldable pub backward : List ℕ → ℕ → ℕ → ℕ → ℕ → List ℕ → List ℕ
unfolding sub_word
backward k sum i z first [] = []
backward k sum i z first (x ∷ ws) =
    let rest = backward k sum (i + 1) x first ws in
    sub_word x (mix k sum i z (first_word first rest)) ∷ rest

-- A round of `xxtea_decrypt`: `v[0]` last.
unfoldable pub decrypt_round : List ℕ → ℕ → List ℕ → List ℕ
unfolding backward
decrypt_round k sum [] = []
decrypt_round k sum (x ∷ ws) =
    let rest = backward k sum 1 x x ws in
    sub_word x (mix k sum 0 (last_word x rest) (first_word x rest)) ∷ rest

-- `while (0 < q--) { sum = sum + delta; … }`.
unfoldable pub encrypt_rounds : ℕ → List ℕ → ℕ → List ℕ → List ℕ
unfolding encrypt_round
encrypt_rounds zero k sum v = v
encrypt_rounds (suc q) k sum v =
    let sum' = (sum + delta) % word in encrypt_rounds q k sum' (encrypt_round k sum' v)

-- `while (sum != 0) { …; sum = sum - delta; }`, with fuel.
unfoldable pub decrypt_rounds : ℕ → List ℕ → ℕ → List ℕ → Outcome (List ℕ)
unfolding decrypt_round
decrypt_rounds zero k sum v = undefined
decrypt_rounds (suc fuel) k sum v =
    let rest = decrypt_rounds fuel k ((sum + word - delta) % word) (decrypt_round k sum v) in
    if sum == 0 then done v else rest

-- `q`, for so many words.
abbrev pub rounds_of : ℕ → ℕ
rounds_of words = 6 + 52 / words

-- `memcpy(k, key, 16)`: a key is followed by a zero byte, and may be shorter by that one.
unfoldable pub key_of : Bytes → Outcome (List ℕ)
unfolding words_of
key_of key = if ltb (length key) 15 then undefined else done (words_of (take 16 (key ++ 0 ∷ [])))

-- The zero bytes that fill the last word.
unfoldable pub padding : ℕ → Bytes
padding n =
    if n % 4 == 0
    then []
    else if n % 4 == 1
    then 0 ∷ 0 ∷ 0 ∷ []
    else if n % 4 == 2
    then 0 ∷ 0 ∷ []
    else 0 ∷ []

-- `xxtea_encrypt`, for the bytes of a text, fewer than 2 ^ 31 - 8. The text is followed by its length.
unfoldable pub xxtea_encrypt : Bytes → Bytes → Outcome Bytes
unfolding key_of words_of bytes_of padding encrypt_rounds
xxtea_encrypt text key = do
  k ← key_of key
  let v = words_of (text ++ padding (length text)) ++ length text ∷ []
  done (bytes_of (encrypt_rounds (rounds_of (length v)) k 0 v))

-- A `size_t` as an `int`, which is negative from here on.
abbrev pub int_top : ℕ
int_top = 2147483648

-- `len` and `slen` are `int`s: `resize` throws for a `len` below zero, and no bytes can be copied
-- for an `slen` below zero. From 2 ^ 32 bytes on, only the first of them are taken.
unfoldable pub encrypt : Bytes → Bytes → Outcome Bytes
unfolding xxtea_encrypt
encrypt text key =
    let slen = length text % word in
    if leb int_top ((length text + 8) % word)
    then throws length_error
    else if leb int_top slen
    then undefined
    else xxtea_encrypt (take slen text) key

-- What is left of the bytes at the end: the last word says how many are the text's.
unfoldable pub cut_text : Bytes → List ℕ → Bytes
unfolding bytes_of
cut_text given v =
    let n = last_word 0 v in
    if ltb n int_top && leb n ((length v - 1) * 4) then take n (bytes_of v) else given

-- `xxtea_decrypt`, for fewer than 2 ^ 31 bytes, where `given` is given back for a negative result: a text that
-- is no whole number of words, or is a single word. The address of the first of no bytes is taken
-- for an empty text.
unfoldable pub xxtea_decrypt : Bytes → Bytes → Bytes → Outcome Bytes
unfolding key_of words_of decrypt_rounds cut_text
xxtea_decrypt given text key =
    let v = words_of text in
    let keyed = key_of key >>= λ k.
    if length v == 1
    then done given
    else (decrypt_rounds 59 k ((rounds_of (length v) * delta) % word) v >>= λ v'.
        done (cut_text given v')) in
    if length text % 4 == 0 then (if length text == 0 then undefined else keyed) else done given

-- `len` is an `int`; for a negative result what was given is given back.
unfoldable pub decrypt : Bytes → Bytes → Outcome Bytes
unfolding xxtea_decrypt
decrypt given key =
    let len = length given % word in
    if leb int_top len then throws length_error else xxtea_decrypt given (take len given) key
