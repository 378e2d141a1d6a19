-- ===== src/Xxtea/Packed.antt =====
-- Bytes and words: what the cast of a pointer to bytes to a pointer to words does.
use ab_dyeing.Base.{
  ℕ, ◌+◌, ◌*◌, ◌/◌, ◌%◌, ◌<◌, ◌≡◌, refl, arith, List, [], ◌∷◌, ◌++◌, All, Bytes, length,
  length-append,
}
use ab_dyeing.Xxtea.{words_of, bytes_of, padding, last_word}
use ab_dyeing.Xxtea.Round.{IsWord}

abbrev pub IsByte : ℕ → Type 0
IsByte b = b < 256

pub words_of-bytes_of : (v : List ℕ) → All IsWord v → words_of (bytes_of v) ≡ v
unfolding words_of bytes_of
words_of-bytes_of [] h = refl
words_of-bytes_of (w ∷ ws) h =
    let e : w % 256 + ((w / 256) % 256 + ((w / 65536) % 256 + (w / 16777216) * 256) * 256) * 256
        ≡ w =
      omega arith in
    rw (e, words_of-bytes_of ws (h.1)) refl

pub length-bytes_of : (v : List ℕ) → length (bytes_of v) ≡ length v * 4
unfolding bytes_of
length-bytes_of [] = refl
length-bytes_of (w ∷ ws) = omega (arith, length-bytes_of ws)

pub bytes_of-append : (u v : List ℕ) → bytes_of (u ++ v) ≡ bytes_of u ++ bytes_of v
unfolding bytes_of
bytes_of-append [] v = refl
bytes_of-append (w ∷ ws) v = rw (bytes_of-append ws v) refl

-- A number of whole words.
abbrev pub IsWhole : Bytes → Type 0
IsWhole s = length s % 4 ≡ 0

pub bytes_of-words_of : (s : Bytes) → IsWhole s → All IsByte s → bytes_of (words_of s) ≡ s
unfolding words_of bytes_of
bytes_of-words_of [] w h = refl
bytes_of-words_of (a ∷ []) w h = absurd (omega arith)
bytes_of-words_of (a ∷ b ∷ []) w h = absurd (omega arith)
bytes_of-words_of (a ∷ b ∷ c ∷ []) w h = absurd (omega arith)
bytes_of-words_of (a ∷ b ∷ c ∷ d ∷ s) w (ha, (hb, (hc, (hd, h)))) =
    let n = a + (b + (c + d * 256) * 256) * 256 in
    let ea : n % 256 ≡ a = omega arith in
    let eb : (n / 256) % 256 ≡ b = omega arith in
    let ec : (n / 65536) % 256 ≡ c = omega arith in
    let ed : n / 16777216 ≡ d = omega arith in
    let e = bytes_of-words_of s (omega arith) h in λ i. ea i ∷ eb i ∷ ec i ∷ ed i ∷ e i

pub words_of-IsWord : (s : Bytes) → All IsByte s → All IsWord (words_of s)
unfolding words_of
words_of-IsWord [] h = tt
words_of-IsWord (a ∷ []) h = tt
words_of-IsWord (a ∷ b ∷ []) h = tt
words_of-IsWord (a ∷ b ∷ c ∷ []) h = tt
words_of-IsWord (a ∷ b ∷ c ∷ d ∷ s) (ha, (hb, (hc, (hd, h)))) = (omega arith, words_of-IsWord s h)

pub length-words_of : (s : Bytes) → IsWhole s → length (words_of s) * 4 ≡ length s
unfolding words_of
length-words_of [] w = refl
length-words_of (a ∷ []) w = absurd (omega arith)
length-words_of (a ∷ b ∷ []) w = absurd (omega arith)
length-words_of (a ∷ b ∷ c ∷ []) w = absurd (omega arith)
length-words_of (a ∷ b ∷ c ∷ d ∷ s) w = omega (arith, length-words_of s (omega arith))

pub padding-IsByte : (n : ℕ) → All IsByte (padding n)
unfolding padding
padding-IsByte n = ground arith

pub padded-IsWhole : (text : Bytes) → IsWhole (text ++ padding (length text))
unfolding padding
padded-IsWhole text = ground (arith, length-append text (padding (length text)))

pub last_word-append : (x n : ℕ) (ws : List ℕ) → last_word x (ws ++ n ∷ []) ≡ n
last_word-append x n [] = refl
last_word-append x n (w ∷ ws) = last_word-append w n ws

pub All-last : (ws : List ℕ) (n : ℕ) → All IsWord ws → IsWord n → All IsWord (ws ++ n ∷ [])
All-last [] n h k = (k, tt)
All-last (w ∷ ws) n h k = (h.0, All-last ws n (h.1) k)
