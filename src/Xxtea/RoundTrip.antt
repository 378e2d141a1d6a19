-- ===== src/Xxtea/RoundTrip.antt =====
-- What is encrypted is decrypted, except the empty text.
use ab_dyeing.Base.{
  ℕ, ◌+◌, ◌-◌, ◌*◌, ◌%◌, ◌<◌, ◌≤◌, ◌≡◌, ◌≢◌, ◌∙◌, refl, ap, arith, true, false, List, [], ◌∷◌, ◌++◌,
  All, Bytes, length, take, ltb, leb, ◌==◌, Bool-cases, inl, inr, take-append, length-append,
  All-append, append_assoc,
}
use ab_dyeing.Xxtea.Packed.{
  IsByte, words_of-bytes_of, length-bytes_of, bytes_of-append, bytes_of-words_of, words_of-IsWord,
  length-words_of, padding-IsByte, padded-IsWhole, last_word-append, All-last,
}
use ab_dyeing.Outcome.{done}
use ab_dyeing.Xxtea.{
  word, int_top, words_of, bytes_of, last_word, encrypt_rounds, rounds_of, key_of, padding,
  xxtea_encrypt, encrypt, cut_text, xxtea_decrypt, decrypt,
}
use ab_dyeing.Xxtea.Round.{IsWord}
use ab_dyeing.Xxtea.Rounds.{
  decrypt_rounds-encrypt_rounds, encrypt_rounds-IsWord, length-encrypt_rounds, rounds_of-small,
  decrypt_rounds-ends,
}

take-length : (s : Bytes) → take (length s) s ≡ s
take-length [] = refl
take-length (c ∷ s) = ap (λ t. c ∷ t) (take-length s)

-- The calls on texts whose lengths fit an `int`.
encrypt-small :
    (text key : Bytes) → length text < 2147483640 → encrypt text key ≡ xxtea_encrypt text key
unfolding encrypt
encrypt-small text key h =
    let len : leb int_top ((length text + 8) % word) ≡ false = ground arith in
    let slen : length text % word ≡ length text = omega arith in
    let fits : leb int_top (length text) ≡ false = ground arith in
    rw (len, slen, fits, take-length text) refl

decrypt-small :
    (text key : Bytes) → length text < 2147483648 → decrypt text key ≡ xxtea_decrypt text text key
unfolding decrypt
decrypt-small text key h =
    let slen : length text % word ≡ length text = omega arith in
    let fits : leb int_top (length text) ≡ false = ground arith in
    rw (slen, fits, take-length text) refl

-- The decryption of the bytes of encrypted words, two or more.
decrypt-words :
    (key : Bytes) (k v : List ℕ)
    → key_of key ≡ done k
    → All IsWord v
    → 2 ≤ length v
    → length v * 4 < 2147483648
    → decrypt (bytes_of (encrypt_rounds (rounds_of (length v)) k 0 v)) key
      ≡ done (cut_text (bytes_of (encrypt_rounds (rounds_of (length v)) k 0 v)) v)
unfolding xxtea_decrypt
decrypt-words key k v ek h two fits =
    let q = rounds_of (length v) in
    let c = encrypt_rounds q k 0 v in
    let same : length c ≡ length v = length-encrypt_rounds q k 0 v in
    let size : length (bytes_of c) ≡ length v * 4 =
      length-bytes_of c ∙ ap (λ (n : ℕ). n * 4) same in
    let whole : (length (bytes_of c) % 4 == 0) ≡ true = ground arith in
    let some : (length (bytes_of c) == 0) ≡ false = ground arith in
    let more : (length c == 1) ≡ false = ground arith in
    rw
      (
        decrypt-small (bytes_of c) key (omega arith),
        whole,
        some,
        ek,
        words_of-bytes_of c (encrypt_rounds-IsWord q k 0 v h),
        more,
        same,
        decrypt_rounds-encrypt_rounds k q v h two (rounds_of-small (length v)),
      )
      refl

length-filled : (s : Bytes) → s ≢ [] → 1 ≤ length s
length-filled [] h = absurd (h refl)
length-filled (x ∷ s) h = omega arith

filled-nonzero : (s : Bytes) → s ≢ [] → (length s == 0) ≡ false
filled-nonzero [] h = absurd (h refl)
filled-nonzero (x ∷ s) h = ground arith

-- The text, the zero bytes behind it, and its length.
abbrev laid : Bytes → List ℕ
laid text = words_of (text ++ padding (length text)) ++ length text ∷ []

module _ (text : Bytes) (bytes : All IsByte text) (small : length text < 2147483640) where
  padded-IsByte : All IsByte (text ++ padding (length text))
  padded-IsByte =
      All-append IsByte text (padding (length text)) bytes (padding-IsByte (length text))

  laid-IsWord : All IsWord (laid text)
  laid-IsWord =
      All-last (words_of (text ++ padding (length text))) (length text)
        (words_of-IsWord (text ++ padding (length text)) padded-IsByte) (omega arith)

  length-laid : length (laid text) * 4 ≡ length (text ++ padding (length text)) + 4
  length-laid = omega (
    arith,
    length-append (words_of (text ++ padding (length text))) (length text ∷ []),
    length-words_of (text ++ padding (length text)) (padded-IsWhole text),
  )

  cut_text-laid : (other : Bytes) → cut_text other (laid text) ≡ text
  unfolding cut_text
  cut_text-laid other =
      let padded = text ++ padding (length text) in
      let front = words_of padded in
      let last : last_word 0 (laid text) ≡ length text = last_word-append 0 (length text) front in
      let positive : ltb (length text) 2147483648 ≡ true = ground arith in
      let room : leb (length text) ((length (laid text) - 1) * 4) ≡ true =
        ground (arith, length-laid, length-append text (padding (length text))) in
      let flat : bytes_of (laid text)
          ≡ text ++ (padding (length text) ++ bytes_of (length text ∷ [])) =
        bytes_of-append front (length text ∷ [])
        ∙ ap (λ t. t ++ bytes_of (length text ∷ []))
            (bytes_of-words_of padded (padded-IsWhole text) padded-IsByte)
        ∙ append_assoc text (padding (length text)) (bytes_of (length text ∷ [])) in
      rw (last, positive, room, flat)
        (take-append text (padding (length text) ++ bytes_of (length text ∷ [])))

  two_words : text ≢ [] → 2 ≤ length (laid text)
  two_words filled = omega (
    arith,
    length-laid,
    length-filled text filled,
    padded-IsWhole text,
    length-append text (padding (length text)),
  )

  laid-small : length (laid text) * 4 < 2147483648
  laid-small =
      unfold padding in ground (arith, length-laid, length-append text (padding (length text)))

  -- A text of one byte or more, shorter than 2 ^ 31 - 8, that is encrypted with a key of 15 bytes or more
  -- is decrypted with this key; both calls return.
  pub decrypt-encrypt :
      (key : Bytes)
      → 15 ≤ length key
      → text ≢ []
      → (c : Bytes) × (encrypt text key ≡ done c) × (decrypt c key ≡ done text)
  unfolding xxtea_encrypt key_of
  decrypt-encrypt key enough filled =
      let k = words_of (take 16 (key ++ 0 ∷ [])) in
      let long : ltb (length key) 15 ≡ false = ground arith in
      let v = laid text in
      let c = bytes_of (encrypt_rounds (rounds_of (length v)) k 0 v) in
      (
        c,
        encrypt-small text key small ∙ rw long refl,
        decrypt-words key k v (rw long refl) laid-IsWord (two_words filled) laid-small
            ∙ ap done (cut_text-laid c),
      )

encrypt-laid :
    (text key : Bytes) (k : List ℕ)
    → key_of key ≡ done k
    → xxtea_encrypt text key
      ≡ done (bytes_of (encrypt_rounds (rounds_of (length (laid text))) k 0 (laid text)))
unfolding xxtea_encrypt
encrypt-laid text key k e = rw e refl

-- The bytes of a single word are given back.
decrypt-single :
    (key : Bytes) (k v : List ℕ)
    → key_of key ≡ done k
    → All IsWord v
    → length v ≡ 1
    → decrypt (bytes_of v) key ≡ done (bytes_of v)
unfolding xxtea_decrypt
decrypt-single key k v e h one =
    let size : length (bytes_of v) ≡ 4 = omega (arith, length-bytes_of v) in
    let single : (length v == 1) ≡ true = ground arith in
    rw
      (decrypt-small (bytes_of v) key (omega (arith, size)), size, e, words_of-bytes_of v h, single)
      refl

key_of-long :
    (key : Bytes) → 15 ≤ length key → key_of key ≡ done (words_of (take 16 (key ++ 0 ∷ [])))
unfolding key_of
key_of-long key enough = let long : ltb (length key) 15 ≡ false = ground arith in rw long refl

laid-single : length (laid []) ≡ 1
unfolding words_of padding
laid-single = refl

-- Under a key of 15 bytes or more the empty text does not come back: the four bytes that stand for it
-- are given back as they are.
pub decrypt-encrypt_empty :
    (key : Bytes)
    → 15 ≤ length key
    → (c : Bytes) × (encrypt [] key ≡ done c) × (decrypt c key ≡ done c) × (length c ≡ 4)
decrypt-encrypt_empty key enough =
    let k = words_of (take 16 (key ++ 0 ∷ [])) in
    let q = rounds_of (length (laid [])) in
    let v = encrypt_rounds q k 0 (laid []) in
    let one : length v ≡ 1 = length-encrypt_rounds q k 0 (laid []) ∙ laid-single in
    (
      bytes_of v,
      encrypt-small [] key (omega arith) ∙ encrypt-laid [] key k (key_of-long key enough),
      decrypt-single key k v (key_of-long key enough)
          (encrypt_rounds-IsWord q k 0 (laid []) (laid-IsWord [] tt (omega arith))) one,
      omega (arith, length-bytes_of v, one),
    )

-- Decryption with a key of 15 bytes or more returns for each text that is not empty and shorter than
-- 2 ^ 31: its loop ends.
pub decrypt-ends :
    (text key : Bytes)
    → text ≢ []
    → length text < 2147483648
    → 15 ≤ length key
    → (out : Bytes) × (decrypt text key ≡ done out)
unfolding xxtea_decrypt
decrypt-ends text key filled fits enough =
    let small = decrypt-small text key fits in
    let long = key_of-long key enough in
    let some = filled-nonzero text filled in
    let v = words_of text in
    let (out, ends) =
      decrypt_rounds-ends (words_of (take 16 (key ++ 0 ∷ []))) (rounds_of (length v)) 59 v
        (rounds_of-small (length v)) (omega (arith, rounds_of-small (length v))) in
    elim (Bool-cases (length text % 4 == 0)) [
      | inr part ↦ (text, rw (small, part) refl)
      | inl whole ↦ elim (Bool-cases (length v == 1)) [
        | inl one ↦ (text, rw (small, whole, some, long, one) refl)
        | inr more ↦ (cut_text text out, rw (small, whole, some, long, more, ends) refl)
      ]
    ]
