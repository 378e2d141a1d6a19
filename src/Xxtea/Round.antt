-- ===== src/Xxtea/Round.antt =====
-- A round of decryption undoes a round of encryption, whatever the mixing function gives.
use ab_dyeing.Base.{ℕ, suc, ◌+◌, ◌<◌, ◌≡◌, ◌∙◌, refl, ap, arith, List, [], ◌∷◌, All, length}
use ab_dyeing.Xxtea.{
  mix, add_word, sub_word, last_word, first_word, forward, encrypt_round, backward, decrypt_round,
}

abbrev pub IsWord : ℕ → Type 0
IsWord x = x < 4294967296

sub_word-add_word : (x m : ℕ) → IsWord x → sub_word (add_word x m) m ≡ x
unfolding sub_word add_word
sub_word-add_word x m h = omega arith

add_word-IsWord : (x m : ℕ) → IsWord (add_word x m)
unfolding add_word
add_word-IsWord x m = omega arith

forward-IsWord :
    (k : List ℕ) (sum i z first : ℕ) (ws : List ℕ) → All IsWord (forward k sum i z first ws)
unfolding forward
forward-IsWord k sum i z first [] = tt
forward-IsWord k sum i z first (x ∷ ws) =
    (add_word-IsWord x _, forward-IsWord k sum (i + 1) _ first ws)

length-forward :
    (k : List ℕ) (sum i z first : ℕ) (ws : List ℕ) → length (forward k sum i z first ws) ≡ length ws
unfolding forward
length-forward k sum i z first [] = refl
length-forward k sum i z first (x ∷ ws) = ap suc (length-forward k sum (i + 1) _ first ws)

backward-forward :
    (k : List ℕ) (sum i z first : ℕ) (ws : List ℕ)
    → All IsWord ws
    → backward k sum i z first (forward k sum i z first ws) ≡ ws
unfolding forward backward
backward-forward k sum i z first [] h = refl
backward-forward k sum i z first (x ∷ ws) h =
    let x' = add_word x (mix k sum i z (first_word first ws)) in
    rw (backward-forward k sum (i + 1) x' first ws (h.1))
      (ap (λ y. y ∷ ws) (sub_word-add_word x (mix k sum i z (first_word first ws)) (h.0)))

pub encrypt_round-IsWord : (k : List ℕ) (sum : ℕ) (v : List ℕ) → All IsWord (encrypt_round k sum v)
unfolding encrypt_round
encrypt_round-IsWord k sum [] = tt
encrypt_round-IsWord k sum (x ∷ ws) = (add_word-IsWord x _, forward-IsWord k sum 1 _ _ ws)

pub length-encrypt_round :
    (k : List ℕ) (sum : ℕ) (v : List ℕ) → length (encrypt_round k sum v) ≡ length v
unfolding encrypt_round
length-encrypt_round k sum [] = refl
length-encrypt_round k sum (x ∷ ws) = ap suc (length-forward k sum 1 _ _ ws)

-- With two words or more: a single word is mixed with itself, and cannot be taken back.
pub decrypt_round-encrypt_round :
    (k : List ℕ) (sum x y : ℕ) (ws : List ℕ)
    → All IsWord (x ∷ y ∷ ws)
    → decrypt_round k sum (encrypt_round k sum (x ∷ y ∷ ws)) ≡ x ∷ y ∷ ws
unfolding encrypt_round decrypt_round
decrypt_round-encrypt_round k sum x y ws h =
    let m = mix k sum 0 (last_word y ws) y in
    let x' = add_word x m in
    ap (λ rest. sub_word x' (mix k sum 0 (last_word x' rest) (first_word x' rest)) ∷ rest)
      (backward-forward k sum 1 x' x' (y ∷ ws) (h.1))
    ∙ ap (λ t. t ∷ y ∷ ws) (sub_word-add_word x m (h.0))
