-- ===== src/Xxtea/Rounds.antt =====
-- The rounds of decryption undo those of encryption, and end.
use ab_dyeing.Base.{
  ℕ, zero, suc, ◌+◌, ◌-◌, ◌*◌, ◌%◌, ◌<◌, ◌≤◌, ◌≡◌, ◌≢◌, ◌∙◌, refl, ap, arith, false, List, [], ◌∷◌,
  All, length, ◌==◌,
}
use native.Mathlib.Nat.{div-le_self}
use ab_dyeing.Outcome.{done}
use ab_dyeing.Xxtea.{
  word, delta, encrypt_round, decrypt_round, encrypt_rounds, decrypt_rounds, rounds_of,
}
use ab_dyeing.Xxtea.Round.{
  IsWord, encrypt_round-IsWord, length-encrypt_round, decrypt_round-encrypt_round,
}

-- The sum at the end of `q` rounds.
abbrev pub sum_of : ℕ → ℕ
sum_of q = (q * delta) % word

-- The sum comes back to zero at no round that is used, since `delta` is odd.
pub sum_of-nonzero : (q : ℕ) → q < 58 → (sum_of (suc q) == 0) ≡ false
sum_of-nonzero q h =
    let nonzero : sum_of (suc q) ≢ 0 = λ e. absurd (omega arith) in ground (arith, nonzero)

decrypt_round-undoes :
    (k : List ℕ) (sum : ℕ) (v : List ℕ)
    → All IsWord v
    → 2 ≤ length v
    → decrypt_round k sum (encrypt_round k sum v) ≡ v
decrypt_round-undoes k sum [] h two = absurd (omega arith)
decrypt_round-undoes k sum (x ∷ []) h two = absurd (omega arith)
decrypt_round-undoes k sum (x ∷ y ∷ ws) h two = decrypt_round-encrypt_round k sum x y ws h

sum-next : (j : ℕ) → (sum_of j + delta) % word ≡ sum_of (suc j)
sum-next j = omega arith

pub sum-back : (j : ℕ) → (sum_of (suc j) + word - delta) % word ≡ sum_of j
sum-back j = omega arith

-- One round of decryption, where the sum is that of a round.
pub decrypt_rounds-step :
    (k : List ℕ) (j fuel : ℕ) (v : List ℕ)
    → j < 58
    → decrypt_rounds (suc fuel) k (sum_of (suc j)) v
      ≡ decrypt_rounds fuel k (sum_of j) (decrypt_round k (sum_of (suc j)) v)
unfolding decrypt_rounds
decrypt_rounds-step k j fuel v lt = rw (sum_of-nonzero j lt, sum-back j) refl

-- The `q` rounds behind the first `j` are undone, and take `q` of the fuel.
undo :
    (k : List ℕ) (q j fuel f t : ℕ) (v : List ℕ)
    → All IsWord v
    → 2 ≤ length v
    → f ≡ q + fuel
    → t ≡ q + j
    → t ≤ 58
    → decrypt_rounds f k (sum_of t) (encrypt_rounds q k (sum_of j) v)
      ≡ decrypt_rounds fuel k (sum_of j) v
unfolding encrypt_rounds
undo k zero j fuel f t v h two ef et le =
    let a : f ≡ fuel = omega arith in let b : t ≡ j = omega arith in rw (a, b) refl
undo k (suc q) j fuel f t v h two ef et le =
    let v1 = encrypt_round k (sum_of (suc j)) v in
    rw (sum-next j) (
      undo k q (suc j) (suc fuel) f t v1 (encrypt_round-IsWord k (sum_of (suc j)) v)
        (omega (arith, length-encrypt_round k (sum_of (suc j)) v)) (omega arith) (omega arith) le
      ∙ decrypt_rounds-step k j fuel v1 (omega arith)
      ∙ ap (decrypt_rounds fuel k (sum_of j)) (decrypt_round-undoes k (sum_of (suc j)) v h two))

-- All the rounds are undone, for as many as the code does.
pub decrypt_rounds-encrypt_rounds :
    (k : List ℕ) (q : ℕ) (v : List ℕ)
    → All IsWord v
    → 2 ≤ length v
    → q ≤ 58
    → decrypt_rounds 59 k (sum_of q) (encrypt_rounds q k 0 v) ≡ done v
unfolding decrypt_rounds
decrypt_rounds-encrypt_rounds k q v h two le =
    undo k q 0 (suc (58 - q)) 59 q v h two (omega arith) (omega arith) le ∙ refl

pub encrypt_rounds-IsWord :
    (q : ℕ) (k : List ℕ) (sum : ℕ) (v : List ℕ)
    → All IsWord v
    → All IsWord (encrypt_rounds q k sum v)
unfolding encrypt_rounds
encrypt_rounds-IsWord zero k sum v h = h
encrypt_rounds-IsWord (suc q) k sum v h =
    encrypt_rounds-IsWord q k ((sum + delta) % word) (encrypt_round k ((sum + delta) % word) v)
      (encrypt_round-IsWord k ((sum + delta) % word) v)

pub length-encrypt_rounds :
    (q : ℕ) (k : List ℕ) (sum : ℕ) (v : List ℕ) → length (encrypt_rounds q k sum v) ≡ length v
unfolding encrypt_rounds
length-encrypt_rounds zero k sum v = refl
length-encrypt_rounds (suc q) k sum v =
    length-encrypt_rounds q k ((sum + delta) % word) (encrypt_round k ((sum + delta) % word) v)
    ∙ length-encrypt_round k ((sum + delta) % word) v

pub rounds_of-small : (n : ℕ) → rounds_of n ≤ 58
rounds_of-small n = omega (arith, div-le_self 52 n)

-- From the sum of `q` rounds on, the loop ends after as many.
pub decrypt_rounds-ends :
    (k : List ℕ) (q fuel : ℕ) (v : List ℕ)
    → q ≤ 58
    → q < fuel
    → (out : List ℕ) × (decrypt_rounds fuel k (sum_of q) v ≡ done out)
unfolding decrypt_rounds
decrypt_rounds-ends k q zero v le lt = absurd (omega arith)
decrypt_rounds-ends k zero (suc fuel) v le lt = (v, refl)
decrypt_rounds-ends k (suc q) (suc fuel) v le lt =
    let (out, e) =
      decrypt_rounds-ends k q fuel (decrypt_round k (sum_of (suc q)) v) (omega arith)
        (omega arith) in
    (out, decrypt_rounds-step k q fuel v (omega arith) ∙ e)
