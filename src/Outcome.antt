-- ===== src/Outcome.antt =====
-- What a C++ call can do: return, throw, or leave the defined behaviour of the language, after
-- which nothing is known of the process.
use ab_dyeing.Base.{Bytes, ◌≡◌, refl}

-- What is thrown, or what ends the process: an assertion that fails and a call of `exit`. Nothing
-- catches the last two; they stand here because nothing follows them.
pub data Exception : Type 0 where
  qconfig_exception : Bytes → Exception
  config_exception mysql_exception : Exception
  protocol_exception application_exception length_error : Exception
  assertion_failed process_exit : Exception

pub data Outcome {ℓ} (A : Type ℓ) : Type ℓ where
  done : A → Outcome A
  throws : Exception → Outcome A
  undefined : Outcome A

infixl 5 ◌>>=◌
abbrev pub ◌>>=◌ {ℓ κ} : {A : Type ℓ} {B : Type κ} → Outcome A → (A → Outcome B) → Outcome B
done a >>= f = f a
throws e >>= f = throws e
undefined >>= f = undefined

pub done-injective {ℓ} : {A : Type ℓ} {a b : A} → done a ≡ done b → a ≡ b
done-injective h = cc

pub >>=-eq-done {ℓ κ} :
    {A : Type ℓ} {B : Type κ} (m : Outcome A) (f : A → Outcome B) {b : B}
    → (m >>= f) ≡ done b
    → (a : A) × (m ≡ done a) × (f a ≡ done b)
>>=-eq-done (done a) f h = (a, refl, h)
>>=-eq-done (throws e) f h = cc
>>=-eq-done undefined f h = cc

-- What follows need only agree where it is reached.
pub >>=-cong {ℓ κ} :
    {A : Type ℓ} {B : Type κ} (m : Outcome A) (f g : A → Outcome B)
    → ((a : A) → m ≡ done a → f a ≡ g a)
    → (m >>= f) ≡ (m >>= g)
>>=-cong (done a) f g h = h a refl
>>=-cong (throws e) f g h = refl
>>=-cong undefined f g h = refl

pub >>=-assoc {ℓ κ ι} :
    {A : Type ℓ} {B : Type κ} {C : Type ι} (m : Outcome A) (f : A → Outcome B) (g : B → Outcome C)
    → ((m >>= f) >>= g) ≡ (m >>= λ a. (f a >>= g))
>>=-assoc (done a) f g = refl
>>=-assoc (throws e) f g = refl
>>=-assoc undefined f g = refl

-- What is returned satisfies a predicate, and nothing is undefined; an exception is allowed.
abbrev pub Ensures {ℓ} : {A : Type ℓ} → (A → Type 0) → Outcome A → Type 0
Ensures P (done a) = P a
Ensures P (throws e) = Unit
Ensures P undefined = ⊥

pub Ensures->>= {ℓ κ} :
    {A : Type ℓ} {B : Type κ} (P : A → Type 0) (Q : B → Type 0) (m : Outcome A) (f : A → Outcome B)
    → Ensures P m
    → ((a : A) → m ≡ done a → P a → Ensures Q (f a))
    → Ensures Q (m >>= f)
Ensures->>= P Q (done a) f h g = g a refl h
Ensures->>= P Q (throws e) f h g = tt
Ensures->>= P Q undefined f h g = absurd h
