-- ===== src/Common/Results.antt =====
-- The outcome of code that fails with a message: a thrown `std::invalid_argument`, or `ok=false` with
-- a reason.
use mathlib.Core.Path.{◌≡◌, refl}
use mathlib.Core.Logic.{◌⊎◌, inl, inr}
use vehicle_detection_system.Common.Text.{Bytes}

pub data Result {ℓ} (A : Type ℓ) : Type ℓ where
  ok : A → Result A
  error : Bytes → Result A

infixl 5 ◌>>=◌ ◌>>◌
abbrev pub ◌>>=◌ {ℓ κ} : {A : Type ℓ} {B : Type κ} → Result A → (A → Result B) → Result B
ok a >>= f = f a
error e >>= f = error e

abbrev pub ◌>>◌ {ℓ} : {B : Type ℓ} → Result (Unit {0}) → Result B → Result B
m >> k = m >>= λ _. k

pub Result-cases {ℓ} :
    {A : Type ℓ} (r : Result A) → ((a : A) × (r ≡ ok a)) ⊎ ((e : Bytes) × (r ≡ error e))
Result-cases (ok a) = inl (a, refl)
Result-cases (error e) = inr (e, refl)

pub ok_inj {ℓ} : {A : Type ℓ} {a b : A} → ok a ≡ ok b → a ≡ b
ok_inj e = cc

pub ok-ne-error {ℓ κ} :
    {A : Type ℓ} {B : Type κ} {a : A} {message : Bytes} → ok a ≡ error message → B
ok-ne-error e = absurd cc

-- What holds of the outcome, if there is one.
abbrev pub Then {ℓ κ} : {A : Type ℓ} → (A → Type κ) → Result A → Type κ
Then P (ok a) = P a
Then P (error e) = Unit

pub >>=-Then {ℓ κ μ ν} :
    {A : Type ℓ} {B : Type κ} (P : A → Type μ) (Q : B → Type ν) (m : Result A) (f : A → Result B)
    → Then P m
    → ((a : A) → P a → Then Q (f a))
    → Then Q (m >>= f)
>>=-Then P Q (ok a) f h k = k a h
>>=-Then P Q (error e) f h k = tt
