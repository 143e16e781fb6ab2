-- ===== src/Base/Results.antt =====
-- Results of operations that may be refused.
use Prim.Native.Nat.{ℕ}
use Prim.Native.String.{String}
use mathlib.Core.Path.{◌≡◌, refl}
use mathlib.Core.Bool.{Bool, true, false}
use bless_forge.Base.Tests.{if◌then◌else◌}

-- `AuthError`, `JailError`, `BackupError` and their like: the fixed part of the message, and the HTTP
-- status.
pub record Refusal : Type 0 where
  pub message : String
  pub status : ℕ

pub data Result {ℓ} (A : Type ℓ) : Type ℓ where
  ok : A → Result A
  err : Refusal → Result A

infixl 5 ◌>>=◌ ◌>>◌
-- The next step runs on what the first returned; an error ends the operation.
abbrev pub ◌>>=◌ {ℓ κ} : {A : Type ℓ} {B : Type κ} → Result A → (A → Result B) → Result B
ok value >>= next = next value
err problem >>= next = err problem

abbrev pub raise {ℓ} : {A : Type ℓ} → String → ℕ → Result A
raise message status = err (record { message = message; status = status })

abbrev pub ◌>>◌ {ℓ} : {B : Type ℓ} → Result (Unit {0}) → Result B → Result B
first >> second = first >>= λ _. second

-- `if not b: raise ...(message, status)`
abbrev pub check : Bool → String → ℕ → Result (Unit {0})
check b message status = if b then ok tt else raise message status

pub check-ok :
    (b : Bool) (message : String) (status : ℕ) {x : Unit {0}}
    → check b message status ≡ ok x
    → b ≡ true
check-ok true message status h = refl
check-ok false message status h = cc

-- A chain that succeeds has a first step that succeeds.
module _ {ℓ κ} {A : Type ℓ} {B : Type κ} where
  pub >>=-eq-ok :
      (first : Result A) (next : A → Result B) {out : B}
      → (first >>= next) ≡ ok out
      → (value : A) × (first ≡ ok value) × (next value ≡ ok out)
  >>=-eq-ok (ok value) next h = (value, refl, h)
  >>=-eq-ok (err problem) next h = cc

-- What an operation returns, when it does, has a property.
abbrev pub Yields {ℓ κ} : {A : Type ℓ} → (A → Type κ) → Result A → Type κ
Yields P (ok value) = P value
Yields P (err problem) = Unit

pub >>=-Yields {ℓ κ μ} :
    {A : Type ℓ} {B : Type κ} (P : B → Type μ) (first : Result A) (next : A → Result B)
    → ((value : A) → first ≡ ok value → Yields P (next value))
    → Yields P (first >>= next)
>>=-Yields P (ok value) next h = h value refl
>>=-Yields P (err problem) next h = tt
