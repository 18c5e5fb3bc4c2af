-- ===== src/Base/Outcome.antt =====
-- Python's exceptions as values: a call returns a value or raises an error of the module's own type.
use mathlib.Core.Path.{◌≡◌, refl, sym, subst}
use mathlib.Core.Logic.{◌⊎◌, inl, inr}
use mathlib.Core.Bool.{Bool, true, false}

pub data Result {ℓ} (Raised : Type 0) (Value : Type ℓ) : Type ℓ where
  err : Raised → Result Raised Value
  ok : Value → Result Raised Value

infixl 5 ◌>>=◌ ◌>>◌
-- the statements after a call run only when it returns
abbrev pub ◌>>=◌ {ℓ κ} :
    {Raised : Type 0} {Before : Type ℓ} {After : Type κ}
    → Result Raised Before
    → (Before → Result Raised After)
    → Result Raised After
err raised >>= next = err raised
ok value >>= next = next value

abbrev pub ◌>>◌ {ℓ} :
    {Raised : Type 0} {After : Type ℓ}
    → Result Raised (Unit {0})
    → Result Raised After
    → Result Raised After
err raised >> next = err raised
ok value >> next = next

-- `if not condition: raise error`
abbrev pub require : {Raised : Type 0} → Bool → Raised → Result Raised (Unit {0})
require false raised = err raised
require true raised = ok tt

pub >>=-eq-ok {ℓ κ} :
    {Raised : Type 0} {Before : Type ℓ} {After : Type κ} (call : Result Raised Before)
    (next : Before → Result Raised After) {result : After}
    → (call >>= next) ≡ ok result
    → (value : Before) × (call ≡ ok value) × (next value ≡ ok result)
>>=-eq-ok (err raised) next returned = cc
>>=-eq-ok (ok value) next returned = (value, refl, returned)

pub require-eq-ok :
    {Raised : Type 0} (condition : Bool) (raised : Raised)
    → require condition raised ≡ ok tt
    → condition ≡ true
require-eq-ok false raised passed = cc
require-eq-ok true raised passed = refl

pub Result-cases {ℓ} :
    {Raised : Type 0} {Value : Type ℓ} (call : Result Raised Value)
    → ((value : Value) × (call ≡ ok value)) ⊎ ((raised : Raised) × (call ≡ err raised))
Result-cases (err raised) = inr (raised, refl)
Result-cases (ok value) = inl (value, refl)

pub >>=_assoc {ℓ κ μ} :
    {Raised : Type 0} {Before : Type ℓ} {Between : Type κ} {After : Type μ}
    (call : Result Raised Before) (next : Before → Result Raised Between)
    (last : Between → Result Raised After)
    → ((call >>= next) >>= last) ≡ (call >>= λ value. next value >>= last)
>>=_assoc (err raised) next last = refl
>>=_assoc (ok value) next last = refl

pub >>-eq-ok {ℓ} :
    {Raised : Type 0} {After : Type ℓ} (check : Result Raised (Unit {0}))
    (next : Result Raised After) {result : After}
    → (check >> next) ≡ ok result
    → (check ≡ ok tt) × (next ≡ ok result)
>>-eq-ok (err raised) next returned = cc
>>-eq-ok (ok value) next returned = (refl, returned)

-- To compute a call whose steps are known.
pub pass {ℓ} :
    {Raised : Type 0} {After : Type ℓ} {condition : Bool} (raised : Raised)
    {next result : Result Raised After}
    → condition ≡ true
    → next ≡ result
    → (require condition raised >> next) ≡ result
pass raised {next} {result} holds e = subst (λ b. (require b raised >> next) ≡ result) (sym holds) e

pub step {ℓ κ} :
    {Raised : Type 0} {Before : Type ℓ} {After : Type κ} {call : Result Raised Before}
    (next : Before → Result Raised After) {value : Before} {result : Result Raised After}
    → call ≡ ok value
    → next value ≡ result
    → (call >>= next) ≡ result
step next {result = result} returned e = subst (λ c. (c >>= next) ≡ result) (sym returned) e

pub ok_injective {ℓ} :
    {Raised : Type 0} {Value : Type ℓ} {a b : Value}
    → ◌≡◌ {A = Result Raised Value} (ok a) (ok b)
    → a ≡ b
ok_injective same = cc
