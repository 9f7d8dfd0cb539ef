-- ===== src/Prelude/Results.antt =====
-- What a call can do besides returning: stop for ever in `while(1)`, or leave its arrays.
use mathlib.Core.Path.{◌≡◌}

pub data Outcome {ℓ} (A : Type ℓ) : Type ℓ where
  ret : A → Outcome A
  hang : Outcome A
  fault : Outcome A

infixl 5 ◌>>=◌
abbrev pub ◌>>=◌ {ℓ κ} : {A : Type ℓ} {B : Type κ} → Outcome A → (A → Outcome B) → Outcome B
ret a >>= k = k a
hang >>= k = hang
fault >>= k = fault

pub >>=-ret {ℓ κ} :
    {A : Type ℓ} {B : Type κ} (m : Outcome A) (k : A → Outcome B) {a : A} {r : Outcome B}
    → m ≡ ret a
    → k a ≡ r
    → (m >>= k) ≡ r
>>=-ret m k {a} e f = rw e f
