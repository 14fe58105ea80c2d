-- ===== src/Errors/Chains.antt =====
-- What a chain of fallible steps that succeeds tells of its steps.
use mathlib.Core.Path.{◌≡◌, refl, ap}
use mathlib.Core.Bool.{Bool, true, false}
use atlas.Errors.{Error, Result, ok, err, panic, fail_if, ◌>>=◌, ◌>>◌}

pub bound :
    {A B : Type 0} (first : Result A) (rest : A → Result B) {given : B}
    → (first >>= rest) ≡ ok given
    → (x : A) × (first ≡ ok x) × (rest x ≡ ok given)
bound (ok x) rest h = (x, refl, h)
bound (err e) rest h = cc
bound panic rest h = cc

-- A chain of checks that succeeds has passed its first.
pub passed :
    {A : Type 0} (b : Bool) (e : Error) (m : Result A) {a : A}
    → (fail_if b e >> m) ≡ ok a
    → (b ≡ false) × (m ≡ ok a)
passed true e m h = cc
passed false e m h = (refl, h)

pub passed_last : (b : Bool) (e : Error) {a : Unit {0}} → fail_if b e ≡ ok a → b ≡ false
passed_last true e h = cc
passed_last false e h = refl

pub ok_value : {A : Type 0} {a b : A} → ok a ≡ ok b → a ≡ b
ok_value {a = a} h = ap (λ r. elim r [ ok x ↦ x | err e ↦ a | panic ↦ a ]) h
