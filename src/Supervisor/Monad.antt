-- ===== src/Supervisor/Monad.antt =====
-- The loop's code as functions from the state to a value, the new state and the effects in order.
use atlas.Base.{List, [], ◌++◌, ◌∷◌}
use atlas.Supervisor.State.{InternalState, Effect}

pub record Outcome (A : Type 0) : Type 0 where
  pub value : A
  pub after : InternalState
  pub effects : List Effect

abbrev pub M : Type 0 → Type 0
M A = InternalState → Outcome A

abbrev pub pure : {A : Type 0} → A → M A
pure a s = record { value = a; after = s; effects = [] }

infixl 5 ◌>>=◌ ◌>>◌
abbrev pub ◌>>=◌ : {A B : Type 0} → M A → (A → M B) → M B
◌>>=◌ m f s =
    let o = m s in
    let p = f o.value o.after in
    record { value = p.value; after = p.after; effects = o.effects ++ p.effects }

abbrev pub ◌>>◌ : {B : Type 0} → M (Unit {0}) → M B → M B
m >> k = m >>= λ _. k

-- Assigns to the state.
abbrev pub modify : (InternalState → InternalState) → M (Unit {0})
modify f s = record { value = tt; after = f s; effects = [] }

abbrev pub emit : Effect → M (Unit {0})
emit e s = record { value = tt; after = s; effects = e ∷ [] }

abbrev pub get : M InternalState
get s = record { value = s; after = s; effects = [] }
