-- ===== src/Supervisor/Effects.antt =====
-- The effects of a turn, counted: replies, calls of a nil function, and alerts that start.
use atlas.Base.{
  ℕ, suc, ◌+◌, ◌≡◌, refl, Bool, true, false, List, [], ◌∷◌, ◌++◌, if◌then◌else◌, arith, ap,
}
use atlas.Alert.{Alert}
use atlas.Supervisor.State.{Effect, replied, nil_call, alert_started}

abbrev pub is_reply : Effect → Bool
is_reply (replied r) = true
is_reply _ = false

abbrev pub is_nil_call : Effect → Bool
is_nil_call nil_call = true
is_nil_call _ = false

abbrev pub count_if : (Effect → Bool) → List Effect → ℕ
count_if p [] = 0
count_if p (e ∷ es) = if p e then suc (count_if p es) else count_if p es

pub count_if-append :
    (p : Effect → Bool) (xs ys : List Effect)
    → count_if p (xs ++ ys) ≡ count_if p xs + count_if p ys
count_if-append p [] ys = ground arith
count_if-append p (x ∷ xs) ys = ground (arith, count_if-append p xs ys)

abbrev pub replies : List Effect → ℕ
replies = count_if is_reply

abbrev pub nil_calls : List Effect → ℕ
nil_calls = count_if is_nil_call

-- The alerts that a list of effects starts, in order.
abbrev pub started : List Effect → List Alert
started [] = []
started (alert_started run a ∷ es) = a ∷ started es
started (_ ∷ es) = started es

pub started-append : (xs ys : List Effect) → started (xs ++ ys) ≡ started xs ++ started ys
started-append [] ys = refl
started-append (alert_started run a ∷ es) ys = ap (◌∷◌ a) (started-append es ys)
started-append (_ ∷ es) ys = started-append es ys
