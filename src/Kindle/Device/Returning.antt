-- ===== src/Kindle/Device/Returning.antt =====
-- internal/kindle/commands.go: operations of a device that return, and operations that always succeed.
use atlas.Base.{Text, bytes, Option, none, some, ◌≡◌, ◌≢◌, refl, arith}
use atlas.Errors.{Error, Result, ok, err, panic}
use atlas.Kindle.Device.Link.{
  Op, Environment, Device, run, upload, add_prefix, answered, record_sent, command, continue,
}

-- An operation that does not panic, and one that always succeeds, with a value of a kind.
abbrev pub Returns : {A : Type 0} → Environment → Op A → Type 0
Returns w m = (d : Device) → (m w d).0 ≢ panic

abbrev pub Gives : {A : Type 0} → (A → Type 0) → Result A × Device → Type 0
Gives P (ok a, d) = P a
Gives P (err e, d) = ⊥
Gives P (panic, d) = ⊥

abbrev pub Succeeds : {A : Type 0} → Environment → (A → Type 0) → Op A → Type 0
Succeeds w P m = (d : Device) → Gives P (m w d)

abbrev pub Any : {A : Type 0} → A → Type 0
Any a = Unit

pub answered-returns : (o : Text × Option Error) (d : Device) → (answered o d).0 ≢ panic
answered-returns (output, none) d h = cc
answered-returns (output, some e) d h = cc

pub run-Returns : (w : Environment) (line : Text) → Returns w (run line)
unfolding run
run-Returns w line d = by_context (w.context_error d.sent)
  where
    by_context :
        (o : Option Error)
        → let whole : Result Text × Device = elim o [
          | some e ↦ (err e, d)
          | none ↦ answered (w.answer d.sent line) (record_sent (command line) d)
        ] in
          whole.0 ≢ panic
    by_context (some e) h = cc
    by_context none h = answered-returns (w.answer d.sent line) (record_sent (command line) d) h

pub upload-Returns : (w : Environment) (path contents : Text) → Returns w (upload path contents)
unfolding upload bytes
upload-Returns w path contents d h = ground arith

module _ (w : Environment) {A B : Type 0} where
  pub continue-Returns :
      (f : A → Op B) (x : Result A × Device)
      → x.0 ≢ panic
      → ((a : A) → Returns w (f a))
      → (continue f w x).0 ≢ panic
  continue-Returns f (ok a, d) h k = k a d
  continue-Returns f (err e, d) h k = λ p. cc
  continue-Returns f (panic, d) h k = absurd (h refl)

  pub continue-Gives :
      (P : A → Type 0) (Q : B → Type 0) (f : A → Op B) (x : Result A × Device)
      → Gives P x
      → ((a : A) → P a → Succeeds w Q (f a))
      → Gives Q (continue f w x)
  continue-Gives P Q f (ok a, d) h k = k a h d
  continue-Gives P Q f (err e, d) h k = absurd h
  continue-Gives P Q f (panic, d) h k = absurd h

  -- What follows an operation that has succeeded.
  pub after :
      (P : A → Type 0) (f : A → Op B) (x : Result A × Device)
      → Gives P x
      → (a : A) × (d : Device) × P a × (continue f w x ≡ f a w d)
  after P f (ok a, d) h = (a, d, h, refl)
  after P f (err e, d) h = absurd h
  after P f (panic, d) h = absurd h

  pub step_on :
      {C : Type 0} (m : Op A) (g : Op B) (a : A) (d : Device) (r : Result B × Device)
      (x : Result C × Device)
      → ((d' : Device) → m w d' ≡ (ok a, d) → g w d' ≡ r)
      → continue (λ _. m) w x ≡ (ok a, d)
      → continue (λ _. g) w x ≡ r
  step_on m g a d r (ok c, d') h k = h d' k
  step_on m g a d r (err e, d') h k = cc
  step_on m g a d r (panic, d') h k = cc

pub prefixed-returns :
    {A : Type 0} (p : Text) (x : Result A × Device) → x.0 ≢ panic → (add_prefix p x).0 ≢ panic
prefixed-returns p (ok a, d) h = λ q. cc
prefixed-returns p (err e, d) h = λ q. cc
prefixed-returns p (panic, d) h = absurd (h refl)
