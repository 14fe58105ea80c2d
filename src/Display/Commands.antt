-- ===== src/Display/Commands.antt =====
-- internal/kindle/commands.go: what the Kindle has been sent when a command succeeds that the
-- controller of internal/kindledisplay gives it.
use atlas.Base.{
  atoi, ℕ, ◌≤◌, text_eq, trim_space, drop_spaces, to_lower, false, ◌||◌, ltb_ℤ, List, [], ◌∷◌, ◌++◌,
  Text, bytes, ℤ, pos, Option, none, some, Option-cases, itoa_ℤ, ◌≡◌, refl, ap, ◌∙◌, inl, inr,
  arith,
}
use atlas.Errors.{Error, Result, ok, err, panic}
use atlas.Kindle.Device.Link.{
  Environment, Device, Sent, command, Op as DeviceOp, run, add_prefix, pure as device_pure,
  continue as device_continue, answered, record_sent,
}
use atlas.Kindle.Device.{
  fbink_path, horizontal, vertical, rotation_code, code_of, rotation_codes, set_rotation,
  clear_screen, set_backlight, get_brightness, parse_brightness, show_title, show_command,
}

-- The commands that clear the screen, and that set the backlight to a level.
abbrev pub cleared : Sent
unfolding fbink_path bytes
cleared = command (fbink_path ++ bytes " -q -c -f -W GC16")

abbrev pub lit : ℤ → Sent
unfolding bytes itoa_ℤ
lit level = command (bytes "lipc-set-prop com.lab126.powerd flIntensity " ++ itoa_ℤ level)

abbrev pub asked : Sent
unfolding bytes
asked = command (bytes "lipc-get-prop com.lab126.powerd flIntensity")

abbrev pub turned : Sent
unfolding bytes
turned = command (bytes "echo 0 > /sys/class/graphics/fb0/rotate")

abbrev pub titled : Text → Sent
unfolding bytes show_command
titled t = command (show_command (bytes "px=200,top=0,left=0,right=0,bottom=0") t)

-- What a call that succeeds has sent.
abbrev pub Sends : {A : Type 0} → Device → List Sent → Result A × Device → Type 0
Sends d l (ok a, d') = d'.sent ≡ d.sent ++ l
Sends d l (err e, d') = Unit
Sends d l (panic, d') = Unit

answered-Sends :
    (line : Text) (d : Device) (a : Text × Option Error)
    → Sends d (command line ∷ []) (answered a (record_sent (command line) d))
answered-Sends line d (output, none) = refl
answered-Sends line d (output, some e) = tt

run-Sends :
    (line : Text) (w : Environment) (d : Device) → Sends d (command line ∷ []) (run line w d)
unfolding run
run-Sends line w d = at_context (w.context_error d.sent)
  where
    at_context :
        (o : Option Error)
        → Sends d (command line ∷ []) (elim o as (λ _. Result Text × Device) [
          | some e ↦ (err e, d)
          | none ↦ answered (w.answer d.sent line) (record_sent (command line) d)
        ])
    at_context none = answered-Sends line d (w.answer d.sent line)
    at_context (some e) = tt

then-Sends :
    {A : Type 0} (p : Text) (l : List Sent) (d : Device) (w : Environment) (f : Text → DeviceOp A)
    (x : Result Text × Device)
    → ((a : Text) (d' : Device) → (f a w d').1 ≡ d')
    → Sends d l x
    → Sends d l (device_continue f w (add_prefix p x))
then-Sends {A = A} p l d w f (ok a, d') h s = quiet (f a w d') (h a d')
  where
    quiet : (y : Result A × Device) → y.1 ≡ d' → Sends d l y
    quiet (ok b, d'') e = ap (λ z. z.sent) e ∙ s
    quiet (err e', d'') e = tt
    quiet (panic, d'') e = tt
then-Sends p l d w f (err e, d') h s = tt
then-Sends p l d w f (panic, d') h s = tt

pub clear_screen-Sends : (w : Environment) (d : Device) → Sends d (cleared ∷ []) (clear_screen w d)
unfolding clear_screen cleared bytes
clear_screen-Sends w d =
    let line = fbink_path ++ bytes " -q -c -f -W GC16" in
    then-Sends (bytes "clear screen") (command line ∷ []) d w (λ _. device_pure tt) (run line w d)
      (λ _ _. refl) (run-Sends line w d)

pub show_title-Sends :
    (t : Text) (w : Environment) (d : Device) → Sends d (titled t ∷ []) (show_title t w d)
unfolding show_title titled bytes
show_title-Sends t w d =
    let line = show_command (bytes "px=200,top=0,left=0,right=0,bottom=0") t in
    then-Sends (bytes "show title") (command line ∷ []) d w (λ _. device_pure tt) (run line w d)
      (λ _ _. refl) (run-Sends line w d)

pub turn-Sends :
    (w : Environment) (d : Device) → Sends d (turned ∷ []) (set_rotation horizontal w d)
unfolding set_rotation turned bytes rotation_code code_of rotation_codes horizontal vertical text_eq
    trim_space drop_spaces to_lower
turn-Sends w d =
    let line = bytes "echo 0 > /sys/class/graphics/fb0/rotate" in
    then-Sends (bytes "set rotation") (command line ∷ []) d w (λ _. device_pure tt) (run line w d)
      (λ _ _. refl) (run-Sends line w d)

pub light-Sends :
    (n : ℕ) (w : Environment) (d : Device)
    → n ≤ 24
    → Sends d (lit (pos n) ∷ []) (set_backlight (pos n) w d)
unfolding set_backlight lit bytes
light-Sends n w d h =
    let line = bytes "lipc-set-prop com.lab126.powerd flIntensity " ++ itoa_ℤ (pos n) in
    let in_range : (ltb_ℤ (pos n) (pos 0) || ltb_ℤ (pos 24) (pos n)) ≡ false = ground arith in
    rw in_range (
      then-Sends (bytes "set backlight") (command line ∷ []) d w (λ _. device_pure tt)
        (run line w d) (λ _ _. refl) (run-Sends line w d))

parse_brightness-quiet :
    (output : Text) (w : Environment) (d : Device) → (parse_brightness output w d).1 ≡ d
unfolding parse_brightness
parse_brightness-quiet output w d = elim (Option-cases (atoi (trim_space output))) [
  | inl bad ↦ rw (bad, parse_brightness) refl
  | inr (value, good) ↦ rw (good, parse_brightness) refl
]

pub ask-Sends : (w : Environment) (d : Device) → Sends d (asked ∷ []) (get_brightness w d)
unfolding get_brightness asked bytes
ask-Sends w d =
    let line = bytes "lipc-get-prop com.lab126.powerd flIntensity" in
    then-Sends (bytes "get brightness") (command line ∷ []) d w parse_brightness (run line w d)
      (λ output d'. parse_brightness-quiet output w d') (run-Sends line w d)
