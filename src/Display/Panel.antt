-- ===== src/Display/Panel.antt =====
-- internal/kindledisplay/controller.go: what the Kindle has been sent when a call of the controller
-- succeeds, and that its running flag tells of it.
use atlas.Base.{
  Bool, true, false, Bool-cases, ltb_ℤ, List, [], ◌∷◌, ◌++◌, Text, bytes, append_assoc, append-nil,
  ℤ, pos, Option, none, some, Option-cases, if◌then◌else◌, ◌≡◌, ◌≢◌, refl, sym, ap, subst, ◌∙◌, ◌⊎◌,
  inl, inr, arith,
}
use atlas.Errors.{Error, Result, ok, err, panic, sentinel, not_running}
use atlas.Alert.{Alert, Severity, info, warning, critical}
use atlas.Kindle.Device.Link.{Environment, Device, Sent, Op as DeviceOp}
use atlas.Kindle.Device.{
  horizontal, set_rotation, clear_screen, set_backlight, get_brightness, show_title,
}
use atlas.Display.{
  Controller, Op, continue, ◌>>=◌, ◌>>◌, check_context, check_running, on_device, put_device,
  set_running, light_up, start, stop, show, marked_message,
}
use atlas.Display.Commands.{
  cleared, lit, asked, turned, titled, Sends, clear_screen-Sends, show_title-Sends, turn-Sends,
  light-Sends, ask-Sends,
}

-- A call that succeeds has sent the given things and leaves the flag as given; one that fails leaves
-- the flag as it was.
abbrev pub Goes : {A : Type 0} → Controller → List Sent → Bool → Result A × Controller → Type 0
Goes c l b (ok a, c') = (c'.device.sent ≡ c.device.sent ++ l) × (c'.running ≡ b)
Goes c l b (err e, c') = c'.running ≡ c.running
Goes c l b (panic, c') = c'.running ≡ c.running

device-Goes :
    {A : Type 0} (c : Controller) (l : List Sent) (x : Result A × Device)
    → Sends c.device l x
    → Goes c l c.running (put_device c x)
device-Goes c l (ok a, d) h = (h, refl)
device-Goes c l (err e, d) h = refl
device-Goes c l (panic, d) h = refl

after-Goes :
    {A : Type 0} (c c' : Controller) (l l' : List Sent) (b : Bool) (y : Result A × Controller)
    → c'.device.sent ≡ c.device.sent ++ l
    → c'.running ≡ c.running
    → Goes c' l' b y
    → Goes c (l ++ l') b y
after-Goes c c' l l' b (ok z, c'') sent flag (sent', flag') =
    (sent' ∙ ap (λ q. q ++ l') sent ∙ append_assoc c.device.sent l l', flag')
after-Goes c c' l l' b (err e, c'') sent flag same = same ∙ flag
after-Goes c c' l l' b (panic, c'') sent flag same = same ∙ flag

then-Goes :
    {A B : Type 0} (c : Controller) (l l' : List Sent) (b : Bool) (f : A → Op B) (w : Environment)
    (x : Result A × Controller)
    → Goes c l c.running x
    → ((a : A) (c' : Controller) → c'.running ≡ c.running → Goes c' l' b (f a w c'))
    → Goes c (l ++ l') b (continue f w x)
then-Goes c l l' b f w (ok a, c') (sent, flag) h =
    after-Goes c c' l l' b (f a w c') sent flag (h a c' flag)
then-Goes c l l' b f w (err e, c') same h = same
then-Goes c l l' b f w (panic, c') same h = same

context-Goes : (w : Environment) (c : Controller) → Goes c [] c.running (check_context w c)
unfolding check_context
context-Goes w c = checked (w.context_error c.device.sent)
  where
    checked :
        (o : Option Error)
        → Goes c [] c.running (elim o as (λ _. Result (Unit {0}) × Controller) [
          | none ↦ (ok tt, c)
          | some e ↦ (err e, c)
        ])
    checked none = (sym (append-nil c.device.sent), refl)
    checked (some e) = refl

flag-Goes : (b : Bool) (w : Environment) (c : Controller) → Goes c [] b (set_running b w c)
flag-Goes b w c = (sym (append-nil c.device.sent), refl)

-- A call that starts by asking whether its context is over.
checked-Goes :
    {B : Type 0} (c : Controller) (l : List Sent) (b : Bool) (f : Op B) (w : Environment)
    → ((c' : Controller) → Goes c' l b (f w c'))
    → Goes c l b ((check_context >> f) w c)
checked-Goes c l b f w h =
    then-Goes c [] l b (λ _. f) w (check_context w c) (context-Goes w c) (λ _ c' _. h c')

-- A call of the device and then the rest.
sent-Goes :
    {A B : Type 0} (c : Controller) (l l' : List Sent) (b : Bool) (m : DeviceOp A) (f : A → Op B)
    (w : Environment)
    → Sends c.device l (m w c.device)
    → ((a : A) (c' : Controller) → c'.running ≡ c.running → Goes c' l' b (f a w c'))
    → Goes c (l ++ l') b ((on_device m >>= f) w c)
sent-Goes c l l' b m f w s h =
    then-Goes c l l' b f w (on_device m w c) (device-Goes c l (m w c.device) s) h

darken-Goes :
    (w : Environment) (c : Controller)
    → Goes c (lit (pos 0) ∷ []) false ((on_device (set_backlight (pos 0)) >> set_running false) w c)
darken-Goes w c =
    sent-Goes c (lit (pos 0) ∷ []) [] false (set_backlight (pos 0)) (λ _. set_running false) w
      (light-Sends 0 w c.device (omega arith)) (λ _ c' _. flag-Goes false w c')

-- A stop that succeeds has cleared the screen and then darkened it, and the display is no longer
-- running; one that fails leaves the flag.
pub stop-Goes :
    (w : Environment) (c : Controller) → Goes c (cleared ∷ lit (pos 0) ∷ []) false (stop w c)
unfolding stop
stop-Goes w c =
    let darken = on_device (set_backlight (pos 0)) >> set_running false in
    checked-Goes c (cleared ∷ lit (pos 0) ∷ []) false (on_device clear_screen >> darken) w (λ c'.
      sent-Goes c' (cleared ∷ []) (lit (pos 0) ∷ []) false clear_screen (λ _. darken) w
        (clear_screen-Sends w c'.device) (λ _ c'' _. darken-Goes w c''))

brighten-Goes :
    (w : Environment) (c : Controller)
    → Goes c (lit (pos 20) ∷ []) true ((on_device (set_backlight (pos 20)) >> set_running true) w c)
brighten-Goes w c =
    sent-Goes c (lit (pos 20) ∷ []) [] true (set_backlight (pos 20)) (λ _. set_running true) w
      (light-Sends 20 w c.device (omega arith)) (λ _ c' _. flag-Goes true w c')

wake-Goes :
    (w : Environment) (c : Controller)
    → Goes c (turned ∷ cleared ∷ lit (pos 20) ∷ []) true (
        (on_device (set_rotation horizontal)
            >> (on_device clear_screen >> (on_device (set_backlight (pos 20)) >> set_running true)))
          w c)
wake-Goes w c =
    let brighten = on_device (set_backlight (pos 20)) >> set_running true in
    sent-Goes c (turned ∷ []) (cleared ∷ lit (pos 20) ∷ []) true (set_rotation horizontal)
      (λ _. on_device clear_screen >> brighten) w (turn-Sends w c.device)
      (λ _ c' _.
        sent-Goes c' (cleared ∷ []) (lit (pos 20) ∷ []) true clear_screen (λ _. brighten) w
          (clear_screen-Sends w c'.device) (λ _ c'' _. brighten-Goes w c''))

-- What lights up a display of the given brightness.
abbrev pub wake_up : ℤ → List Sent
wake_up brightness = if ltb_ℤ (pos 0) brightness then [] else turned ∷ cleared ∷ lit (pos 20) ∷ []

light_up-Goes :
    (brightness : ℤ) (w : Environment) (c : Controller)
    → Goes c (wake_up brightness) true (light_up brightness w c)
unfolding light_up
light_up-Goes brightness w c = elim (Bool-cases (ltb_ℤ (pos 0) brightness)) [
  | inl bright ↦ rw (bright, light_up) (flag-Goes true w c)
  | inr dark ↦ rw (dark, light_up) (wake-Goes w c)
]

-- How a call that may fail leaves the flag if it does.
abbrev Failed : Controller → Result (Unit {0}) × Controller → Type 0
Failed c x = (x.0 ≢ ok tt) × (x.1.running ≡ c.running)

-- The brightness is what the Kindle answered.
abbrev pub Started : Environment → Controller → Result (Unit {0}) × Controller → Type 0
Started w c x =
    Failed c x
    ⊎ ((brightness : ℤ) × ((get_brightness w c.device).0 ≡ ok brightness)
        × Goes c (asked ∷ wake_up brightness) true x)

start_outcome :
    (w : Environment) (c : Controller) (x : Result ℤ × Device)
    → get_brightness w c.device ≡ x
    → Sends c.device (asked ∷ []) x
    → Started w c (continue light_up w (put_device c x))
start_outcome w c (ok brightness, d) e h = inr (
  brightness,
  ap (λ p. p.0) e,
  after-Goes c (record c { device = d }) (asked ∷ []) (wake_up brightness) true
      (light_up brightness w (record c { device = d })) h refl
      (light_up-Goes brightness w (record c { device = d })),
)
start_outcome w c (err e', d) e h = inl ((λ k. ground (arith, k)), refl)
start_outcome w c (panic, d) e h = inl ((λ k. ground (arith, k)), refl)

-- A start fails and leaves the flag, or it asks for the brightness and, if that is not positive, turns
-- the display, clears it and lights it, in this order, and the display runs; if one of these
-- commands fails, the flag is left.
pub start-Started : (w : Environment) (c : Controller) → Started w c (start w c)
unfolding start check_context
start-Started w c = elim (Option-cases (w.context_error c.device.sent)) [
  | inl going ↦
      rw (going, check_context)
        (start_outcome w c (get_brightness w c.device) refl (ask-Sends w c.device))
  | inr (e, over) ↦ rw (over, check_context) (inl ((λ k. ground (arith, k)), refl))
]

-- The two commands of a message, and the last look at the context
shown-Goes :
    (a : Alert) (w : Environment) (c : Controller)
    → Goes c (cleared ∷ titled (marked_message a) ∷ []) c.running (
        (on_device clear_screen >> (on_device (show_title (marked_message a)) >> check_context)) w
          c)
shown-Goes a w c =
    let t = marked_message a in
    let title = on_device (show_title t) >> check_context in
    sent-Goes c (cleared ∷ []) (titled t ∷ []) c.running clear_screen (λ _. title) w
      (clear_screen-Sends w c.device)
      (λ _ c' same.
        sent-Goes c' (titled t ∷ []) [] c.running (show_title t) (λ _. check_context) w
          (show_title-Sends t w c'.device)
          (λ _ c'' same'.
            subst (λ b. Goes c'' [] b (check_context w c'')) (same' ∙ same) (context-Goes w c'')))

-- What stands before the message of an alert: nothing, an exclamation mark or, in three bytes, the
-- warning sign, with two spaces behind it.
abbrev pub sign : Severity → Text
sign info = []
sign warning = b'!' ∷ 32 ∷ 32 ∷ []
sign critical = 226 ∷ 154 ∷ 160 ∷ 32 ∷ 32 ∷ []

signed_as : (a : Alert) (s : Severity) → a.severity ≡ s → marked_message a ≡ sign s ++ a.message
unfolding marked_message bytes
signed_as a info h = rw h refl
signed_as a warning h = rw h refl
signed_as a critical h = rw h refl

abbrev pub Shown : Alert → Controller → Bool → Result (Unit {0}) × Controller → Type 0
Shown a c true x = Goes c (cleared ∷ titled (sign a.severity ++ a.message) ∷ []) c.running x
Shown a c false x = (x.1 ≡ c) × (x.0 ≢ ok tt)

failed_early : (a : Alert) (c : Controller) (b : Bool) (e : Error) → Shown a c b (err e, c)
failed_early a c true e = refl
failed_early a c false e = (refl, λ k. ground (arith, k))

show_outcome :
    (a : Alert) (w : Environment) (c : Controller) (b : Bool)
    → Shown a c b (
        continue
          (λ _.
            on_device clear_screen >> (on_device (show_title (marked_message a)) >> check_context))
          w
          (if b then (ok tt, c) else (err (sentinel not_running), c)))
show_outcome a w c true =
    subst
      (λ t. Goes c (cleared ∷ titled t ∷ []) c.running (
        (on_device clear_screen >> (on_device (show_title (marked_message a)) >> check_context)) w
          c))
      (signed_as a a.severity refl) (shown-Goes a w c)
show_outcome a w c false = failed_early a c false (sentinel not_running)

-- An alert is shown only while the display runs: a call that succeeds has cleared the screen and then
-- written the message behind the sign of its severity. Where the display does not run, the call fails
-- and sends nothing. The flag stays.
pub show-Shown : (a : Alert) (w : Environment) (c : Controller) → Shown a c c.running (show a w c)
unfolding show check_context check_running
show-Shown a w c = elim (Option-cases (w.context_error c.device.sent)) [
  | inl going ↦ rw (going, check_context) (show_outcome a w c c.running)
  | inr (e, over) ↦ rw (over, check_context) (failed_early a c c.running e)
]
