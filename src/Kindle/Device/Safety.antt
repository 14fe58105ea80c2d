-- ===== src/Kindle/Device/Safety.antt =====
-- What the commands of internal/kindle/commands.go can do to the Kindle.
use atlas.Base.{
  ap, text_eq_iff, Bool-cases, drop_spaces, ℕ, ◌≡◌, refl, ◌≤◌, ◌⊎◌, inl, inr, ◌||◌, Bool, true,
  false, ltb_ℤ, [], ◌∷◌, ◌++◌, Text, bytes, text_eq, Option, none, some, ℤ, pos, negsuc, itoa_ℤ,
  trim_space, to_lower, arith, append-nil, append_assoc, if◌then◌else◌,
}
use atlas.Errors.{Error, Result, ok, err, panic}
use atlas.Kindle.Shell.{shell_quote}
use atlas.Kindle.Shell.Words.{unquoted, shell_quote-unquoted}
use atlas.Kindle.Device.Link.{
  Environment, Device, command, pure, continue, add_prefix, ◌>>◌, within, run, answered,
  record_sent,
}
use atlas.Kindle.Device.{
  set_backlight, rotation_code, map_rotation, fbink_path, show_command, show_title, show_domains,
  show_description, show_genre, rotation_codes, code_of, name_of, vertical, horizontal,
}

-- A command of the connection is sent as it stands, or not at all.
abbrev pub SendsAtMost : Device → Text → Device → Type 0
SendsAtMost d line d' = (d'.sent ≡ d.sent) ⊎ (d'.sent ≡ d.sent ++ command line ∷ [])

run_cases :
    (line : Text) (w : Environment) (d : Device) (stopped : Option Error)
    (reply : Text × Option Error)
    → let r : Result Text × Device = elim stopped [
      | some e ↦ (err e, d)
      | none ↦ answered reply (record_sent (command line) d)
    ] in
      SendsAtMost d line r.1
run_cases line w d (some e) reply = inl refl
run_cases line w d none (output, none) = inr refl
run_cases line w d none (output, some e) = inr refl

through :
    (p line : Text) (w : Environment) (d : Device) (r : Result Text × Device)
    → SendsAtMost d line r.1
    → SendsAtMost d line (continue (λ _. pure tt) w (add_prefix p r)).1
through p line w d (ok a, d') h = h
through p line w d (err e, d') h = h
through p line w d (panic, d') h = h

some_value : {A : Type 0} {a b : A} → some a ≡ some b → a ≡ b
some_value {a = a} {b = b} h = ap (λ o. elim o [ none ↦ a | some x ↦ x ]) h

coded_cases :
    (name code : Text)
    → (v : Bool) → text_eq name vertical ≡ v
    → (h : Bool) → text_eq name horizontal ≡ h
    → (if v then some (b'3' ∷ []) else if h then some (b'0' ∷ []) else none) ≡ some code
    → map_rotation (code ++ 10 ∷ []) ≡ some name
unfolding map_rotation rotation_codes vertical horizontal bytes name_of text_eq trim_space
    drop_spaces
coded_cases name code true is_v h is_h e =
    rw (← some_value e, (text_eq_iff name vertical).0 is_v) refl
coded_cases name code false is_v true is_h e =
    rw (← some_value e, (text_eq_iff name horizontal).0 is_h) refl
coded_cases name code false is_v false is_h e = absurd (ground (arith, e))

coded :
    (name code : Text)
    → code_of rotation_codes name ≡ some code
    → map_rotation (code ++ 10 ∷ []) ≡ some name
unfolding code_of rotation_codes
coded name code h =
    coded_cases name code (text_eq name vertical) refl (text_eq name horizontal) refl h

pub run-SendsAtMost :
    (line : Text) (w : Environment) (d : Device) → SendsAtMost d line (run line w d).1
unfolding run
run-SendsAtMost line w d = run_cases line w d (w.context_error d.sent) (w.answer d.sent line)

pub sends-SendsAtMost :
    (p line : Text) (w : Environment) (d : Device)
    → SendsAtMost d line ((do within p (run line); pure tt) w d).1
sends-SendsAtMost p line w d = through p line w d (run line w d) (run-SendsAtMost line w d)

-- A level outside 0..24 is an error and sends nothing; any other is sent as it is, or not at all.
pub set_backlight-bounded :
    (level : ℤ) (w : Environment) (d : Device)
    → ((set_backlight level w d).1.sent ≡ d.sent)
      ⊎ ((n : ℕ) × (n ≤ 24)
          × (level ≡ pos n)
          × ((set_backlight level w d).1.sent
              ≡ d.sent
                ++ command (bytes "lipc-set-prop com.lab126.powerd flIntensity " ++ itoa_ℤ (pos n))
                  ∷ []))
unfolding set_backlight
set_backlight-bounded (negsuc n) w d =
    let below : ltb_ℤ (negsuc n) (pos 0) ≡ true = ground arith in inl (rw below refl)
set_backlight-bounded (pos n) w d =
    elim (Bool-cases (ltb_ℤ (pos n) (pos 0) || ltb_ℤ (pos 24) (pos n))) [
      | inl above ↦ inl (rw above refl)
      | inr within_range ↦
          let small : n ≤ 24 = ground arith in
          let sent =
            sends-SendsAtMost (bytes "set backlight")
              (bytes "lipc-set-prop com.lab126.powerd flIntensity " ++ itoa_ℤ (pos n)) w d in
          rw within_range (elim sent [ inl same ↦ inl same | inr one ↦ inr (n, small, refl, one) ])
    ]

-- The name under which an orientation is set is the one that is read back from the Kindle, which
-- ends the code with a newline.
pub rotation_code-map_rotation :
    (name code : Text)
    → rotation_code name ≡ some code
    → map_rotation (code ++ 10 ∷ []) ≡ some (to_lower (trim_space name))
unfolding rotation_code
rotation_code-map_rotation name code h = coded (to_lower (trim_space name)) code h

-- A text is shown by one command line that ends in the quoted text, which the shell reads as one
-- word, the text itself.
abbrev pub ShowsWord : Device → Text → Device → Type 0
ShowsWord d value d' =
    (d'.sent ≡ d.sent)
    ⊎ ((front word : Text) × (d'.sent ≡ d.sent ++ command (front ++ word) ∷ [])
        × (unquoted word ≡ (value, [])))

show_front : Text → Text
unfolding bytes
show_front place =
    fbink_path
    ++ bytes " -q -t regular=/mnt/us/fonts/InstrumentSerif-Regular.ttf,"
    ++ place
    ++ bytes " -m -- "

front_word : (place value : Text) → show_front place ++ shell_quote value ≡ show_command place value
unfolding show_front show_command
front_word place value = rw (append_assoc place (bytes " -m -- ") (shell_quote value)) refl

one_word : (value : Text) → unquoted (shell_quote value) ≡ (value, [])
unfolding unquoted
one_word value =
    rw (append-nil (shell_quote value), append-nil value) at (shell_quote-unquoted value [])

shows :
    (p place value : Text) (w : Environment) (d : Device)
    → ShowsWord d value ((do within p (run (show_command place value)); pure tt) w d).1
shows p place value w d = elim (sends-SendsAtMost p (show_command place value) w d) [
  | inl same ↦ inl same
  | inr one ↦
      inr (show_front place, shell_quote value, rw (front_word place value) one, one_word value)
]

-- Each of the four functions that show a text sends at most one command line, whose last word the
-- shell reads as the text, whatever characters it holds.
pub show-one_word :
    (value : Text) (w : Environment) (d : Device)
    → ShowsWord d value (show_title value w d).1
      × ShowsWord d value (show_domains value w d).1
      × ShowsWord d value (show_description value w d).1
      × ShowsWord d value (show_genre value w d).1
unfolding show_title show_domains show_description show_genre
show-one_word value w d = (
  shows (bytes "show title") (bytes "px=200,top=0,left=0,right=0,bottom=0") value w d,
  shows (bytes "show domains") (bytes "px=130,top=400,left=0,right=0,bottom=0") value w d,
  shows (bytes "show description") (bytes "px=150,top=500,left=0,right=0,bottom=0") value w d,
  shows (bytes "show genre") (bytes "px=280,top=250,left=0,right=0,bottom=250") value w d,
)
