-- ===== src/App/Cleanup.antt =====
-- app.go: when the device is cleaned up.
use atlas.Base.{true, false, Text, Option, none, some, ◌≡◌, refl}
use atlas.Errors.{Error, ok, err}
use atlas.App.{Mode, clock, story, news, run_mode}

-- The program leaves the device as it is only in news mode, and only if the password of Redis cannot be
-- read.
run_mode-cleaned_up :
    (m : Mode) (returned connected : Option Error) (password : Text)
    → (run_mode m returned (ok password) connected).cleaned_up ≡ true
unfolding run_mode
run_mode-cleaned_up clock none connected password = refl
run_mode-cleaned_up clock (some e) connected password = refl
run_mode-cleaned_up story none connected password = refl
run_mode-cleaned_up story (some e) connected password = refl
run_mode-cleaned_up news none none password = refl
run_mode-cleaned_up news (some e) none password = refl
run_mode-cleaned_up news returned (some e) password = refl

run_mode_uncleaned :
    (returned connected : Option Error) (e : Error)
    → (run_mode news returned (err e) connected).cleaned_up ≡ false
unfolding run_mode
run_mode_uncleaned returned connected e = refl
