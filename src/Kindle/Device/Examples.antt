-- ===== src/Kindle/Device/Examples.antt =====
-- Commands to the Kindle at concrete inputs.
use atlas.Base.{
  ◌≡◌, refl, [], ◌∷◌, ◌++◌, bytes, text_eq, none, some, true, pos, itoa_ℤ, itoa, trim_space,
  to_lower, drop_spaces, quoted, atoi,
}
use atlas.Errors.{ok}
use atlas.Kindle.Cache.{empty}
use atlas.Kindle.Shell.{shell_quote, escape_quotes}
use atlas.Kindle.Shell.Words.{unquoted, shell_quote-unquoted}
use atlas.Kindle.Device.Link.{Environment, command, new, run}
use atlas.Kindle.Device.{
  set_backlight, rotation_code, map_rotation, code_of, name_of, rotation_codes, vertical,
  horizontal, get_brightness, parse_brightness, set_rotation,
}

program : Unit {0}
unfolding bytes text_eq trim_space drop_spaces to_lower itoa itoa_ℤ atoi quoted new run
    set_backlight rotation_code map_rotation code_of name_of rotation_codes vertical horizontal
    get_brightness parse_brightness set_rotation shell_quote escape_quotes empty
program = tt

-- A Kindle that answers every command with 12 and a newline.
abbrev pub willing : Environment
willing = record {
  context_error = λ s. none;
  answer = λ s line. (b'1' ∷ b'2' ∷ 10 ∷ [], none);
  can_upload = true;
  upload_error = λ s path contents. none;
}

rotation_sent :
    (set_rotation (bytes " Vertical ") willing new).1.sent
    ≡ command (bytes "echo 3 > /sys/class/graphics/fb0/rotate") ∷ []
unfolding program
rotation_sent = refl

brightness_read : (get_brightness willing new).0 ≡ ok (pos 12)
unfolding program
brightness_read = refl

shell_quote-unquoted_example :
    unquoted (shell_quote (bytes "it's; rm -rf /") ++ bytes " -m")
    ≡ (bytes "it's; rm -rf /" ++ (unquoted (bytes " -m")).0, (unquoted (bytes " -m")).1)
shell_quote-unquoted_example = shell_quote-unquoted (bytes "it's; rm -rf /") (bytes " -m")

horizontal_code : rotation_code (bytes "Horizontal") ≡ some (b'0' ∷ [])
unfolding program
horizontal_code = refl
