-- ===== src/Kindle/Genre.antt =====
-- internal/kindle/genre.go: the screen that names a genre.
use atlas.Base.{
  ℕ, ◌-◌, ◌*◌, ◌/◌, max, List, [], ◌∷◌, ◌++◌, Text, bytes, pos, itoa, itoa_ℤ, trim_space, to_upper,
  is_empty, if◌then◌else◌,
}
use atlas.Errors.{Error, Result, message, wrapped, ok, err, panic}
use atlas.Kindle.Shell.{shell_quote}
use atlas.Kindle.Device.Link.{Op, pure, fail, ◌>>=◌, ◌>>◌, run, upload}
use atlas.Kindle.Device.{fbink_path, set_rotation, clear_screen, set_backlight, horizontal}
use atlas.Kindle.Clock.Show.{default_clock_font, clock_time_font}
use atlas.Kindle.Clock.Draw.{display_size}
use atlas.Kindle.Story.Run.{attempt}

abbrev remote_genre_image : Text
unfolding bytes
remote_genre_image = bytes "/tmp/atlas-genre-image"

-- A prepared backdrop, uploaded, drawn and removed; only an upload that failed leaves it at that.
unfoldable pub backdrop_shown : Text → (width height : ℕ) → Op (Unit {0})
unfolding bytes fbink_path shell_quote itoa attempt upload remote_genre_image
backdrop_shown image width height = do
  uploaded ← attempt (upload remote_genre_image image)
  if uploaded
      then (do
        drawn ← attempt (
            run (
              fbink_path
              ++ bytes " -q -w -W GC16 -i "
              ++ shell_quote remote_genre_image
              ++ bytes " -g "
              ++ shell_quote (
                  bytes "x=0,y=0,w="
                  ++ itoa width
                  ++ bytes ",h="
                  ++ itoa height
                  ++ bytes ",dither")))
        gone ← attempt (run (bytes "rm -f " ++ shell_quote remote_genre_image))
        pure tt)
      else pure tt

-- The backdrop, if there is one, the client can upload and the picture can be prepared.
unfoldable pub backdrop :
    (Text → (width height : ℕ) → Result Text) → Text → (width height : ℕ) → Op (Unit {0})
unfolding backdrop_shown
backdrop prepare image width height w d =
    if is_empty image
    then (ok tt, d)
    else if w.can_upload
    then elim (prepare image width height) [
      | ok prepared ↦ backdrop_shown prepared width height w d
      | err e ↦ (ok tt, d)
      | panic ↦ (panic, d)
    ]
    else (ok tt, d)

-- The type of the label, in the given font.
abbrev genre_spec : Text → ℕ → Text
unfolding bytes itoa itoa_ℤ
genre_spec font height =
    let top = height * 35 / 100 in
    let box_height = height * 30 / 100 in
    bytes "regular="
    ++ font
    ++ bytes ",px="
    ++ itoa (max 48 (height * 12 / 100))
    ++ bytes ",top="
    ++ itoa top
    ++ bytes ",left=0,right=0,bottom="
    ++ itoa (height - top - box_height)

unfoldable pub genre_command : Text → Text → ℕ → Text
unfolding bytes fbink_path shell_quote genre_spec to_upper
genre_command font genre height =
    fbink_path
    ++ bytes " -q -w -W GC16 -O -C WHITE -B BLACK -m -t "
    ++ shell_quote (genre_spec font height)
    ++ bytes " -- "
    ++ shell_quote (to_upper genre)

-- The loop over the fonts: the first that is drawn ends it; `last` is the last error.
unfoldable pub first_font : Error → Text → ℕ → List Text → Op (Unit {0})
unfolding bytes genre_command
first_font last genre height [] w d = (err (wrapped (bytes "show genre screen") last), d)
first_font last genre height (font ∷ fonts) w d =
    let (drawn, d') = run (genre_command font genre height) w d in
    elim drawn [
      | ok out ↦ (ok tt, d')
      | err e ↦ first_font e genre height fonts w d'
      | panic ↦ (panic, d')
    ]

-- `ShowGenreScreen`
unfoldable pub show_genre_screen :
    (Text → (width height : ℕ) → Result Text) → Text → Text → Op (Unit {0})
unfolding bytes trim_space set_rotation horizontal clear_screen set_backlight display_size backdrop
    first_font
show_genre_screen prepare genre image =
    if is_empty (trim_space genre)
    then fail (message (bytes "genre screen: genre is required"))
    else (do
      set_rotation horizontal
      clear_screen
      set_backlight (pos 20)
      size ← display_size
      backdrop prepare image size.0 size.1
      first_font (message []) (trim_space genre) size.1 (clock_time_font ∷ default_clock_font ∷ []))
