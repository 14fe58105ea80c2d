-- ===== src/Kindle/Story.antt =====
-- internal/kindle/story.go: the screen of one news story, and internal/kindle/genre.go: the screen
-- of a genre.
pub mod Layout
pub mod Tone
pub mod Fetch
pub mod Run
pub mod Pictures
pub mod Drawn
mod Examples
use atlas.Base.{
  ℕ, ◌+◌, ◌-◌, ◌*◌, ◌/◌, max, min, Bool, true, false, not, ◌&&◌, ◌||◌, ltb_ℤ, List, [], ◌∷◌, ◌++◌,
  Text, bytes, ℤ, pos, max_ℤ, itoa, itoa_ℤ, join, text_eq, trim_space, to_upper, is_empty, Option,
  none, some, if◌then◌else◌,
}
use atlas.Errors.{Error, Result, message, wrapped, ok, err, panic}
use atlas.Kindle.Shell.{shell_quote}
use atlas.Kindle.Device.Link.{Op, Device, pure, fail, ◌>>=◌, ◌>>◌, run, within}
use atlas.Kindle.Device.{fbink_path}
use atlas.Kindle.Rect.{
  DisplayRect, scaled, too_small, capped_size, region_spec, type_spec_no_pad, draw_text_region,
  fill_rect,
}
use atlas.Kindle.Clock.Show.{clock_time_font}

pub record StorySource : Type 0 where
  pub url : Text
  pub domain : Text
  pub og_url : Text

pub record Story : Type 0 where
  pub story_id : Text
  pub event_id : Text
  pub title : Text
  pub description : Text
  pub genre : Text
  pub sources : List StorySource

pub record StoryLayout : Type 0 where
  pub image : DisplayRect
  pub genre : DisplayRect
  pub genre_rule : DisplayRect
  pub title : DisplayRect
  pub description : DisplayRect
  pub source : DisplayRect

abbrev rect : (top left width height : ℕ) → DisplayRect
rect top left width height = record {
  top = pos top;
  left = pos left;
  width = pos width;
  height = pos height;
}

-- `newStoryLayout`, on a screen of at least one pixel
unfoldable pub new_story_layout : (width height : ℕ) → (with_image : Bool) → StoryLayout
new_story_layout width height with_image =
    let margin = width * 7 / 100 in
    let content_width = width - 2 * margin in
    let line = max 2 (height * 2 / 1000) in
    record {
      image = if with_image then rect 0 0 width height else rect 0 0 0 0;
      genre = rect (height * 6 / 100) margin content_width (height * 8 / 100);
      genre_rule = rect (height * 15 / 100) margin (min (width * 13 / 100) content_width) line;
      title = rect (height * 18 / 100) margin content_width (height * 42 / 100);
      description = rect (height * 62 / 100) margin content_width (height * 24 / 100);
      source = rect (height * 88 / 100) margin content_width (height * 6 / 100);
    }

-- `firstStoryImageURL`
unfoldable pub first_story_image_url : List StorySource → Text
first_story_image_url [] = []
first_story_image_url (s ∷ ss) =
    let later = first_story_image_url ss in
    if is_empty (trim_space s.og_url) then later else trim_space s.og_url

unfoldable pub member : Text → List Text → Bool
member label [] = false
member label (l ∷ ls) = text_eq label l || member label ls

-- The loop of `storySourceLabel`, with the labels already seen.
unfoldable pub labels : List Text → List StorySource → List Text
unfolding trim_space member
labels seen [] = []
labels seen (s ∷ ss) =
    let label = trim_space s.domain in
    let with_it = label ∷ labels (label ∷ seen) ss in
    let without = labels seen ss in if is_empty label || member label seen then without else with_it

-- `storySourceLabel`. 194 183 is the middle dot.
unfoldable pub story_source_label : List StorySource → Text
unfolding bytes labels join
story_source_label sources =
    let found = labels [] sources in
    if is_empty found
    then []
    else bytes "SOURCE  " ++ 194 ∷ 183 ∷ bytes "  " ++ join (bytes "  /  ") found

-- The genre above a story.
unfoldable pub genre_text : Story → Text
unfolding bytes to_upper trim_space
genre_text story =
    let genre = to_upper (trim_space story.genre) in if is_empty genre then bytes "NEWS" else genre

-- `overlayTextCommand`
unfoldable pub overlay_text_command :
    (name value font : Text) → ℤ → DisplayRect → (w h : ℤ) → (buffered : Bool) → Result Text
unfolding bytes fbink_path shell_quote type_spec_no_pad itoa_ℤ
overlay_text_command name value font font_size box w h buffered =
    if too_small box
    then err (
        message (
          bytes "story: draw "
          ++ name
          ++ bytes ": region too small ("
          ++ itoa_ℤ box.width
          ++ bytes "x"
          ++ itoa_ℤ box.height
          ++ bytes ")"))
    else ok (
        fbink_path
        ++ bytes " -q "
        ++ (if buffered then bytes "-b" else bytes "-w -W GC16")
        ++ bytes " -O -C WHITE -B BLACK -t "
        ++ shell_quote (type_spec_no_pad font (capped_size font_size box) box w h)
        ++ bytes " -- "
        ++ shell_quote value)

-- The error of a step that sends nothing.
abbrev pub lift : {A : Type 0} → Result A → Op A
lift r w d = (r, d)

-- The value of a text that is drawn only if it is not empty.
abbrev optional_text : Text → (Text → Result Text) → Result (List Text)
optional_text value command =
    if is_empty value
    then ok []
    else (elim (command value) [ ok line ↦ ok (line ∷ []) | err e ↦ err e | panic ↦ panic ])

-- `drawStoryOverlay`: the texts over the image, in one command line.
unfoldable pub draw_story_overlay : Story → Text → StoryLayout → (w h : ℤ) → Op (Unit {0})
unfolding bytes genre_text overlay_text_command trim_space story_source_label fbink_path region_spec
    join
draw_story_overlay story font layout w h = do
  genre ← lift (
      overlay_text_command (bytes "story genre") (genre_text story) font (scaled h 5 100)
        layout.genre w h true)
  title ← lift (
      overlay_text_command (bytes "story title") story.title clock_time_font (scaled h 18 100)
        layout.title w h true)
  description ← lift (
      optional_text (trim_space story.description) (λ v.
        overlay_text_command (bytes "story description") v font (scaled h 7 100) layout.description
          w h true))
  source ← lift (
      optional_text (story_source_label story.sources) (λ v.
        overlay_text_command (bytes "story source") v font (scaled h 4 100) layout.source w h true))
  within (bytes "story: draw overlay") (
      run (
        join (bytes " && ") (
          genre
          ∷ title
          ∷ (description
              ++ source
              ++ (fbink_path
                  ++ bytes " -q -W GC16 -s "
                  ++ region_spec (record { top = pos 0; left = pos 0; width = w; height = h }))
                ∷ []))))
  pure tt

-- `drawStory`
unfoldable pub draw_story : Story → Text → StoryLayout → (w h : ℤ) → Op (Unit {0})
unfolding bytes genre_text draw_story_overlay draw_text_region fill_rect trim_space
    story_source_label
draw_story story font layout w h =
    if not (too_small layout.image) then draw_story_overlay story font layout w h else (do
      draw_text_region (bytes "story genre") (genre_text story) font (scaled h 5 100) layout.genre w
          h false
      within (bytes "story: genre rule") (fill_rect layout.genre_rule true)
      draw_text_region (bytes "story title") story.title clock_time_font (scaled h 18 100)
          layout.title w h false
      if is_empty (trim_space story.description)
          then pure tt
          else draw_text_region (bytes "story description") (trim_space story.description) font
              (scaled h 7 100) layout.description w h false
      if is_empty (story_source_label story.sources)
          then pure tt
          else draw_text_region (bytes "story source") (story_source_label story.sources) font
              (scaled h 4 100) layout.source w h false)
