-- ===== src/Kindle/Story/Run.antt =====
-- internal/kindle/story.go: `RunStory`, and internal/kindle/genre.go: `ShowGenreScreen`.
use atlas.Base.{
  ℕ, Bool, true, false, ◌++◌, Text, bytes, pos, itoa_ℤ, trim_space, is_empty, Option, none, some,
  if◌then◌else◌,
}
use atlas.Errors.{Result, message, ok, err, panic}
use atlas.Kindle.Shell.{shell_quote}
use atlas.Kindle.Cache.{get_prepared_image, put_prepared_image, prepared_image_cache_key}
use atlas.Kindle.Device.Link.{Op, pure, fail, ◌>>=◌, ◌>>◌, run, upload, within}
use atlas.Kindle.Device.{fbink_path, set_rotation, clear_screen, set_backlight, horizontal}
use atlas.Kindle.Rect.{DisplayRect}
use atlas.Kindle.Clock.Show.{default_clock_font}
use atlas.Kindle.Clock.Draw.{display_size}
use atlas.Kindle.Story.{Story, StoryLayout, new_story_layout, first_story_image_url, draw_story}

-- What the pictures of a story come from: the fetch of a URL, `prepareStoryBackground`, which works
-- on the pixels of an image, and SHA-256 in hexadecimal.
pub record Pictures : Type 0 where
  pub fetch : Text → Result Text
  pub prepare : Text → (width height : ℕ) → Result Text
  pub hash : Text → Text

pub record StoryOptions : Type 0 where
  pub font_path : Text
  pub fallback_image : Text

-- An operation whose error is only logged: whether it succeeded.
unfoldable pub attempt : {A : Type 0} → Op A → Op Bool
attempt m w d = elim (m w d).0 [
  | ok a ↦ (ok true, (m w d).1)
  | err e ↦ (ok false, (m w d).1)
  | panic ↦ (panic, (m w d).1)
]

unfoldable pub cached : Text → Op (Option Text)
unfolding get_prepared_image
cached key w d =
    let (found, kept) = get_prepared_image key d.prepared in
    (ok found, record d { prepared = kept })

unfoldable pub keep : Text → Text → Op (Unit {0})
unfolding put_prepared_image
keep key image w d = (ok tt, record d { prepared = put_prepared_image key image d.prepared })

-- The image under a key: the one in the cache, or else the one that is made, which is then kept.
unfoldable pub prepared_image : Text → Result Text → Op Text
unfolding cached keep
prepared_image key made = do
  found ← cached key
  elim found [
    | some image ↦ pure image
    | none ↦ elim made [
      | ok image ↦ (do keep key image; pure image)
      | err e ↦ fail e
      | panic ↦ (λ w d. (panic, d))
    ]
  ]

abbrev pub remote_story_image : Text
unfolding bytes
remote_story_image = bytes "/tmp/atlas-story-image"

abbrev pub then_ : Result Text → (Text → Result Text) → Result Text
then_ (ok a) f = f a
then_ (err e) f = err e
then_ panic f = panic

-- One way to a background: prepare it and upload it.
unfoldable pub place : Text → Result Text → Op (Unit {0})
unfolding prepared_image upload
place key made = do image ← prepared_image key made; upload remote_story_image image

unfoldable pub upload_url : Pictures → Text → (width height : ℕ) → Op (Unit {0})
unfolding bytes place prepared_image_cache_key
upload_url pictures url width height =
    place (prepared_image_cache_key pictures.hash (bytes "url") url width height)
      (then_ (pictures.fetch url) (λ raw. pictures.prepare raw width height))

unfoldable pub upload_fallback : Pictures → Text → (width height : ℕ) → Op (Unit {0})
unfolding bytes place prepared_image_cache_key
upload_fallback pictures image width height =
    place
      (prepared_image_cache_key pictures.hash (bytes "fallback") (pictures.hash image) width height)
      (pictures.prepare image width height)

-- Whether the story's first picture has been uploaded as the background.
unfoldable pub from_url : Pictures → Story → (width height : ℕ) → Op Bool
unfolding upload_url first_story_image_url attempt
from_url pictures story width height =
    let url = first_story_image_url story.sources in
    if is_empty url then pure false else attempt (upload_url pictures url width height)

unfoldable pub from_fallback : Pictures → StoryOptions → (width height : ℕ) → Op Bool
unfolding upload_fallback attempt
from_fallback pictures options width height =
    if is_empty options.fallback_image
    then pure false
    else attempt (upload_fallback pictures options.fallback_image width height)

-- Whether a background has been uploaded: that of the story's first picture, or else the fallback.
unfoldable pub background : Pictures → Story → StoryOptions → (width height : ℕ) → Op Bool
unfolding from_url from_fallback
background pictures story options width height = do
  ready ← from_url pictures story width height
  if ready then pure true else from_fallback pictures options width height

-- Without a client that can upload, there is no background.
abbrev pub can_upload_then : Op Bool → Op Bool
can_upload_then m w d = if w.can_upload then m w d else (ok false, d)

unfoldable pub draw_story_image : DisplayRect → Op (Unit {0})
unfolding bytes fbink_path shell_quote itoa_ℤ
draw_story_image box = do
  within (bytes "story: draw image") (
      run (
        fbink_path
        ++ bytes " -q -w -W GC16 -i "
        ++ shell_quote remote_story_image
        ++ bytes " -g "
        ++ shell_quote (
            bytes "x="
            ++ itoa_ℤ box.left
            ++ bytes ",y="
            ++ itoa_ℤ box.top
            ++ bytes ",w="
            ++ itoa_ℤ box.width
            ++ bytes ",h="
            ++ itoa_ℤ box.height
            ++ bytes ",dither")))
  pure tt

unfoldable pub remove_image : Op Bool
unfolding bytes shell_quote attempt
remove_image = attempt (run (bytes "rm -f " ++ shell_quote remote_story_image))

unfoldable pub without_image : (width height : ℕ) → (shown : Bool) → Op StoryLayout
unfolding new_story_layout remove_image
without_image width height shown = do
  gone ← remove_image
  pure (new_story_layout width height shown)

-- The layout that is drawn: over the image, if it is uploaded and shown. The image is removed from
-- the Kindle in either case.
unfoldable pub shown_layout : (width height : ℕ) → (ready : Bool) → Op StoryLayout
unfolding new_story_layout draw_story_image without_image attempt
shown_layout width height false = pure (new_story_layout width height false)
shown_layout width height true = do
  shown ← attempt (draw_story_image (new_story_layout width height true).image)
  without_image width height shown

-- `RunStory` up to its wait for the context.
unfoldable pub run_story : Pictures → Story → StoryOptions → Op (Unit {0})
unfolding bytes trim_space set_rotation horizontal clear_screen set_backlight display_size
    background shown_layout draw_story
run_story pictures story options =
    if is_empty (trim_space story.title)
    then fail (message (bytes "story: title is required"))
    else (let font = if is_empty options.font_path then default_clock_font else options.font_path in
        do
          set_rotation horizontal
          clear_screen
          set_backlight (pos 20)
          size ← display_size
          ready ← can_upload_then (background pictures story options size.0 size.1)
          layout ← shown_layout size.0 size.1 ready
          draw_story story font layout (pos size.0) (pos size.1))
