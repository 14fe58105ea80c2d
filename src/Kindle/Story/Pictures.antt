-- ===== src/Kindle/Story/Pictures.antt =====
-- Pictures that cannot be had cause no error: each step for them succeeds.
use atlas.Base.{
  ℕ, bytes, Bool, true, false, Text, is_empty, Option, none, some, if◌then◌else◌, ◌++◌, ◌≡◌, ◌≢◌,
  refl, ◌⊎◌, inl, inr,
}
use atlas.Errors.{Result, ok, err, panic}
use atlas.Kindle.Shell.{shell_quote}
use atlas.Kindle.Cache.{prepared_image_cache_key}
use atlas.Kindle.Device.Link.{Op, Environment, Device, run, upload, pure, fail, ◌>>◌}
use atlas.Kindle.Device.Returning.{
  Returns, Gives, Succeeds, Any, continue-Returns, continue-Gives, prefixed-returns, run-Returns,
  upload-Returns,
}
use atlas.Kindle.Rect.{DisplayRect}
use atlas.Kindle.Story.{Story, StoryLayout, new_story_layout, first_story_image_url}
use atlas.Kindle.Story.Run.{
  Pictures, StoryOptions, cached, keep, prepared_image, place, upload_url, upload_fallback,
  from_url, from_fallback, can_upload_then, draw_story_image, remote_story_image, remove_image,
  without_image, attempt, background, shown_layout, then_,
}

cached-returns : (key : Text) (w : Environment) (d : Device) → (cached key w d).0 ≢ panic
unfolding cached
cached-returns key w d p = cc

attempted :
    {A : Type 0} (x : Result A × Device)
    → x.0 ≢ panic
    → let whole : Result Bool × Device = elim x.0 [
      | ok a ↦ (ok true, x.1)
      | err e ↦ (ok false, x.1)
      | panic ↦ (panic, x.1)
    ] in
      Gives Any whole
attempted (ok a, d) h = tt
attempted (err e, d) h = tt
attempted (panic, d) h = h refl

attempt-Succeeds :
    {A : Type 0} (w : Environment) (m : Op A) → Returns w m → Succeeds w Any (attempt m)
unfolding attempt
attempt-Succeeds w m h d = attempted (m w d) (h d)

unless-Succeeds :
    (w : Environment) (b v : Bool) (m : Op Bool)
    → Succeeds w Any m
    → Succeeds w Any (if b then pure v else m)
unless-Succeeds w true v m h d = tt
unless-Succeeds w false v m h d = h d

-- What pictures come from answers, with an error perhaps.
pub record Answering (pictures : Pictures) : Type 0 where
  pub fetch : (url : Text) → pictures.fetch url ≢ panic
  pub prepare : (image : Text) (width height : ℕ) → pictures.prepare image width height ≢ panic

then_returns :
    (r : Result Text) (f : Text → Result Text)
    → r ≢ panic
    → ((a : Text) → f a ≢ panic)
    → then_ r f ≢ panic
then_returns (ok a) f h k = k a
then_returns (err e) f h k = λ p. cc
then_returns panic f h k = absurd (h refl)

-- The rest of `prepared_image`, from what the cache has.
abbrev or_made : Text → Result Text → Option Text → Op Text
unfolding keep
or_made key made found = elim found [
  | some image ↦ pure image
  | none ↦ elim made [
    | ok image ↦ (do keep key image; pure image)
    | err e ↦ fail e
    | panic ↦ (λ w d. (panic, d))
  ]
]

or_made-Returns :
    (w : Environment) (key : Text) (made : Result Text)
    → made ≢ panic
    → (found : Option Text) → Returns w (or_made key made found)
unfolding keep
or_made-Returns w key made h (some image) d p = cc
or_made-Returns w key (ok image) h none d p = cc
or_made-Returns w key (err e) h none d p = cc
or_made-Returns w key panic h none d p = h refl

prepared_image-Returns :
    (w : Environment) (key : Text) (made : Result Text)
    → made ≢ panic
    → Returns w (prepared_image key made)
unfolding prepared_image
prepared_image-Returns w key made h d =
    continue-Returns w (or_made key made) (cached key w d) (cached-returns key w d)
      (or_made-Returns w key made h)

placed-Returns :
    (w : Environment) (key : Text) (made : Result Text) → made ≢ panic → Returns w (place key made)
unfolding place
placed-Returns w key made h d =
    continue-Returns w (λ image. upload remote_story_image image) (prepared_image key made w d)
      (prepared_image-Returns w key made h d) (λ image. upload-Returns w remote_story_image image)

from_url-Succeeds :
    (w : Environment) (pictures : Pictures) (story : Story) (width height : ℕ)
    → Answering pictures
    → Succeeds w Any (from_url pictures story width height)
unfolding from_url upload_url
from_url-Succeeds w pictures story width height h =
    let url = first_story_image_url story.sources in
    let key = prepared_image_cache_key pictures.hash (bytes "url") url width height in
    let made = then_ (pictures.fetch url) (λ raw. pictures.prepare raw width height) in
    let returns =
      then_returns (pictures.fetch url) (λ raw. pictures.prepare raw width height) (h.fetch url)
        (λ raw. h.prepare raw width height) in
    unless-Succeeds w (is_empty url) false (attempt (place key made))
      (attempt-Succeeds w (place key made) (placed-Returns w key made returns))

from_fallback-Succeeds :
    (w : Environment) (pictures : Pictures) (options : StoryOptions) (width height : ℕ)
    → Answering pictures
    → Succeeds w Any (from_fallback pictures options width height)
unfolding from_fallback upload_fallback
from_fallback-Succeeds w pictures options width height h =
    let image = options.fallback_image in
    let key =
      prepared_image_cache_key pictures.hash (bytes "fallback") (pictures.hash image) width
        height in
    let made = pictures.prepare image width height in
    unless-Succeeds w (is_empty image) false (attempt (place key made)) (
      attempt-Succeeds w (place key made)
        (placed-Returns w key made (h.prepare image width height)))

pub background-Succeeds :
    (w : Environment) (pictures : Pictures) (story : Story) (options : StoryOptions)
    (width height : ℕ)
    → Answering pictures
    → Succeeds w Any (background pictures story options width height)
unfolding background
background-Succeeds w pictures story options width height h d =
    let fallback = from_fallback pictures options width height in
    continue-Gives w Any Any (λ done. if done then pure true else fallback)
      (from_url pictures story width height w d)
      (from_url-Succeeds w pictures story width height h d)
      (λ done _.
        unless-Succeeds w done true fallback
          (from_fallback-Succeeds w pictures options width height h))

pub can_upload_then-Succeeds :
    (w : Environment) (m : Op Bool) → Succeeds w Any m → Succeeds w Any (can_upload_then m)
can_upload_then-Succeeds w m h d = by_client w.can_upload (h d)
  where
    by_client : (b : Bool) → Gives Any (m w d) → Gives Any (if b then m w d else (ok false, d))
    by_client true k = k
    by_client false k = tt

-- The layout with room for a picture or the one without.
abbrev pub EitherLayout : ℕ → ℕ → StoryLayout → Type 0
EitherLayout width height layout =
    (layout ≡ new_story_layout width height true) ⊎ (layout ≡ new_story_layout width height false)

either_layout :
    (width height : ℕ) (shown : Bool)
    → EitherLayout width height (new_story_layout width height shown)
either_layout width height true = inl refl
either_layout width height false = inr refl

draw_story_image-Returns : (w : Environment) (box : DisplayRect) → Returns w (draw_story_image box)
unfolding draw_story_image bytes
draw_story_image-Returns w box d =
    continue-Returns w (λ _. pure tt) _
      (prefixed-returns (bytes "story: draw image") _ (run-Returns w _ d)) (λ _ d' p. cc)

pub shown_layout-Succeeds :
    (w : Environment) (width height : ℕ) (ready : Bool)
    → Succeeds w (EitherLayout width height) (shown_layout width height ready)
unfolding shown_layout without_image remove_image
shown_layout-Succeeds w width height false d = either_layout width height false
shown_layout-Succeeds w width height true d =
    let box = (new_story_layout width height true).image in
    let removal = run (bytes "rm -f " ++ shell_quote remote_story_image) in
    continue-Gives w Any (EitherLayout width height) (without_image width height)
      (attempt (draw_story_image box) w d)
      (attempt-Succeeds w (draw_story_image box) (draw_story_image-Returns w box) d)
      (λ shown _ d'.
        continue-Gives w Any (EitherLayout width height)
          (λ gone. pure (new_story_layout width height shown)) (attempt removal w d')
          (attempt-Succeeds w removal (run-Returns w _) d')
          (λ gone _ d''. either_layout width height shown))
