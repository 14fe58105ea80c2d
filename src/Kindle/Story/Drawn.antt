-- ===== src/Kindle/Story/Drawn.antt =====
-- Whatever becomes of its pictures, a story is drawn.
use atlas.Base.{ℕ, false, Text, is_empty, trim_space, pos, if◌then◌else◌, ◌≡◌, ap, ◌∙◌}
use atlas.Errors.{ok}
use atlas.Kindle.Device.Link.{Op, Environment, Device, continue, ◌>>=◌, ◌>>◌}
use atlas.Kindle.Device.Returning.{Any, after, step_on}
use atlas.Kindle.Device.{set_rotation, clear_screen, set_backlight, horizontal}
use atlas.Kindle.Clock.Draw.{display_size}
use atlas.Kindle.Clock.Show.{default_clock_font}
use atlas.Kindle.Story.{Story, StoryLayout, draw_story}
use atlas.Kindle.Story.Run.{
  Pictures, StoryOptions, can_upload_then, background, shown_layout, run_story,
}
use atlas.Kindle.Story.Pictures.{
  Answering, EitherLayout, can_upload_then-Succeeds, background-Succeeds, shown_layout-Succeeds,
}

-- What comes before the pictures of a story.
unfoldable pub opening : Op (ℕ × ℕ)
unfolding set_rotation horizontal clear_screen set_backlight display_size
opening = do set_rotation horizontal; clear_screen; set_backlight (pos 20); display_size

abbrev pub font_of : StoryOptions → Text
font_of options = if is_empty options.font_path then default_clock_font else options.font_path

-- `RunStory` behind its opening.
abbrev rest_of : Pictures → Story → StoryOptions → ℕ × ℕ → Op (Unit {0})
rest_of pictures story options size = do
  ready ← can_upload_then (background pictures story options size.0 size.1)
  layout ← shown_layout size.0 size.1 ready
  draw_story story (font_of options) layout (pos size.0) (pos size.1)

rest_draws :
    (pictures : Pictures) (story : Story) (options : StoryOptions) (w : Environment) (size : ℕ × ℕ)
    (d : Device)
    → Answering pictures
    → (layout : StoryLayout) × (d' : Device) × EitherLayout size.0 size.1 layout
      × (rest_of pictures story options size w d
          ≡ draw_story story (font_of options) layout (pos size.0) (pos size.1) w d')
rest_draws pictures story options w size d h =
    let backdrop = can_upload_then (background pictures story options size.0 size.1) in
    let draw : StoryLayout → Op (Unit {0}) =
      λ layout. draw_story story (font_of options) layout (pos size.0) (pos size.1) in
    let (ready, d1, _, e1) =
      after w Any (λ ready. shown_layout size.0 size.1 ready >>= draw) (backdrop w d)
        (can_upload_then-Succeeds w (background pictures story options size.0 size.1)
          (background-Succeeds w pictures story options size.0 size.1 h) d) in
    let (layout, d2, either, e2) =
      after w (EitherLayout size.0 size.1) draw (shown_layout size.0 size.1 ready w d1)
        (shown_layout-Succeeds w size.0 size.1 ready d1) in
    (layout, d2, either, e1 ∙ e2)

-- A story with a title is drawn whatever fails of the fetch, the preparation, the upload and the
-- display of its picture: once the screen is turned, cleared and lit and its size is known, `RunStory`
-- ends as the drawing of the whole story does, with the layout for a picture or the one without.
-- What pictures come from may answer with an error, but must answer.
pub run_story-draws :
    (pictures : Pictures) (story : Story) (options : StoryOptions) (w : Environment)
    (d opened_device : Device) (size : ℕ × ℕ)
    → Answering pictures
    → is_empty (trim_space story.title) ≡ false
    → opening w d ≡ (ok size, opened_device)
    → (layout : StoryLayout) × (d' : Device) × EitherLayout size.0 size.1 layout
      × (run_story pictures story options w d
          ≡ draw_story story (font_of options) layout (pos size.0) (pos size.1) w d')
unfolding run_story opening
run_story-draws pictures story options w d opened_device size h titled begun =
    let (layout, d', either, e) = rest_draws pictures story options w size opened_device h in
    let f = rest_of pictures story options in
    let begin = clear_screen >> (set_backlight (pos 20) >> display_size) in
    let then_all = clear_screen >> (set_backlight (pos 20) >> (display_size >>= f)) in
    let r = f size w opened_device in
    let same_start =
      step_on w begin then_all size opened_device r (set_rotation horizontal w d)
        (λ d1 e1.
          step_on w (set_backlight (pos 20) >> display_size)
            (set_backlight (pos 20) >> (display_size >>= f)) size opened_device r
            (clear_screen w d1)
            (λ d2 e2.
              step_on w display_size (display_size >>= f) size opened_device r
                (set_backlight (pos 20) w d2) (λ d3 e3. ap (continue f w) e3) e2)
            e1)
        begun in
    (layout, d', either, rw titled (same_start ∙ e))
