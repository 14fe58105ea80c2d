-- ===== src/Kindle/Story/Examples.antt =====
-- A story's screen at concrete inputs.
use atlas.Base.{
  pos, ◌≡◌, refl, true, [], ◌∷◌, Text, bytes, some, none, trim_space, text_eq, drop_spaces,
}
use atlas.Errors.{ok, err, message}
use atlas.Kindle.Device.Link.{Environment, Device, run}
use atlas.Kindle.Story.{Story, StorySource, StoryLayout, member, labels, draw_story}
use atlas.Kindle.Story.Run.{Pictures, StoryOptions, run_story}
use atlas.Kindle.Story.Pictures.{Answering, EitherLayout}
use atlas.Kindle.Story.Drawn.{opening, font_of, run_story-draws}
use atlas.Kindle.Device.{set_rotation, clear_screen, set_backlight, rotation_code, horizontal}
use atlas.Kindle.Clock.Draw.{display_size}
use atlas.Kindle.Cache.{empty}

abbrev source : Text → StorySource
source domain = record { url = []; domain = domain; og_url = [] }

abbrev story : Story
unfolding bytes
story = record {
  story_id = bytes "1";
  event_id = bytes "e";
  title = bytes "Rain";
  description = [];
  genre = [];
  sources = source (bytes "a.org ") ∷ source (bytes "b.org") ∷ source (bytes "a.org") ∷ [];
}

labels_of_story : labels [] story.sources ≡ bytes "a.org" ∷ bytes "b.org" ∷ []
unfolding labels story bytes text_eq member trim_space drop_spaces
labels_of_story = refl

-- Nothing can be fetched, prepared or sent.
abbrev no_pictures : Pictures
no_pictures = record {
  fetch = λ url. err (message []);
  prepare = λ image w h. err (message []);
  hash = λ s. s;
}

abbrev dead : Environment
dead = record {
  context_error = λ s. none;
  answer = λ s line. ([], some (message []));
  can_upload = true;
  upload_error = λ s path contents. some (message []);
}

abbrev options : StoryOptions
unfolding bytes
options = record { font_path = []; fallback_image = bytes "raw" }

-- The client answers every command and refuses every file, and the size of the screen is known.
abbrev plain : Environment
plain = record {
  context_error = λ s. none;
  answer = λ s line. ([], none);
  can_upload = true;
  upload_error = λ s path contents. some (message []);
}

abbrev sized : Device
sized = record { display_width = 1448; display_height = 1072; prepared = empty; sent = [] }

answering : Answering no_pictures
answering = record { fetch = λ url p. cc; prepare = λ image w h p. cc }

begun : opening plain sized ≡ (ok (1448, 1072), (opening plain sized).1)
unfolding opening set_rotation clear_screen set_backlight display_size rotation_code horizontal
    bytes text_eq run
begun = refl

run_story-draws_example :
    (layout : StoryLayout) × (d' : Device) × EitherLayout 1448 1072 layout
    × (run_story no_pictures story options plain sized
        ≡ draw_story story (font_of options) layout (pos 1448) (pos 1072) plain d')
unfolding bytes trim_space
run_story-draws_example =
    run_story-draws no_pictures story options plain sized (opening plain sized).1 (1448, 1072)
      answering refl begun
