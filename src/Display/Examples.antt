-- ===== src/Display/Examples.antt =====
-- A controller on a Kindle that answers every command with 12, or with 0, and instances of the theorems.
use atlas.Base.{[], ◌∷◌, Text, pos, true, none}
use atlas.Alert.{Alert, warning}
use atlas.Kindle.Cache.{empty}
use atlas.Kindle.Device.Link.{Environment}
use atlas.Display.{Controller, start, show}
use atlas.Display.Panel.{Started, Shown, start-Started, show-Shown}

abbrev kindle : Text → Environment
kindle answer = record {
  context_error = λ s. none;
  answer = λ s line. (answer, none);
  can_upload = true;
  upload_error = λ s path contents. none;
}

abbrev controller : Controller
controller = record {
  device = record { display_width = 0; display_height = 0; prepared = empty; sent = [] };
  metrics = record { font_path = []; font_size = pos 0; metrics = none };
  running = true;
}

abbrev storm : Alert
storm = record {
  operation_id = [];
  color = [];
  message = b'S' ∷ [];
  severity = warning;
  received_at = none;
}

start-Started_example :
    Started (kindle (b'0' ∷ [])) controller (start (kindle (b'0' ∷ [])) controller)
start-Started_example = start-Started (kindle (b'0' ∷ [])) controller

show-Shown_example : Shown storm controller true (show storm (kindle []) controller)
show-Shown_example = show-Shown storm (kindle []) controller
