-- ===== src/Dashboard/Examples.antt =====
-- A dashboard on a queue of two stories and a directory of three files, and instances of the theorems.
use atlas.Base.{
  false, List, [], ◌∷◌, ◌++◌, length, Text, bytes, pos, Option, none, some, trim_space, drop_spaces,
  to_lower, text_eq, ◌≡◌, refl, arith,
}
use atlas.Errors.{Result, ok}
use atlas.News.{Story}
use atlas.Dashboard.{DirEntry, Options, Parts, Dashboard}
use atlas.Dashboard.Backdrops.{lookup, index_entries, is_picture, is_backdrop_ext, ext, stem}
use atlas.Dashboard.Cycle.{drain_genre}
use atlas.Dashboard.Turns.{Adds}
use atlas.Dashboard.Turns.Drain.{drain_genre-Turn}
use atlas.Dashboard.Files.{first_named, path_of, index_entries-first}

abbrev file : Text → DirEntry
file name = record { is_dir = false; name = name }

abbrev files : List DirEntry
unfolding bytes
files = file (bytes "India.PNG") ∷ file (bytes "india.jpg") ∷ file (bytes "misc.webp") ∷ []

abbrev story : Story
unfolding bytes
story = record {
  story_id = [];
  event_id = [];
  title = bytes "Rain";
  description = [];
  genre = [];
  sources = [];
}

-- The last story goes to the front.
abbrev turn : List Story → Result (Option Story) × List Story
turn [] = (ok none, [])
turn (s ∷ rest) = (ok (some s), rest ++ s ∷ [])

abbrev parts : Parts (List Story)
parts = record {
  context_error = λ s. (none, s);
  genres = λ s. (ok [], s);
  len = λ genre s. (ok (length s), s);
  next = λ genre s. turn s;
  show_genre_screen = λ genre image s. (ok tt, s);
  run_story = λ hold shown options s. (ok tt, s);
  wait = λ hold s. (ok tt, s);
  read_dir = λ dir s. (ok files, s);
  read_file = λ path s. (ok path, s);
  join = λ dir name. dir ++ b'/' ∷ name;
}

abbrev options : Options
options = record {
  genre = [];
  font_path = [];
  assets_dir = [];
  genre_hold = pos 1;
  story_hold = pos 1;
  max_stories_per_genre = pos 1;
  allow_private_images = false;
}

abbrev board : Dashboard (List Story)
board = record { world = story ∷ story ∷ []; backdrops = []; calls = [] }

drain_genre-Turn_example : Adds 1 board (drain_genre (b'a' ∷ []) options parts board)
unfolding trim_space drop_spaces
drain_genre-Turn_example =
    drain_genre-Turn options (b'a' ∷ []) 1 parts board refl (omega arith) refl

index_entries-first_example :
    lookup (bytes "india") (index_entries parts.join (b'd' ∷ []) files [])
    ≡ path_of parts.join (b'd' ∷ []) (first_named (bytes "india") files)
index_entries-first_example = index_entries-first parts.join (b'd' ∷ []) (bytes "india") files

-- The first of the two files for India is the one found.
first_india : first_named (bytes "india") files ≡ some (file (bytes "India.PNG"))
unfolding first_named is_picture is_backdrop_ext ext stem bytes text_eq to_lower
first_india = refl
