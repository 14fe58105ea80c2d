-- ===== src/Dashboard/Wiring.antt =====
-- The dashboard on the store of internal/news and the device of internal/kindle: how
-- internal/dashboard/dashboard.go calls the two.
use atlas.Base.{ℕ, Bool, List, Text, ℤ, Option, none, some}
use atlas.Errors.{Error, Result, ok, err}
use atlas.News.{Codec, StoreOptions}
use atlas.News.Redis.{Redis, Session, Network}
use atlas.News.Store.{len, next}
use atlas.News.Genres.{genres}
use atlas.Kindle.Device.Link.{Environment, Device}
use atlas.Kindle.Genre.{show_genre_screen}
use atlas.Kindle.Story.Run.{Pictures, run_story}
use atlas.Dashboard.{DirEntry, Parts}

-- What is neither store nor device: how a wait ends, given what the Kindle has been sent, the files,
-- the preparation of a genre's picture, and the pictures of the stories, by whether private hosts
-- are allowed.
pub record Outside : Type 0 where
  pub wait : ℤ → Device → Option Error
  pub read_dir : Text → Result (List DirEntry)
  pub read_file : Text → Result Text
  pub join : Text → Text → Text
  pub prepare : Text → (width height : ℕ) → Result Text
  pub pictures : Bool → Pictures

pub record World (Server : Type 0) : Type 0 where
  pub session : Session Server
  pub device : Device

abbrev of_store :
    {Server A : Type 0} → World Server → Result A × Session Server → Result A × World Server
of_store v (a, t) = (a, record v { session = t })

abbrev of_device : {Server A : Type 0} → World Server → Result A × Device → Result A × World Server
of_device v (a, d) = (a, record v { device = d })

abbrev waited : Option Error → Result (Unit {0})
waited none = ok tt
waited (some e) = err e

unfoldable pub wired :
    (r : Redis) → Codec → StoreOptions → Network → Environment → Outside → Parts (World r.Server)
unfolding genres len next show_genre_screen run_story
wired r c o n e out = record {
  context_error = λ v. (e.context_error v.device.sent, v);
  genres = λ v. of_store v (genres r o n v.session);
  len = λ genre v. of_store v (len r o genre n v.session);
  next = λ genre v. of_store v (next r c o genre n v.session);
  show_genre_screen =
      λ genre image v. of_device v (show_genre_screen out.prepare genre image e v.device);
  run_story = λ hold story options v. of_device v (
      run_story (out.pictures options.allow_private_image) story
        record { font_path = options.font_path; fallback_image = options.fallback_image } e
        v.device);
  wait = λ hold v. (waited (out.wait hold v.device), v);
  read_dir = λ dir v. (out.read_dir dir, v);
  read_file = λ path v. (out.read_file path, v);
  join = out.join;
}
