-- ===== src/Dashboard.antt =====
-- internal/dashboard: the passes of the news over the genres (dashboard.go) and the pictures of the
-- genres (backdrops.go). This file has what a `Dashboard` works on and how its calls are made.
pub mod Backdrops
pub mod Cycle
pub mod Wiring
mod Turns
mod Examples
mod Files
use atlas.Base.{ℕ, Bool, List, [], ◌∷◌, ◌++◌, Text, ℤ, Option, none, some}
use atlas.Errors.{Error, Result, ok, err, panic, wrapped}
use atlas.News.{Story}
use atlas.Kindle.Story.{Story as KindleStory}

pub record DirEntry : Type 0 where
  pub is_dir : Bool
  pub name : Text

pub record Options : Type 0 where
  pub genre : Text
  pub font_path : Text
  pub assets_dir : Text
  pub genre_hold : ℤ  -- time.Duration
  pub story_hold : ℤ
  pub max_stories_per_genre : ℤ
  pub allow_private_images : Bool

-- kindle.StoryOptions as `drainGenre` fills it
pub record StoryOptions : Type 0 where
  pub font_path : Text
  pub fallback_image : Text
  pub allow_private_image : Bool

-- What the dashboard calls, over the state of the rest of the world: its context, the store of the
-- news, the device, a timer and the files.
pub record Parts (S : Type 0) : Type 0 where
  pub context_error : S → Option Error × S
  pub genres : S → Result (List Text) × S
  pub len : Text → S → Result ℕ × S
  pub next : Text → S → Result (Option Story) × S
  pub show_genre_screen : (genre image : Text) → S → Result (Unit {0}) × S
  pub run_story : (hold : ℤ) → KindleStory → StoryOptions → S → Result (Unit {0}) × S
  pub wait : ℤ → S → Result (Unit {0}) × S
  pub read_dir : Text → S → Result (List DirEntry) × S
  pub read_file : Text → S → Result Text × S
  pub join : (dir name : Text) → Text  -- filepath.Join

-- The calls that show something, take a story or read the files.
pub data Call : Type 0 where
  showed_genre : Text → Call
  took_story : Text → Call
  ran_story : KindleStory → StoryOptions → Call
  looked_up : Text → Call

-- `cachedBackdrop`: the data and the path, or the error
abbrev pub Backdrop : Type 0
Backdrop = Result (Text × Text)

-- A `Dashboard`, whose map of backdrops is a list with the newest first, and the calls it has made,
-- in order.
pub record Dashboard (S : Type 0) : Type 0 where
  pub world : S
  pub backdrops : List (Text × Backdrop)
  pub calls : List Call

abbrev pub Op : Type 0 → Type 0 → Type 0
Op S A = Parts S → Dashboard S → Result A × Dashboard S

module _ {S : Type 0} where
  -- `New`
  unfoldable pub new : S → Dashboard S
  new world = record { world = world; backdrops = []; calls = [] }

  abbrev pub pure : {A : Type 0} → A → Op S A
  pure a p d = (ok a, d)

  abbrev pub fail : {A : Type 0} → Error → Op S A
  fail e p d = (err e, d)

  abbrev pub continue :
      {A B : Type 0} → (A → Op S B) → Parts S → Result A × Dashboard S → Result B × Dashboard S
  continue f p (ok a, d) = f a p d
  continue f p (err e, d) = (err e, d)
  continue f p (panic, d) = (panic, d)

  infixl 5 ◌>>=◌ ◌>>◌
  abbrev pub ◌>>=◌ : {A B : Type 0} → Op S A → (A → Op S B) → Op S B
  ◌>>=◌ m f p d = continue f p (m p d)

  abbrev pub ◌>>◌ : {A B : Type 0} → Op S A → Op S B → Op S B
  m >> k = m >>= λ _. k

  abbrev pub add_prefix : {A : Type 0} → Text → Result A × Dashboard S → Result A × Dashboard S
  add_prefix t (ok a, d) = (ok a, d)
  add_prefix t (err e, d) = (err (wrapped t e), d)
  add_prefix t (panic, d) = (panic, d)

  abbrev pub within : {A : Type 0} → Text → Op S A → Op S A
  within t m p d = add_prefix t (m p d)

  abbrev pub put_world : {A : Type 0} → Dashboard S → A × S → A × Dashboard S
  put_world d (a, s) = (a, record d { world = s })

  -- A call of a part.
  abbrev pub part : {A : Type 0} → (Parts S → S → Result A × S) → Op S A
  part f p d = put_world d (f p d.world)

  abbrev pub note : Call → Op S (Unit {0})
  note c p d = (ok tt, record d { calls = d.calls ++ c ∷ [] })

  abbrev over_or :
      {A : Type 0}
      → Op S A
      → Op S A
      → Parts S
      → Dashboard S
      → Option Error × S
      → Result A × Dashboard S
  over_or return_now rest p d (none, s) = rest p (record d { world = s })
  over_or return_now rest p d (some e, s) = return_now p (record d { world = s })

  -- `if err := ctx.Err(); err != nil { return … }`: the first operation is the return.
  abbrev pub unless_over : {A : Type 0} → Op S A → Op S A → Op S A
  unless_over return_now rest p d = over_or return_now rest p d (p.context_error d.world)
