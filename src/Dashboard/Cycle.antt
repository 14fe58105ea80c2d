-- ===== src/Dashboard/Cycle.antt =====
-- internal/dashboard/dashboard.go: one pass over the genres (`ShowNewsCycle`), and over the stories of
-- one of them (`drainGenre`).
use atlas.Base.{
  ℕ, zero, suc, Bool, true, false, ◌&&◌, leb_ℤ, ltb_ℤ, List, [], ◌∷◌, map, ◌++◌, Text, bytes, ℤ,
  pos, pos_part, trim_space, is_empty, Option, none, some, quoted, if◌then◌else◌,
}
use atlas.Errors.{Result, ok, err, panic}
use atlas.News.{Source, Story}
use atlas.Kindle.Story.{StorySource, Story as KindleStory}
use atlas.Dashboard.{
  Options, StoryOptions, Parts, showed_genre, took_story, ran_story, Dashboard, Op, pure, ◌>>=◌,
  ◌>>◌, within, part, note, unless_over,
}
use atlas.Dashboard.Backdrops.{load_genre_backdrop}

abbrev to_source : Source → StorySource
to_source s = record { url = s.url; domain = s.domain; og_url = s.og_url }

-- `toKindleStory`
unfoldable pub to_kindle_story : Story → KindleStory
to_kindle_story s = record {
  story_id = s.story_id;
  event_id = s.event_id;
  title = s.title;
  description = s.description;
  genre = s.genre;
  sources = map to_source s.sources;
}

unfoldable pub second : ℤ
second = pos 1000000000

-- A hold that is not positive is ten seconds.
unfoldable pub with_holds : Options → Options
with_holds o = record o {
  genre_hold = if leb_ℤ o.genre_hold (pos 0) then pos 10000000000 else o.genre_hold;
  story_hold = if leb_ℤ o.story_hold (pos 0) then pos 10000000000 else o.story_hold;
}

unfoldable pub with_genre : Text → Story → Story
unfolding trim_space
with_genre genre story =
    if is_empty (trim_space story.genre) then record story { genre = genre } else story

-- How many stories of a queue a pass takes.
unfoldable pub turns : Options → ℕ → ℕ
turns o n =
    if ltb_ℤ (pos 0) o.max_stories_per_genre && ltb_ℤ o.max_stories_per_genre (pos n)
    then pos_part o.max_stories_per_genre
    else n

abbrev named : List Text → List Text
named [] = []
named (g ∷ gs) = if is_empty (trim_space g) then named gs else g ∷ named gs

module _ {S : Type 0} where
  -- `genres`
  unfoldable pub genres : Text → Op S (List Text)
  unfolding bytes trim_space
  genres filter =
      if is_empty (trim_space filter)
      then (do found ← within (bytes "get genres") (part (λ q. q.genres)); pure (named found))
      else pure (filter ∷ [])

  unfoldable pub show_genre : (genre assets_dir : Text) → Op S (Unit {0})
  unfolding bytes quoted load_genre_backdrop
  show_genre genre assets_dir = do
    backdrop ←
        within (bytes "genre backdrop for " ++ quoted genre) (load_genre_backdrop assets_dir genre)
    note (showed_genre genre)
    part (λ q. q.show_genre_screen genre backdrop.0)

  -- One story, up to the end of its time.
  unfoldable pub run_one : Options → (genre fallback : Text) → Story → Op S (Unit {0})
  unfolding bytes quoted to_kindle_story with_genre
  run_one o genre fallback story =
      let options : StoryOptions = record {
        font_path = o.font_path;
        fallback_image = fallback;
        allow_private_image = o.allow_private_images;
      } in
      let shown = to_kindle_story (with_genre genre story) in
      do
        note (ran_story shown options)
        within (bytes "run story " ++ quoted story.title)
            (part (λ q. q.run_story o.story_hold shown options))

  -- What is done with the story taken; `go_on` is the rest of the loop.
  unfoldable pub show_taken :
      Options → (genre fallback : Text) → Op S (Unit {0}) → Option Story → Op S (Unit {0})
  unfolding trim_space run_one
  show_taken o genre fallback go_on none = pure tt
  show_taken o genre fallback go_on (some story) =
      if is_empty (trim_space story.title)
      then go_on
      else run_one o genre fallback story >> unless_over (pure tt) go_on

  -- The loop of `drainGenre`, on the turns left.
  unfoldable pub drain_loop : Options → (genre fallback : Text) → ℕ → Op S (Unit {0})
  unfolding bytes quoted show_taken
  drain_loop o genre fallback zero = pure tt
  drain_loop o genre fallback (suc n) =
      let go_on = drain_loop o genre fallback n in
      unless_over (pure tt) (do
        note (took_story genre)
        taken ← within (bytes "next genre " ++ quoted genre) (part (λ q. q.next genre))
        show_taken o genre fallback go_on taken)

  abbrev pub fallback_of : Result (Text × Text) × Dashboard S → Result Text × Dashboard S
  fallback_of (ok b, d) = (ok b.0, d)
  fallback_of (err e, d) = (ok [], d)
  fallback_of (panic, d) = (panic, d)

  -- A picture that cannot be loaded is left out.
  unfoldable pub fallback : (genre assets_dir : Text) → Op S Text
  unfolding load_genre_backdrop
  fallback genre assets_dir p d = fallback_of (load_genre_backdrop assets_dir genre p d)

  unfoldable pub drain_genre : Text → Options → Op S (Unit {0})
  unfolding bytes quoted turns fallback drain_loop
  drain_genre genre o = do
    n ← within (bytes "len genre " ++ quoted genre) (part (λ q. q.len genre))
    image ← fallback genre o.assets_dir
    drain_loop o genre image (turns o n)

  -- `if err := wait(…); err != nil { return nil }`
  abbrev after_wait :
      Op S (Unit {0}) → Parts S → Result (Unit {0}) × Dashboard S → Result (Unit {0}) × Dashboard S
  after_wait rest p (ok _, d) = rest p d
  after_wait rest p (err e, d) = (ok tt, d)
  after_wait rest p (panic, d) = (panic, d)

  -- The loop of `ShowNewsCycle`
  unfoldable pub walk : Options → List Text → Op S (Unit {0})
  unfolding bytes quoted show_genre drain_genre
  walk o [] = pure tt
  walk o (genre ∷ later) = unless_over (pure tt) (do
    within (bytes "show genre " ++ quoted genre) (show_genre genre o.assets_dir)
    λ p d. after_wait (drain_genre genre o >> walk o later) p (part (λ q. q.wait o.genre_hold) p d))

  -- The store and the device are not nil.
  unfoldable pub show_news_cycle : Options → Op S (Unit {0})
  unfolding with_holds genres walk
  show_news_cycle options =
      let o = with_holds options in
      do
        found ← genres o.genre
        if is_empty found then part (λ q. q.wait o.genre_hold) else walk o found

  -- `ShowNews` for at most `n` passes; a pass after the end of the context is not started.
  unfoldable pub show_news : ℕ → Options → Op S Bool
  unfolding with_holds show_news_cycle
  show_news zero options = pure false
  show_news (suc n) options =
      let o = with_holds options in unless_over (pure true) (show_news_cycle o >> show_news n o)
