-- ===== src/Dashboard/Turns/Drain.antt =====
-- internal/dashboard/dashboard.go: the stories that a pass over a genre takes and shows.
use atlas.Base.{
  ℕ, zero, suc, ◌≤◌, Bool-cases, false, [], ◌++◌, append-nil, Text, bytes, pos, trim_space,
  is_empty, Option, none, some, quoted, ◌≡◌, refl, sym, inl, inr, arith, if◌then◌else◌,
}
use atlas.Errors.{Result, ok, err, panic}
use atlas.News.{Story}
use atlas.Dashboard.{
  Options, StoryOptions, Parts, took_story, ran_story, looked_up, Backdrop, Dashboard, Op, pure,
  ◌>>=◌, ◌>>◌, within, part, note, unless_over,
}
use atlas.Dashboard.Backdrops.{
  load_genre_backdrop, answer_from, load_genre_file, load_backdrop, read_chosen, read_backdrop,
  index_backdrops, index_entries, choose, lookup, misc, cache_key,
}
use atlas.Dashboard.Cycle.{
  to_kindle_story, with_genre, turns, run_one, show_taken, drain_loop, fallback, fallback_of,
  drain_genre,
}
use atlas.Dashboard.Turns.{
  taken, Turn, Adds, none_added, Adds-more, then-Adds, chain-Adds, over-Adds, part-Adds, note-Adds,
}

with_genre-title :
    (genre : Text) (story : Story)
    → is_empty (trim_space story.title) ≡ false
    → is_empty (trim_space (with_genre genre story).title) ≡ false
unfolding with_genre
with_genre-title genre story h = elim (Bool-cases (is_empty (trim_space story.genre))) [
  | inl blank ↦ rw blank h
  | inr named ↦ rw named h
]

with_genre-genre :
    (genre : Text) (story : Story)
    → is_empty (trim_space genre) ≡ false
    → is_empty (trim_space (with_genre genre story).genre) ≡ false
unfolding with_genre
with_genre-genre genre story h = elim (Bool-cases (is_empty (trim_space story.genre))) [
  | inl blank ↦ rw blank h
  | inr named ↦ rw named named
]

nothing : Turn 0 []
unfolding taken
nothing = record { bounded = omega arith; fit = tt }

turns-le :
    (o : Options) (n limit : ℕ)
    → 1 ≤ limit
    → o.max_stories_per_genre ≡ pos limit
    → turns o n ≤ limit
unfolding turns
turns-le o n limit l m = rw m (ground arith)

module _ {S : Type 0} where
  run_one-Adds :
      (o : Options) (genre image : Text) (story : Story) (p : Parts S) (d : Dashboard S)
      → is_empty (trim_space story.title) ≡ false
      → is_empty (trim_space genre) ≡ false
      → Adds 0 d (run_one o genre image story p d)
  unfolding run_one taken bytes to_kindle_story
  run_one-Adds o genre image story p d title named =
      let shown = to_kindle_story (with_genre genre story) in
      let options : StoryOptions = record {
        font_path = o.font_path;
        fallback_image = image;
        allow_private_image = o.allow_private_images;
      } in
      then-Adds 0 0
        (λ _.
          within (bytes "run story " ++ quoted story.title)
            (part (λ q. q.run_story o.story_hold shown options)))
        p d (note (ran_story shown options) p d)
        (note-Adds 0 (ran_story shown options) p d record {
          bounded = omega arith;
          fit = ((with_genre-title genre story title, with_genre-genre genre story named), tt);
        })
        (λ _ d'.
          part-Adds (bytes "run story " ++ quoted story.title) d'
            (p.run_story o.story_hold shown options d'.world))

  show_taken-Adds :
      (o : Options) (genre image : Text) (n : ℕ) (go_on : Op S (Unit {0})) (p : Parts S)
      (found : Option Story) (d : Dashboard S)
      → is_empty (trim_space genre) ≡ false
      → ((d' : Dashboard S) → Adds n d' (go_on p d'))
      → Adds n d (show_taken o genre image go_on found p d)
  unfolding show_taken taken
  show_taken-Adds o genre image n go_on p none d named h =
      Adds-more 0 n d (ok tt, d) (omega arith) (none_added d (ok tt, d) refl)
  show_taken-Adds o genre image n go_on p (some story) d named h =
      elim (Bool-cases (is_empty (trim_space story.title))) [
        | inl blank ↦ rw (blank, show_taken) (h d)
        | inr titled ↦
            rw (titled, show_taken)
              (chain-Adds 0 n n (λ _. unless_over (pure tt) go_on) p d
                (run_one o genre image story p d) (omega arith)
                (run_one-Adds o genre image story p d titled named)
                (λ _ d'.
                  over-Adds n (pure tt) go_on p d' (p.context_error d'.world)
                    (λ e. Adds-more 0 n e (ok tt, e) (omega arith) (none_added e (ok tt, e) refl))
                    h))
      ]

  -- The loop takes at most as many stories as it has turns, and shows none without a title and a
  -- genre.
  drain_loop-Adds :
      (o : Options) (genre image : Text) (n : ℕ) (p : Parts S) (d : Dashboard S)
      → is_empty (trim_space genre) ≡ false
      → Adds n d (drain_loop o genre image n p d)
  unfolding drain_loop taken bytes
  drain_loop-Adds o genre image zero p d named = none_added d (ok tt, d) refl
  drain_loop-Adds o genre image (suc n) p d named =
      let t = bytes "next genre " ++ quoted genre in
      let go_on = drain_loop o genre image n in
      let taking = within t (part (λ q. q.next genre)) >>= show_taken o genre image go_on in
      over-Adds (suc n) (pure tt) (note (took_story genre) >> taking) p d (p.context_error d.world)
        (λ e. Adds-more 0 (suc n) e (ok tt, e) (omega arith) (none_added e (ok tt, e) refl))
        (λ e.
          chain-Adds 1 n (suc n) (λ _. taking) p e (note (took_story genre) p e) (omega arith)
            (note-Adds 1 (took_story genre) p e record { bounded = omega arith; fit = (tt, tt) })
            (λ _ e'.
              chain-Adds 0 n n (show_taken o genre image go_on) p e'
                (within t (part (λ q. q.next genre)) p e') (omega arith)
                (part-Adds t e' (p.next genre e'.world))
                (λ found e''.
                  show_taken-Adds o genre image n go_on p found e'' named
                    (λ d'. drain_loop-Adds o genre image n p d' named))))

  read_chosen-Adds :
      (dir genre : Text) (found : Option Text) (p : Parts S) (d : Dashboard S)
      → Adds 0 d (read_chosen dir genre found p d)
  unfolding read_chosen read_backdrop bytes misc
  read_chosen-Adds dir genre none p d = ([], sym (append-nil d.calls), nothing)
  read_chosen-Adds dir genre (some path) p d =
      let t = bytes "read backdrop " ++ path in
      chain-Adds 0 0 0 (λ contents. pure (contents, path)) p d
        (within t (part (λ q. q.read_file path)) p d) (omega arith)
        (part-Adds t d (p.read_file path d.world))
        (λ contents e. none_added {A = Text × Text} e (ok (contents, path), e) refl)

  index-Adds : (dir : Text) (p : Parts S) (d : Dashboard S) → Adds 0 d (index_backdrops dir p d)
  unfolding index_backdrops bytes
  index-Adds dir p d =
      let t = bytes "read backdrop dir " ++ dir in
      chain-Adds 0 0 0 (λ entries. pure (index_entries p.join dir entries [])) p d
        (within t (part (λ q. q.read_dir dir)) p d) (omega arith)
        (part-Adds t d (p.read_dir dir d.world))
        (λ entries e. none_added e (ok (index_entries p.join dir entries []), e) refl)

  load_backdrop-Adds :
      (dir genre : Text) (p : Parts S) (d : Dashboard S) → Adds 0 d (load_backdrop dir genre p d)
  unfolding load_backdrop bytes
  load_backdrop-Adds dir genre p d = elim (Bool-cases (is_empty (trim_space dir))) [
    | inl blank ↦ rw (blank, load_backdrop) ([], sym (append-nil d.calls), nothing)
    | inr named ↦
        rw (named, load_backdrop)
          (chain-Adds 0 0 0 (λ index. read_chosen dir genre (choose genre index)) p d
            (index_backdrops dir p d) (omega arith) (index-Adds dir p d)
            (λ index e. read_chosen-Adds dir genre (choose genre index) p e))
  ]

  answer_from-Adds :
      (key assets genre : Text) (found : Option Backdrop) (p : Parts S) (d : Dashboard S)
      → Adds 0 d (answer_from key assets genre found p d)
  unfolding answer_from load_genre_file taken
  answer_from-Adds key assets genre (some cached) p d = none_added d (cached, d) refl
  answer_from-Adds key assets genre none p d =
      chain-Adds 0 0 0 (λ _. load_genre_file assets genre) p d (note (looked_up key) p d)
        (omega arith)
        (note-Adds 0 (looked_up key) p d record { bounded = omega arith; fit = (tt, tt) })
        (λ _ e.
          load_backdrop-Adds
            (if is_empty (trim_space assets) then bytes "assets/genres" else trim_space assets)
            genre p e)

  fallback-Adds :
      (assets genre : Text) (p : Parts S) (d : Dashboard S) → Adds 0 d (fallback genre assets p d)
  unfolding fallback load_genre_backdrop
  fallback-Adds assets genre p d =
      let key = cache_key assets genre in
      kept (load_genre_backdrop assets genre p d)
        (answer_from-Adds key assets genre (lookup key d.backdrops) p d)
    where
      kept : (x : Result (Text × Text) × Dashboard S) → Adds 0 d x → Adds 0 d (fallback_of x)
      kept (ok b, e) h = h
      kept (err e', e) h = h
      kept (panic, e) h = h

  -- A pass over a genre with a limit takes at most that many stories from its queue, whatever the
  -- queue holds and whatever fails, and each story it shows has a title and a genre.
  pub drain_genre-Turn :
      (o : Options) (genre : Text) (limit : ℕ) (p : Parts S) (d : Dashboard S)
      → is_empty (trim_space genre) ≡ false
      → 1 ≤ limit
      → o.max_stories_per_genre ≡ pos limit
      → Adds limit d (drain_genre genre o p d)
  unfolding drain_genre bytes
  drain_genre-Turn o genre limit p d named l m =
      let t = bytes "len genre " ++ quoted genre in
      chain-Adds 0 limit limit
        (λ n. fallback genre o.assets_dir >>= λ image. drain_loop o genre image (turns o n)) p d
        (within t (part (λ q. q.len genre)) p d) (omega arith) (part-Adds t d (p.len genre d.world))
        (λ n e.
          chain-Adds 0 limit limit (λ image. drain_loop o genre image (turns o n)) p e
            (fallback genre o.assets_dir p e) (omega arith) (fallback-Adds o.assets_dir genre p e)
            (λ image e'.
              Adds-more (turns o n) limit e' (drain_loop o genre image (turns o n) p e')
                (turns-le o n limit l m) (drain_loop-Adds o genre image (turns o n) p e' named)))
