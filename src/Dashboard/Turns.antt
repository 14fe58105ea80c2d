-- ===== src/Dashboard/Turns.antt =====
-- internal/dashboard/dashboard.go: which calls a pass makes, on every branch.
pub mod Drain
use atlas.Base.{
  ℕ, zero, suc, ◌+◌, ◌≤◌, Bool-cases, false, List, [], ◌∷◌, ◌++◌, append-nil, append_assoc, All,
  All-append, Text, bytes, pos, trim_space, is_empty, Option, none, some, quoted, ◌≡◌, refl, sym,
  ap, ◌∙◌, inl, inr, arith, if◌then◌else◌,
}
use atlas.Errors.{Error, Result, ok, err, panic}
use atlas.News.{Story}
use atlas.Dashboard.{
  Options, StoryOptions, Parts, Call, showed_genre, took_story, ran_story, looked_up, Backdrop,
  Dashboard, Op, pure, continue, ◌>>=◌, ◌>>◌, within, add_prefix, part, put_world, note,
  unless_over, over_or,
}
use atlas.Dashboard.Backdrops.{
  load_genre_backdrop, answer_from, load_genre_file, load_backdrop, read_chosen, read_backdrop,
  index_backdrops, index_entries, choose, lookup, misc, cache_key,
}
use atlas.Dashboard.Cycle.{
  to_kindle_story, with_genre, turns, run_one, show_taken, drain_loop, fallback, fallback_of,
  drain_genre,
}

-- The stories taken from the store.
unfoldable pub taken : List Call → ℕ
taken [] = 0
taken (took_story genre ∷ calls) = suc (taken calls)
taken (showed_genre genre ∷ calls) = taken calls
taken (ran_story story options ∷ calls) = taken calls
taken (looked_up key ∷ calls) = taken calls

pub taken-append : (xs ys : List Call) → taken (xs ++ ys) ≡ taken xs + taken ys
unfolding taken
taken-append [] ys = omega arith
taken-append (took_story genre ∷ xs) ys = omega (arith, taken-append xs ys)
taken-append (showed_genre genre ∷ xs) ys = taken-append xs ys
taken-append (ran_story story options ∷ xs) ys = taken-append xs ys
taken-append (looked_up key ∷ xs) ys = taken-append xs ys

-- A story is shown only with a title and a genre that are not blank.
abbrev pub Fit : Call → Type 0
Fit (showed_genre genre) = Unit
Fit (took_story genre) = Unit
Fit (ran_story story options) =
    (is_empty (trim_space story.title) ≡ false) × (is_empty (trim_space story.genre) ≡ false)
Fit (looked_up key) = Unit

-- At most `n` stories taken, and those shown are fit to be.
pub record Turn (n : ℕ) (calls : List Call) : Type 0 where
  pub bounded : taken calls ≤ n
  pub fit : All Fit calls

pub Turn-append : (m n : ℕ) (xs ys : List Call) → Turn m xs → Turn n ys → Turn (m + n) (xs ++ ys)
Turn-append m n xs ys hx hy = record {
  bounded = omega (arith, hx.bounded, hy.bounded, taken-append xs ys);
  fit = All-append Fit xs ys hx.fit hy.fit;
}

module _ {S : Type 0} where
  -- The calls that an operation adds, whatever its result.
  abbrev pub Adds : {A : Type 0} → ℕ → Dashboard S → Result A × Dashboard S → Type 0
  Adds n d x = (new : List Call) × (x.1.calls ≡ d.calls ++ new) × Turn n new

  pub none_added :
      {A : Type 0} (d : Dashboard S) (x : Result A × Dashboard S) → x.1.calls ≡ d.calls → Adds 0 d x
  unfolding taken
  none_added d x e = ([], e ∙ sym (append-nil d.calls), record { bounded = omega arith; fit = tt })

  pub Adds-more :
      {A : Type 0} (m n : ℕ) (d : Dashboard S) (x : Result A × Dashboard S)
      → m ≤ n
      → Adds m d x
      → Adds n d x
  Adds-more m n d x l (new, e, h) =
      (new, e, record { bounded = omega (arith, l, h.bounded); fit = h.fit })

  pub add_prefix-Adds :
      {A : Type 0} (n : ℕ) (t : Text) (d : Dashboard S) (x : Result A × Dashboard S)
      → Adds n d x
      → Adds n d (add_prefix t x)
  add_prefix-Adds n t d (ok a, d') h = h
  add_prefix-Adds n t d (err e, d') h = h
  add_prefix-Adds n t d (panic, d') h = h

  pub after-Adds :
      {A : Type 0} (m n : ℕ) (d d' : Dashboard S) (y : Result A × Dashboard S) (new : List Call)
      → d'.calls ≡ d.calls ++ new
      → Turn m new
      → Adds n d' y
      → Adds (m + n) d y
  after-Adds m n d d' y new e h (more, e', h') = (
    new ++ more,
    e' ∙ ap (λ l. l ++ more) e ∙ append_assoc d.calls new more,
    Turn-append m n new more h h',
  )

  pub then-Adds :
      {A B : Type 0} (m n : ℕ) (f : A → Op S B) (p : Parts S) (d : Dashboard S)
      (x : Result A × Dashboard S)
      → Adds m d x
      → ((a : A) (d' : Dashboard S) → Adds n d' (f a p d'))
      → Adds (m + n) d (continue f p x)
  then-Adds m n f p d (ok a, d') (new, e, h) k = after-Adds m n d d' (f a p d') new e h (k a d')
  then-Adds {B = B} m n f p d (err e', d') h k =
      Adds-more {A = B} m (m + n) d (err e', d') (omega arith) h
  then-Adds {B = B} m n f p d (panic, d') h k =
      Adds-more {A = B} m (m + n) d (panic, d') (omega arith) h

  pub chain-Adds :
      {A B : Type 0} (m n k : ℕ) (f : A → Op S B) (p : Parts S) (d : Dashboard S)
      (x : Result A × Dashboard S)
      → m + n ≤ k
      → Adds m d x
      → ((a : A) (d' : Dashboard S) → Adds n d' (f a p d'))
      → Adds k d (continue f p x)
  chain-Adds m n k f p d x l h h' =
      Adds-more (m + n) k d (continue f p x) l (then-Adds m n f p d x h h')

  pub over-Adds :
      {A : Type 0} (n : ℕ) (return_now rest : Op S A) (p : Parts S) (d : Dashboard S)
      (o : Option Error × S)
      → ((d' : Dashboard S) → Adds n d' (return_now p d'))
      → ((d' : Dashboard S) → Adds n d' (rest p d'))
      → Adds n d (over_or return_now rest p d o)
  over-Adds n return_now rest p d (none, s) h k = k (record d { world = s })
  over-Adds n return_now rest p d (some e, s) h k = h (record d { world = s })

  pub part-Adds :
      {A : Type 0} (t : Text) (d : Dashboard S) (x : Result A × S)
      → Adds 0 d (add_prefix t (put_world d x))
  part-Adds t d (a, s) =
      add_prefix-Adds 0 t d (a, record d { world = s })
        (none_added d (a, record d { world = s }) refl)

  pub note-Adds :
      (n : ℕ) (c : Call) (p : Parts S) (d : Dashboard S) → Turn n (c ∷ []) → Adds n d (note c p d)
  note-Adds n c p d h = (c ∷ [], refl, h)
