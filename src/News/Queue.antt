-- ===== src/News/Queue.antt =====
-- internal/news/store.go: `Next` on a queue of which some items cannot be read, over a connection that
-- does not fail.
use atlas.Base.{
  snoc_cases, All-split, pos, ℕ, zero, suc, List, [], ◌∷◌, ◌++◌, length, length-append, All,
  append_assoc, Text, Option, none, some, Option-cases, ◌≡◌, ◌≢◌, refl, sym, ap, subst, ◌<◌, ◌∙◌,
  inl, inr, arith,
}
use atlas.Errors.{Result, ok}
use atlas.News.{Story, no_story, Codec, StoreOptions, collection_key, dead_letter_key}
use atlas.News.Keys.{queue-ne-dead}
use atlas.News.Redis.{Redis, ListLaws, items, Network, answered, Session}
use atlas.News.Store.{quarantine, next_loop, next}

-- Every request is carried out and answered.
abbrev pub healthy : Network
healthy n = answered

-- An item that is decoded to the story, whatever the variable held before.
abbrev pub Readable : Codec → Text → Story → Type 0
Readable c item story = (old : Story) → c.unmarshal item old ≡ (none, story)

abbrev pub Unreadable : Codec → Text → Type 0
Unreadable c item = (old : Story) → (c.unmarshal item old).0 ≢ none

-- The answer, and the queue that is left.
abbrev pub Leaves :
    (r : Redis)
    → Text
    → Option Story
    → List Text
    → Result (Option Story) × Session r.Server
    → Type 0
Leaves r q a l p = (p.0 ≡ ok a) × (items r q p.1.server ≡ l)

module _ (r : Redis) (laws : ListLaws r) (c : Codec) (q d genre : Text) (apart : q ≢ d) where
  quarantine-removes :
      (x : Text) (xs : List Text) (s : r.Server)
      → items r q s ≡ x ∷ xs
      → items r q (quarantine r q d x s) ≡ xs
  unfolding quarantine
  quarantine-removes x xs s e =
      laws.ltrim_apart q d (pos 0) (pos 99) (r.lpush d x (r.lrem q 1 x s)) apart
      ∙ laws.lpush_apart q d x (r.lrem q 1 x s) apart
      ∙ laws.lrem_head q x xs s e

  turn-Readable :
      (n : ℕ) (old story : Story) (xs : List Text) (v : Text) (t : Session r.Server)
      → items r q t.server ≡ xs ++ v ∷ []
      → Readable c v story
      → Leaves r q (some story) (v ∷ xs) (next_loop r c q d genre (suc n) old healthy t)
  unfolding next_loop
  turn-Readable n old story xs v t e h =
      let (moved, left) = laws.lmove_last q v xs t.server e in
      rw (moved, ap (λ p. p.0) (h old)) (ap (λ p. ok (some p.1)) (h old), left)

  abbrev Turned :
      Story → Session r.Server → List Text → ℕ → Result (Option Story) × Session r.Server → Type 0
  Turned old t xs n p = (items r q t.server ≡ xs) × (p ≡ next_loop r c q d genre n old healthy t)

  turn-Unreadable :
      (n : ℕ) (old : Story) (xs : List Text) (v : Text) (t : Session r.Server)
      → items r q t.server ≡ xs ++ v ∷ []
      → Unreadable c v
      → (old' : Story) × (t' : Session r.Server) × Turned old' t' xs n
          (next_loop r c q d genre (suc n) old healthy t)
  unfolding next_loop
  turn-Unreadable n old xs v t e h =
      let (moved, left) = laws.lmove_last q v xs t.server e in
      elim (Option-cases (c.unmarshal v old).0) [
        | inl good ↦ elim (h old good) [ ]
        | inr (e', bad) ↦ (
          (c.unmarshal v old).1,
          record {
            server = quarantine r q d v (r.lmove_right_left q q t.server).1;
            requests = suc (suc t.requests);
          },
          (quarantine-removes v xs (r.lmove_right_left q q t.server).1 left, rw (moved, bad) refl),
        )
      ]

  -- Items that cannot be read are put away until one can be, which is given out.
  pub next_loop-finds :
      (n : ℕ) (bad xs : List Text) (v : Text) (old story : Story) (t : Session r.Server)
      → items r q t.server ≡ xs ++ v ∷ bad
      → length bad < n
      → Readable c v story
      → All (Unreadable c) bad
      → Leaves r q (some story) (v ∷ xs) (next_loop r c q d genre n old healthy t)
  next_loop-finds zero bad xs v old story t e l h hs = elim l [ ]
  next_loop-finds (suc n) bad xs v old story t e l h hs = elim (snoc_cases bad) [
    | inl none_bad ↦ turn-Readable n old story xs v t (e ∙ ap (λ b. xs ++ v ∷ b) none_bad) h
    | inr (ys, y, is) ↦
        let split = All-split (Unreadable c) ys (y ∷ []) (subst (All (Unreadable c)) is hs) in
        let (old', t', (e', same)) =
          turn-Unreadable n old (xs ++ v ∷ ys) y t
            (e ∙ ap (λ b. xs ++ v ∷ b) is ∙ sym (append_assoc xs (v ∷ ys) (y ∷ []))) split.1.0 in
        rw same (
          next_loop-finds n ys xs v old' story t' e'
            (omega (arith, l, ap length is, length-append ys (y ∷ []))) h split.0)
  ]

  -- Where no item can be read, the queue is emptied, and nothing is given out.
  pub next_loop-empties :
      (n : ℕ) (bad : List Text) (old : Story) (t : Session r.Server)
      → items r q t.server ≡ bad
      → n ≡ length bad
      → All (Unreadable c) bad
      → Leaves r q none [] (next_loop r c q d genre n old healthy t)
  unfolding next_loop
  next_loop-empties zero [] old t e l hs = (refl, e)
  next_loop-empties zero (x ∷ bad) old t e l hs = ground arith
  next_loop-empties (suc n) bad old t e l hs = elim (snoc_cases bad) [
    | inl none_bad ↦ ground (arith, ap length none_bad)
    | inr (ys, y, is) ↦
        let split = All-split (Unreadable c) ys (y ∷ []) (subst (All (Unreadable c)) is hs) in
        let (old', t', (e', same)) = turn-Unreadable n old ys y t (e ∙ is) split.1.0 in
        rw same (
          next_loop-empties n ys old' t' e'
            (omega (arith, l, ap length is, length-append ys (y ∷ []))) split.0)
  ]

module _ (r : Redis) (laws : ListLaws r) (c : Codec) (o : StoreOptions) (genre : Text) where
  -- Over a connection that does not fail, and with the broken items at the end of the queue, the next
  -- story is the last item that can be read: it moves to the front, what stands before it stays,
  -- and the broken items behind it are gone from the queue.
  pub next-finds :
      (bad xs : List Text) (v : Text) (story : Story) (t : Session r.Server)
      → items r (collection_key o genre) t.server ≡ xs ++ v ∷ bad
      → Readable c v story
      → All (Unreadable c) bad
      → Leaves r (collection_key o genre) (some story) (v ∷ xs) (next r c o genre healthy t)
  unfolding next
  next-finds bad xs v story t e h hs = rw laws.llen_length (
      next_loop-finds r laws c (collection_key o genre) (dead_letter_key o) genre
        (queue-ne-dead o genre) (length (items r (collection_key o genre) t.server)) bad xs v
        no_story story (record { server = t.server; requests = suc t.requests }) e
        (omega (arith, ap length e, length-append xs (v ∷ bad))) h hs)

  -- Over a connection that does not fail, a queue of which no item can be read is emptied, and no
  -- story is given.
  pub next-empties :
      (t : Session r.Server)
      → All (Unreadable c) (items r (collection_key o genre) t.server)
      → Leaves r (collection_key o genre) none [] (next r c o genre healthy t)
  unfolding next
  next-empties t hs = rw laws.llen_length (
      next_loop-empties r laws c (collection_key o genre) (dead_letter_key o) genre
        (queue-ne-dead o genre) (length (items r (collection_key o genre) t.server))
        (items r (collection_key o genre) t.server) no_story
        (record { server = t.server; requests = suc t.requests }) refl refl hs)
