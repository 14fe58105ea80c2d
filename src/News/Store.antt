-- ===== src/News/Store.antt =====
-- internal/news/store.go: adding a story to its queue, taking the next one, and reading a queue.
-- internal/screennews/repository.go: the stories of the API's items.
use atlas.Base.{
  ℕ, zero, suc, Bool, true, false, ◌&&◌, is_empty, List, [], ◌∷◌, ◌++◌, Text, bytes, ℤ, pos, negsuc,
  ◌-ℤ◌, not, Option, none, some, if◌then◌else◌, quoted, itoa,
}
use atlas.Errors.{Error, Result, ok, err, panic, message, wrapped}
use atlas.News.{
  Source, Story, no_story, Codec, StoreOptions, normalize_genre, collection_key, genres_key,
  dead_letter_key, dedupe_key, ttl_seconds,
}
use atlas.GrpcServer.News.{Source as ItemSource, NewsItem}
use atlas.News.Redis.{Redis, Op, pure, fail, ◌>>=◌, ◌>>◌, within, script, request, command, query}

-- The rest of `pushScript`, by the answer of SET.
unfoldable pub marked :
    (r : Redis)
    → (queue genres : Text) → (encoded genre : Text) → ℤ
    → Result Bool × r.Server
    → Result ℕ × r.Server
marked r queue genres encoded genre max_stories (ok false, s) = (ok 0, s)
marked r queue genres encoded genre max_stories (ok true, s) = (
  ok 1,
  r.sadd genres genre (r.ltrim queue (pos 0 -ℤ max_stories) (negsuc 0) (r.rpush queue encoded s)),
)
marked r queue genres encoded genre max_stories (err e, s) = (err e, s)
marked r queue genres encoded genre max_stories (panic, s) = (panic, s)

-- `pushScript`: KEYS are a queue, the set of the genres and the mark of a story.
unfoldable pub push_script :
    (r : Redis)
    → (queue genres mark : Text) → (encoded genre : Text) → (max_stories seconds : ℤ) → r.Server
    → Result ℕ × r.Server
unfolding bytes marked
push_script r queue genres mark encoded genre max_stories seconds s =
    marked r queue genres encoded genre max_stories (r.set_nx_ex mark (bytes "1") seconds s)

abbrev lift : {S A : Type 0} → Result A → Op S A
lift a w t = (a, t)

-- The part of `Push` that is given a genre that is not blank.
unfoldable pub push_normalized :
    (r : Redis) → Codec → StoreOptions → Text → Story → Op r.Server (Unit {0})
unfolding bytes push_script
push_normalized r c o genre story = do
  encoded ← within (bytes "push: marshal normalized story") (lift (c.marshal story))
  let queue = collection_key o genre in
      within (bytes "rpush " ++ queue) (
        script (
          push_script r queue (genres_key o) (dedupe_key o c story encoded) encoded genre
            o.max_stories (ttl_seconds o)))
  pure tt

unfoldable pub push : (r : Redis) → Codec → StoreOptions → Text → Story → Op r.Server (Unit {0})
unfolding bytes push_normalized
push r c o genre story =
    let g = normalize_genre genre in
    if is_empty g
    then fail (message (bytes "push: genre is required"))
    else push_normalized r c o g (record story { genre = g })

-- The transaction that puts an item that cannot be read out of the way.
unfoldable pub quarantine : (r : Redis) → (queue dead item : Text) → r.Server → r.Server
quarantine r queue dead item s =
    r.ltrim dead (pos 0) (pos 99) (r.lpush dead item (r.lrem queue 1 item s))

-- The loop of `Next`, on the attempts left, with the variable `story` that every attempt decodes into.
unfoldable pub next_loop :
    (r : Redis) → Codec → (queue dead genre : Text) → ℕ → Story → Op r.Server (Option Story)
unfolding bytes quarantine quoted
next_loop r c queue dead genre zero story = pure none
next_loop r c queue dead genre (suc attempts) story = do
  moved ← within (bytes "lmove " ++ queue) (request (r.lmove_right_left queue queue))
  elim moved [
    | none ↦ pure none
    | some item ↦
        let decoded = (c.unmarshal item story).1 in
        elim (c.unmarshal item story).0 [
          | none ↦ pure (some decoded)
          | some e ↦ do
            within (bytes "quarantine invalid news item for genre " ++ quoted genre)
                (command (quarantine r queue dead item))
            next_loop r c queue dead genre attempts decoded
        ]
  ]

unfoldable pub next : (r : Redis) → Codec → StoreOptions → Text → Op r.Server (Option Story)
unfolding bytes next_loop no_story
next r c o genre = do
  let queue = collection_key o genre in
      do
        attempts ← within (bytes "llen " ++ queue) (query (r.llen queue))
        next_loop r c queue (dead_letter_key o) genre attempts no_story

unfoldable pub len : (r : Redis) → StoreOptions → Text → Op r.Server ℕ
unfolding bytes
len r o genre =
    let queue = collection_key o genre in within (bytes "llen " ++ queue) (query (r.llen queue))

unfoldable pub by_genre : (r : Redis) → StoreOptions → Text → Op r.Server (List Text)
unfolding bytes
by_genre r o genre =
    let queue = collection_key o genre in
    within (bytes "lrange " ++ queue) (query (r.lrange queue (pos 0) (negsuc 0)))

unfoldable pub decode_error : ℕ → Text → Error → Error
unfolding bytes itoa quoted
decode_error i genre e =
    wrapped (bytes "decode news item " ++ itoa i ++ bytes " for genre " ++ quoted genre) e

abbrev first_of : Option Error → Error → Option Error
first_of none e = some e
first_of (some e') e = some e'

-- The loop of `StoriesByGenre`: the stories read, and the first error.
unfoldable pub decode_all : Codec → Text → ℕ → List Text → Option Error → List Story × Option Error
unfolding decode_error no_story
decode_all c genre i [] first = ([], first)
decode_all c genre i (item ∷ raw) first = elim (c.unmarshal item no_story).0 [
  | none ↦
      let rest = decode_all c genre (suc i) raw first in
      ((c.unmarshal item no_story).1 ∷ rest.0, rest.1)
  | some e ↦ decode_all c genre (suc i) raw (first_of first (decode_error i genre e))
]

unfoldable pub stories_of : List Text → List Story × Option Error → Result (List Story)
stories_of raw (stories, none) = ok stories
stories_of raw (stories, some e) =
    if not (is_empty raw) && is_empty stories then err e else ok stories

unfoldable pub stories_by_genre :
    (r : Redis) → Codec → StoreOptions → Text → Op r.Server (List Story)
unfolding by_genre decode_all stories_of
stories_by_genre r c o genre = do
  raw ← by_genre r o genre
  lift (stories_of raw (decode_all c genre 0 raw none))

abbrev with_source : ItemSource → Result (List Source) → Result (List Source)
with_source s (ok rest) = ok (record { url = s.url; domain = s.domain; og_url = s.og_url } ∷ rest)
with_source s (err e) = err e
with_source s panic = panic

-- A nil source is dereferenced by the Go code; a normalized item has none.
unfoldable pub to_sources : List (Option ItemSource) → Result (List Source)
to_sources [] = ok []
to_sources (none ∷ is) = panic
to_sources (some s ∷ is) = with_source s (to_sources is)

abbrev story_with : NewsItem → Result (List Source) → Result Story
story_with i (ok sources) = ok record {
  story_id = i.story_id;
  event_id = i.event_id;
  title = i.title;
  description = i.description;
  genre = i.genre;
  sources = sources;
}
story_with i (err e) = err e
story_with i panic = panic

-- `toStory`
unfoldable pub to_story : NewsItem → Result Story
unfolding to_sources
to_story i = story_with i (to_sources i.sources)

-- `Redis.Add`
unfoldable pub add : (r : Redis) → Codec → StoreOptions → NewsItem → Op r.Server (Unit {0})
unfolding push to_story
add r c o i = do story ← lift (to_story i); push r c o i.genre story
