-- ===== src/News/Genres.antt =====
-- internal/news/store.go: `Genres`, which lists the genres that have stories, mends the names of
-- those that are not normal, and drops the others.
use atlas.Base.{
  ℕ, Bool, false, ◌||◌, ltb, ◌==◌, is_empty, List, [], ◌∷◌, ◌++◌, length, Text, bytes, text_eq, ℤ,
  pos, negsuc, ◌-ℤ◌, if◌then◌else◌, quoted,
}
use atlas.News.{
  StoreOptions, normalize_genre, collection_key, raw_collection_key, genres_key, text_leb,
}
use atlas.News.Redis.{Redis, Op, pure, ◌>>=◌, ◌>>◌, within, ignored, request, command, query}

unfoldable pub push_all : (r : Redis) → Text → List Text → r.Server → r.Server
push_all r k [] s = s
push_all r k (item ∷ rest) s = push_all r k rest (r.rpush k item s)

-- `migrateGenreScript`: the stories of `from` go to the end of `to`, and the genre is renamed.
unfoldable pub migrate_script :
    (r : Redis)
    → (from to genres : Text) → (stored genre : Text) → (max_stories : ℤ) → r.Server
    → ℕ × r.Server
unfolding push_all text_eq
migrate_script r from to genres stored genre max_stories s =
    let moved = r.lrange from (pos 0) (negsuc 0) s in
    let s1 = push_all r to moved s in
    let s2 = if text_eq from to then s1 else r.del from s1 in
    let s3 = r.srem genres stored s2 in
    (
      length moved,
      if ltb 0 (r.llen to s3)
          then r.sadd genres genre (r.ltrim to (pos 0 -ℤ max_stories) (negsuc 0) s3)
          else s3,
    )

unfoldable pub member : Text → List Text → Bool
unfolding text_eq
member x [] = false
member x (y ∷ ys) = text_eq x y || member x ys

-- A stored name that is not normal gives its stories to the normal one.
unfoldable pub mend : (r : Redis) → StoreOptions → (stored genre : Text) → Op r.Server (Unit {0})
unfolding bytes quoted migrate_script text_eq
mend r o stored genre =
    if text_eq genre stored
    then pure tt
    else within (bytes "normalize genre " ++ quoted stored) (
        request (
          migrate_script r (raw_collection_key o stored) (collection_key o genre) (genres_key o)
            stored genre o.max_stories))
      >> pure tt

-- A genre without stories is dropped. `seen` of the code holds exactly the genres of `active`.
unfoldable pub keep_filled :
    (r : Redis) → StoreOptions → Text → List Text → ℕ → Op r.Server (List Text)
unfolding member
keep_filled r o genre active n =
    if n == 0
    then ignored (command (r.srem (genres_key o) genre)) >> pure active
    else pure (if member genre active then active else active ++ genre ∷ [])

-- One genre of the set
unfoldable pub visit_genre : (r : Redis) → StoreOptions → Text → List Text → Op r.Server (List Text)
unfolding bytes quoted mend keep_filled
visit_genre r o stored active =
    let genre = normalize_genre stored in
    if is_empty genre
    then ignored (command (r.srem (genres_key o) stored)) >> pure active
    else mend r o stored genre
      >> within (bytes "check genre " ++ quoted genre) (query (r.llen (collection_key o genre)))
      >>= keep_filled r o genre active

-- The loop of `Genres`
unfoldable pub visit_genres :
    (r : Redis) → StoreOptions → List Text → List Text → Op r.Server (List Text)
unfolding visit_genre
visit_genres r o [] active = pure active
visit_genres r o (stored ∷ rest) active = visit_genre r o stored active >>= visit_genres r o rest

-- sort.Strings
unfoldable pub insert : Text → List Text → List Text
unfolding text_leb
insert x [] = x ∷ []
insert x (y ∷ ys) = let rest = insert x ys in if text_leb x y then x ∷ y ∷ ys else y ∷ rest

unfoldable pub sort_strings : List Text → List Text
unfolding insert
sort_strings [] = []
sort_strings (x ∷ xs) = insert x (sort_strings xs)

unfoldable pub genres : (r : Redis) → StoreOptions → Op r.Server (List Text)
unfolding bytes visit_genres sort_strings
genres r o =
    let set = genres_key o in
    within (bytes "smembers " ++ set) (query (r.smembers set)) >>= λ stored.
    visit_genres r o stored [] >>= λ active. pure (sort_strings active)
