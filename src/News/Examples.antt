-- ===== src/News/Examples.antt =====
-- Queues of concrete stories on a small server, and instances of the theorems of the other files.
use atlas.Base.{
  ◌≤◌, false, List, [], ◌∷◌, ◌++◌, length, All, map, Text, bytes, pos, Option, text_eq,
  if◌then◌else◌, none, some, ◌≡◌, refl, arith,
}
use mathlib.Core.List.{reverse}
use atlas.Errors.{Error, ok, message}
use atlas.News.{
  Story, Codec, StoreOptions, no_story, normalize_genre, collection_key, raw_collection_key,
  ttl_seconds,
}
use atlas.News.Redis.{items, Session, Network, unanswered}
use atlas.News.Memory.{Memory, memory, memory_laws}
use atlas.News.Store.{push, next}
use atlas.News.Genres.{genres}
use atlas.News.Queue.{healthy, Leaves, next-finds, next-empties}
use atlas.News.Rotation.{take_turns, take_turns-cycle}
use atlas.News.Pushing.{Pushed, last, push-Pushed, push-appends, push-keeps_bound}
use atlas.News.Listing.{Gives, Ascending, Normal, genres-Ascending}

-- Stories that are told by their titles.
abbrev titled : Text → Story
titled title = record {
  story_id = [];
  event_id = [];
  title = title;
  description = [];
  genre = [];
  sources = [];
}

abbrev read : Text → Story → Option Error × Story
read [] old = (some (message []), old)
read (c ∷ title) old = (none, titled title)

abbrev codec : Codec
codec = record { marshal = λ s. ok (b'{' ∷ s.title); unmarshal = read; sha256_hex = λ s. s }

abbrev options : StoreOptions
options = record {
  key_prefix = bytes "p:";
  max_stories = pos 2;
  deduplication_ttl = pos 86400000000000;
}

abbrev queue : Text
queue = bytes "p:news_collection_v2:tech"

abbrev tech : Text
tech = bytes " Tech "

abbrev old_story : Text
old_story = bytes "{old"

abbrev new_story : Text
new_story = bytes "{new"

abbrev broken : Text
broken = []

abbrev holds : Text → List Text → List Text
holds k l = if text_eq k queue then l else []

abbrev session : List Text → Session Memory
session l = record {
  server = record { lists = λ k. holds k l; sets = λ k. tech ∷ bytes "x" ∷ []; marks = λ k. false };
  requests = 0;
}

next-finds_example :
    Leaves memory
      (collection_key options tech)
      (some (titled (bytes "new")))
      (new_story ∷ old_story ∷ [])
      (next memory codec options tech healthy (session (old_story ∷ new_story ∷ broken ∷ [])))
unfolding bytes collection_key text_eq normalize_genre
next-finds_example =
    next-finds memory memory_laws codec options tech (broken ∷ []) (old_story ∷ []) new_story
      (titled (bytes "new")) (session (old_story ∷ new_story ∷ broken ∷ [])) refl (λ _. refl)
      ((λ _ h. ground (arith, h)), tt)

next-empties_example :
    Leaves memory
      (collection_key options tech)
      none
      []
      (next memory codec options tech healthy (session (broken ∷ broken ∷ [])))
unfolding bytes collection_key text_eq normalize_genre
next-empties_example =
    next-empties memory memory_laws codec options tech (session (broken ∷ broken ∷ []))
      ((λ _ h. ground (arith, h)), ((λ _ h. ground (arith, h)), tt))

abbrev decoded : Text → Story
decoded [] = no_story
decoded (c ∷ title) = titled title

take_turns-cycle_example :
    ((take_turns memory codec options tech 2 (session (old_story ∷ new_story ∷ []))).0
      ≡ map (λ story. ok (some story)) (map decoded (reverse (old_story ∷ new_story ∷ []))))
    × (items memory
          (collection_key options tech)
          (take_turns memory codec options tech 2 (session (old_story ∷ new_story ∷ []))).1.server
        ≡ old_story ∷ new_story ∷ [])
unfolding bytes collection_key text_eq normalize_genre
take_turns-cycle_example =
    take_turns-cycle memory memory_laws codec options tech decoded (old_story ∷ new_story ∷ [])
      (session (old_story ∷ new_story ∷ [])) refl ((λ _. refl), ((λ _. refl), tt))

-- The answer of the first request is lost.
abbrev lossy : Network
lossy n = unanswered (message [])

push-Pushed_example :
    Pushed memory memory_laws codec options 2 tech
      (bytes "tech")
      new_story
      (session (old_story ∷ [])).server
      (push memory codec options tech
        (titled (bytes "new"))
        lossy
        (session (old_story ∷ []))).1.server
unfolding bytes
push-Pushed_example =
    push-Pushed memory memory_laws codec options 2 tech (bytes "tech") new_story
      (titled (bytes "new")) lossy (session (old_story ∷ [])) refl (omega arith) refl

push-appends_example :
    ((push memory codec options tech
        (titled (bytes "new"))
        healthy
        (session (old_story ∷ old_story ∷ []))).0
      ≡ ok tt)
    × (items memory
          (collection_key options tech)
          (push memory codec options tech
            (titled (bytes "new"))
            healthy
            (session (old_story ∷ old_story ∷ []))).1.server
        ≡ last 2 (
            items memory (collection_key options tech) (session (old_story ∷ old_story ∷ [])).server
            ++ new_story ∷ []))
unfolding bytes normalize_genre ttl_seconds
push-appends_example =
    push-appends memory memory_laws codec options 2 tech new_story (titled (bytes "new")) healthy
      (session (old_story ∷ old_story ∷ [])) refl (omega arith) refl refl refl refl

push-keeps_bound_example :
    length (
      items memory
        (collection_key options tech)
        (push memory codec options tech
          (titled (bytes "new"))
          lossy
          (session (old_story ∷ old_story ∷ []))).1.server)
    ≤ 2
unfolding bytes collection_key text_eq normalize_genre
push-keeps_bound_example =
    push-keeps_bound memory memory_laws codec options 2 tech tech new_story (titled (bytes "new"))
      lossy (session (old_story ∷ old_story ∷ [])) refl (omega arith) refl (omega arith)

genres-Ascending_example :
    Gives
      (λ names. Ascending names × All Normal names)
      (genres memory options healthy (session (old_story ∷ [])))
genres-Ascending_example = genres-Ascending memory options healthy (session (old_story ∷ []))

-- The genre with stories is listed, under its normal name, and the other is dropped.
genres_listed :
    (genres memory options healthy (session (old_story ∷ []))).0 ≡ ok (bytes "tech" ∷ [])
unfolding genres bytes normalize_genre raw_collection_key collection_key
genres_listed = refl
