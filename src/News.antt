-- ===== src/News.antt =====
-- internal/news: the queues of news stories in Redis, and internal/screennews, which puts the items
-- of the API there. This file has the stories, the options of a store and its keys.
pub mod Redis
pub mod Store
mod Memory
mod Examples
pub mod Genres
mod Listing
mod Keys
mod Queue
mod Rotation
mod Pushing
use atlas.Base.{
  ℕ, Bool, true, false, ◌==◌, ◌||◌, ◌&&◌, if◌then◌else◌, leb_ℤ, leb, ltb, List, [], ◌∷◌, ◌++◌, Text,
  bytes, ℤ, pos, div_ℤ, Option, none, some, text_eq, trim_space, to_lower,
}
use atlas.Errors.{Error, Result}

pub record Source : Type 0 where
  pub url : Text
  pub domain : Text
  pub og_url : Text

pub record Story : Type 0 where
  pub story_id : Text
  pub event_id : Text
  pub title : Text
  pub description : Text
  pub genre : Text
  pub sources : List Source

-- `Story{}`
unfoldable pub no_story : Story
no_story = record {
  story_id = [];
  event_id = [];
  title = [];
  description = [];
  genre = [];
  sources = [];
}

-- The packages encoding/json and crypto/sha256, as the store uses them. Unmarshal fills the story it
-- is given, and may have filled some of it when it fails.
pub record Codec : Type 0 where
  pub marshal : Story → Result Text
  pub unmarshal : Text → Story → Option Error × Story
  pub sha256_hex : Text → Text

-- The time to live is counted in nanoseconds.
pub record StoreOptions : Type 0 where
  pub key_prefix : Text
  pub max_stories : ℤ
  pub deduplication_ttl : ℤ

-- `NewStoreWithOptions`
unfoldable pub new_options : StoreOptions → StoreOptions
new_options o = record {
  key_prefix = o.key_prefix;
  max_stories = if leb_ℤ o.max_stories (pos 0) then pos 100 else o.max_stories;
  deduplication_ttl =
      if leb_ℤ o.deduplication_ttl (pos 0) then pos 86400000000000 else o.deduplication_ttl;
}

unfoldable pub key : StoreOptions → Text → Text
key o value = o.key_prefix ++ value

unfoldable pub normalize_genre : Text → Text
unfolding trim_space to_lower
normalize_genre genre = to_lower (trim_space genre)

unfoldable pub raw_collection_key : StoreOptions → Text → Text
unfolding key bytes
raw_collection_key o genre = key o (bytes "news_collection_v2:" ++ genre)

unfoldable pub collection_key : StoreOptions → Text → Text
unfolding raw_collection_key
collection_key o genre = raw_collection_key o (normalize_genre genre)

unfoldable pub genres_key : StoreOptions → Text
unfolding key bytes
genres_key o = key o (bytes "genre")

unfoldable pub dead_letter_key : StoreOptions → Text
unfolding key bytes
dead_letter_key o = key o (bytes "news_dead_letter")

-- A story without its identifiers is told by its data.
unfoldable pub story_fingerprint : Codec → Story → Text → Text
unfolding trim_space text_eq
story_fingerprint c story encoded =
    let basis = story.genre ++ 0 ∷ trim_space story.story_id ++ 0 ∷ trim_space story.event_id in
    c.sha256_hex (if text_eq basis (story.genre ++ 0 ∷ 0 ∷ []) then encoded else basis)

unfoldable pub dedupe_key : StoreOptions → Codec → Story → Text → Text
unfolding key bytes story_fingerprint
dedupe_key o c story encoded = key o (bytes "news_dedupe:" ++ story_fingerprint c story encoded)

-- int64(ttl / time.Second)
unfoldable pub ttl_seconds : StoreOptions → ℤ
ttl_seconds o = div_ℤ o.deduplication_ttl 1000000000

-- strings compared by their bytes
unfoldable pub text_leb : Text → Text → Bool
text_leb [] t = true
text_leb (x ∷ s) [] = false
text_leb (x ∷ s) (y ∷ t) = ltb x y || (x == y && text_leb s t)
