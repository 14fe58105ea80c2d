-- ===== src/GrpcServer/News.antt =====
-- internal/grpcserver/server.go: the normalization of a news item (`normalizeNews`) and `AddNews`.
use atlas.Base.{
  ℕ, suc, Bool, true, false, not, ◌&&◌, ◌||◌, ltb, List, [], ◌∷◌, ◌++◌, length, Text, bytes,
  text_eq, trim_space, to_lower, itoa, is_empty, Option, none, some, ◌⊎◌, inl, inr,
}
use atlas.Errors.{Error, Result, ok, err, panic, message, fail_if, error_text, ◌>>=◌, ◌>>◌}
use atlas.GrpcServer.{valid_string, code_invalid_argument, code_internal, Status}

pub record Source : Type 0 where
  pub url : Text
  pub domain : Text
  pub og_url : Text

-- A source of a request may be nil.
pub record NewsItem : Type 0 where
  pub story_id : Text
  pub event_id : Text
  pub title : Text
  pub description : Text
  pub genre : Text
  pub sources : List (Option Source)

-- What url.ParseRequestURI reads: a scheme and a host.
abbrev pub ParseUri : Type 0
ParseUri = Text → Option (Text × Text)

-- An empty URL is not looked at; any other is to be one of HTTP or HTTPS, with a host.
unfoldable pub good_url : ParseUri → Text → Bool
unfolding bytes text_eq
good_url parse raw = is_empty raw || elim (parse raw) [
  | none ↦ false
  | some (scheme, host) ↦
      (text_eq scheme (bytes "http") || text_eq scheme (bytes "https")) && not (is_empty host)
]

unfoldable pub trimmed : Source → Source
unfolding trim_space
trimmed s = record {
  url = trim_space s.url;
  domain = trim_space s.domain;
  og_url = trim_space s.og_url;
}

abbrev source_error : ℕ → Text → Error
unfolding bytes itoa
source_error i what = message (bytes "news source " ++ itoa i ++ what)

-- The checks of one source, in their order.
unfoldable pub check_source : ParseUri → ℕ → Source → Result (Unit {0})
unfolding bytes valid_string good_url source_error
check_source parse i s = do
  fail_if (is_empty s.url && is_empty s.domain) (source_error i (bytes " requires a URL or domain"))
  fail_if (not (valid_string s.url) || not (valid_string s.domain) || not (valid_string s.og_url))
      (source_error i (bytes " must be valid UTF-8"))
  fail_if (ltb 2048 (length s.url) || ltb 2048 (length s.og_url) || ltb 253 (length s.domain))
      (source_error i (bytes " exceeds field size limits"))
  fail_if (not (good_url parse s.url)) (source_error i (bytes " contains an invalid HTTP(S) URL"))
  fail_if (not (good_url parse s.og_url))
      (source_error i (bytes " contains an invalid HTTP(S) URL"))

-- The loop over the sources, from the given index.
unfoldable pub normalize_sources :
    ParseUri → ℕ → List (Option Source) → Result (List (Option Source))
unfolding bytes trimmed check_source source_error
normalize_sources parse i [] = ok []
normalize_sources parse i (none ∷ ss) = err (source_error i (bytes " is required"))
normalize_sources parse i (some s ∷ ss) = do
  check_source parse i (trimmed s)
  rest ← normalize_sources parse (suc i) ss
  ok (some (trimmed s) ∷ rest)

abbrev field_error : Text → Error
unfolding bytes
field_error name = message (bytes "news " ++ name ++ bytes " must be valid UTF-8")

-- The fields of the item, normalized, without its sources.
unfoldable pub cleaned : NewsItem → NewsItem
unfolding trim_space to_lower
cleaned item = record {
  story_id = trim_space item.story_id;
  event_id = trim_space item.event_id;
  title = trim_space item.title;
  description = trim_space item.description;
  genre = to_lower (trim_space item.genre);
  sources = [];
}

-- The checks of the fields. Go ranges over the field names in any order, so the one that is named
-- may be another of those that are not valid UTF-8.
unfoldable pub check_fields : NewsItem → Result (Unit {0})
unfolding bytes valid_string field_error
check_fields out = do
  fail_if (not (valid_string out.story_id)) (field_error (bytes "story ID"))
  fail_if (not (valid_string out.event_id)) (field_error (bytes "event ID"))
  fail_if (not (valid_string out.title)) (field_error (bytes "title"))
  fail_if (not (valid_string out.description)) (field_error (bytes "description"))
  fail_if (not (valid_string out.genre)) (field_error (bytes "genre"))
  fail_if (is_empty out.title) (message (bytes "news title is required"))
  fail_if (is_empty out.genre) (message (bytes "news genre is required"))
  fail_if
      (ltb 128 (length out.story_id)
        || ltb 128 (length out.event_id)
        || ltb 512 (length out.title)
        || ltb 4096 (length out.description)
        || ltb 64 (length out.genre))
      (message (bytes "news item exceeds field size limits"))

-- `normalizeNews`; a nil item is none.
unfoldable pub normalize_news : ParseUri → Option NewsItem → Result NewsItem
unfolding bytes cleaned check_fields normalize_sources
normalize_news parse none = err (message (bytes "news item is required"))
normalize_news parse (some item) = do
  check_fields (cleaned item)
  fail_if (ltb 10 (length item.sources)) (message (bytes "news item exceeds 10 sources"))
  sources ← normalize_sources parse 0 item.sources
  ok (record (cleaned item) { sources = sources })

-- What a request asks of the news store and of the supervisor, in order.
pub data Call : Type 0 where
  store_add : NewsItem → Call
  notify_news_changed : Call

pub record CommandAck : Type 0 where
  pub accepted : Bool
  pub operation_id : Text
  pub state : Text

-- The answer once the store has answered for a valid item.
unfoldable pub stored_answer : Text → NewsItem → Option Error → (CommandAck ⊎ Status) × List Call
unfolding bytes
stored_answer id out (some e) = (
  inr (record { code = code_internal; message = bytes "failed to store news item" }),
  store_add out ∷ [],
)
stored_answer id out none = (
  inl (record { accepted = true; operation_id = id; state = bytes "stored" }),
  store_add out ∷ notify_news_changed ∷ [],
)

-- `AddNews`: the answer, and the calls in order. `id` is the fresh operation ID and `stored` what
-- the store answers; what the supervisor answers is only logged.
unfoldable pub add_news :
    ParseUri
    → Text
    → (NewsItem → Option Error)
    → Option NewsItem
    → (CommandAck ⊎ Status) × List Call
unfolding bytes error_text
add_news parse id stored item = elim (normalize_news parse item) [
  | err e ↦ (inr (record { code = code_invalid_argument; message = error_text e }), [])
  | panic ↦ (inr (record { code = code_internal; message = [] }), [])
  | ok out ↦ stored_answer id out (stored out)
]
