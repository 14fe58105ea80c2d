-- ===== src/GrpcServer/Examples.antt =====
-- Requests at concrete inputs.
use atlas.Base.{
  join, fields, words, runes, runes_from, tail_size, continuation, is_white, ◌≡◌, ◌≤◌, ◌++◌,
  has_prefix, refl, true, false, [], ◌∷◌, Text, bytes, text_eq, trim_space, drop_spaces, to_lower,
  itoa, some, none, Option, ◌⊎◌, inl, length, is_empty, if◌then◌else◌,
}
use atlas.Errors.{ok, Error}
use atlas.Alert.{Alert}
use atlas.GrpcServer.{valid_string, valid_from}
use atlas.GrpcServer.News.{
  NewsItem, ParseUri, normalize_news, normalize_sources, check_source, check_fields, cleaned,
  trimmed, good_url, add_news,
}
use atlas.GrpcServer.Accepted.{ValidFields, SourcesAccepted, normalize_news-Valid}
use atlas.GrpcServer.Stored.{StoresThenNotifies, add_news-stores}
use atlas.GrpcServer.Auth.{bearer_auth, valid_bearer_token}
use atlas.GrpcServer.Auth.Tokens.{bearer_auth-exact}
use atlas.GrpcServer.Alerts.{AlertRequest, severity_warning, add_alert}
use atlas.GrpcServer.Admission.{AdmitsOnlyValid, add_alert-admits}
use atlas.GrpcServer.StatusReport.{sanitize_status_error}
use atlas.GrpcServer.StatusReport.LastError.{OneLine, sanitize_status_error-OneLine}

program : Unit {0}
unfolding bytes text_eq trim_space drop_spaces to_lower itoa valid_string valid_from normalize_news
    normalize_sources check_source check_fields cleaned trimmed good_url
program = tt

truncated_text : valid_string (226 ∷ 130 ∷ []) ≡ false
unfolding valid_string valid_from
truncated_text = refl

abbrev item : NewsItem
unfolding bytes
item = record {
  story_id = [];
  event_id = [];
  title = bytes " Rain ";
  description = [];
  genre = bytes "World";
  sources = some (record { url = bytes "https://a.org"; domain = []; og_url = [] }) ∷ [];
}

abbrev accepted : NewsItem
unfolding bytes
accepted = record {
  story_id = [];
  event_id = [];
  title = bytes "Rain";
  description = [];
  genre = bytes "world";
  sources = some (record { url = bytes "https://a.org"; domain = []; og_url = [] }) ∷ [];
}

-- A parser that knows one URL.
abbrev parser : ParseUri
unfolding bytes
parser raw =
    if text_eq raw (bytes "https://a.org") then some (bytes "https", bytes "a.org") else none

item_accepted : normalize_news parser (some item) ≡ ok accepted
unfolding program item accepted parser
item_accepted = refl

normalize_news-Valid_example :
    ValidFields accepted
    × (length accepted.sources ≤ 10)
    × SourcesAccepted parser item.sources accepted.sources
normalize_news-Valid_example = normalize_news-Valid parser item accepted item_accepted

abbrev request : AlertRequest
unfolding bytes
request = record { color = bytes "red"; message = bytes " door "; severity = severity_warning }

abbrev admit : Alert → Text ⊎ Error
unfolding bytes
admit a = inl (bytes "queued")

add_alert-admits_example :
    AdmitsOnlyValid 1000
      (bytes "op")
      none
      admit
      (some request)
      (add_alert 1000 (bytes "op") none admit (some request))
add_alert-admits_example = add_alert-admits 1000 (bytes "op") none admit (some request)

abbrev took : NewsItem → Option Error
took out = none

add_news-stores_example :
    StoresThenNotifies parser (bytes "op") item took (add_news parser (bytes "op") took (some item))
add_news-stores_example = add_news-stores parser (bytes "op") took item

let_through : bearer_auth (bytes " secret ") (bytes "Bearer secret" ∷ []) ≡ true
unfolding bearer_auth valid_bearer_token bytes has_prefix text_eq trim_space drop_spaces
let_through = refl

bearer_auth-exact_example :
    (rest : Text) × (bytes "Bearer secret" ∷ [] ≡ (bytes "Bearer " ++ rest) ∷ [])
    × (trim_space rest ≡ trim_space (bytes " secret "))
    × (is_empty (trim_space (bytes " secret ")) ≡ false)
bearer_auth-exact_example =
    bearer_auth-exact (bytes " secret ") (bytes "Bearer secret" ∷ []) let_through

-- A line break of Unicode, and a byte that is no character.
two_lines :
    sanitize_status_error (10 ∷ bytes "bad " ++ 226 ∷ 128 ∷ 168 ∷ 128 ∷ 10 ∷ [])
    ≡ bytes "bad " ++ 128 ∷ []
unfolding sanitize_status_error bytes fields words runes runes_from tail_size continuation is_white
    join
two_lines = refl

sanitize_status_error-OneLine_example :
    OneLine (sanitize_status_error (128 ∷ bytes "bad  link"))
    × (length (sanitize_status_error (128 ∷ bytes "bad  link")) ≤ 2048)
sanitize_status_error-OneLine_example = sanitize_status_error-OneLine (128 ∷ bytes "bad  link")
