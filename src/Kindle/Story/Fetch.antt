-- ===== src/Kindle/Story/Fetch.antt =====
-- internal/kindle/story.go: the fetch of a story's picture: which addresses it may come from, the
-- request, its retry, and what is accepted as a picture.

pub mod Accepted
mod Examples
use atlas.Base.{
  ℕ, ◌+◌, Bool, true, false, ◌&&◌, ◌||◌, not, leb, ltb, ltb_ℤ, ◌==◌, min, List, [], ◌∷◌, ◌++◌,
  length, take, Text, bytes, text_eq, ℤ, pos, trim_space, to_lower, has_prefix, is_empty, quoted,
  Option, none, some, if◌then◌else◌,
}
use atlas.Errors.{Error, Result, ok, err, panic, message, fail_if, with_prefix, ◌>>=◌, ◌>>◌}

-- A net.IP by what its methods say of it.
pub record Ip : Type 0 where
  pub loopback : Bool
  pub private : Bool
  pub link_local_unicast : Bool
  pub link_local_multicast : Bool
  pub unspecified : Bool
  pub multicast : Bool

pub record Url : Type 0 where
  pub scheme : Text
  pub host : Text
  pub hostname : Text
  pub has_user : Bool
  pub raw_query : Text

-- The size of the body is what the header says of it, which may be -1.
pub record Response : Type 0 where
  pub status_code : ℕ
  pub status : Text
  pub content_length : ℤ
  pub content_type : Text
  pub body : Result Text

-- The packages net/url, net and net/http: parsing a URL, printing one without query and fragment,
-- resolving a host, dialling an address, and doing a request with the given checks of redirects and
-- connections. A nil address is none.
pub record Web : Type 0 where
  pub parse : Text → Result Url
  pub without_query : Text → Text
  pub lookup : Text → Result (List (Option Ip))
  pub split_host_port : Text → Result (Text × Text)
  pub dial : Option Ip → Text → Result (Unit {0})
  pub valid_request : Text → Result (Unit {0})
  pub perform :
      (check_redirect : ℕ → Text → Result (Unit {0}))
      → (connect : Text → Result (Unit {0})) → (url referer : Text) → Result Response

-- `isPublicIP`
unfoldable pub is_public_ip : Option Ip → Bool
is_public_ip none = false
is_public_ip (some ip) =
    not ip.loopback
    && not ip.private
    && not ip.link_local_unicast
    && not ip.link_local_multicast
    && not ip.unspecified
    && not ip.multicast

unfoldable pub check_addresses : Bool → List (Option Ip) → Result (Unit {0})
unfolding bytes is_public_ip
check_addresses allow_private [] = ok tt
check_addresses allow_private (ip ∷ ips) = do
  fail_if (not allow_private && not (is_public_ip ip))
      (message (bytes "image URL resolves to a private or local address"))
  check_addresses allow_private ips

abbrev bad_url : Result Url → Bool
bad_url (ok u) = not (text_eq u.scheme (bytes "https")) || is_empty u.hostname || u.has_user
bad_url (err e) = true
bad_url panic = true

abbrev hostname_of : Result Url → Text
hostname_of (ok u) = u.hostname
hostname_of (err e) = []
hostname_of panic = []

-- `validateImageURL`
unfoldable pub validate_image_url : Web → Text → Bool → Result (Unit {0})
unfolding bytes text_eq check_addresses
validate_image_url w raw allow_private = do
  fail_if (bad_url (w.parse raw))
      (message (bytes "image URL must be public HTTPS without credentials"))
  with_prefix (bytes "resolve image host") (w.lookup (hostname_of (w.parse raw))) >>= λ addresses.
      fail_if (is_empty addresses) (message (bytes "image host has no addresses"))
      >> check_addresses allow_private addresses

-- The first address that is permitted
unfoldable pub permitted : Bool → List (Option Ip) → Option (Option Ip)
unfolding is_public_ip
permitted allow_private [] = none
permitted allow_private (ip ∷ ips) =
    let later = permitted allow_private ips in
    if not allow_private && not (is_public_ip ip) then later else some ip

abbrev dial_permitted : Web → Text → Option (Option Ip) → Result (Unit {0})
dial_permitted w port none = err (message (bytes "image host has no permitted address"))
dial_permitted w port (some ip) = w.dial ip port

-- `imageDialer`: the addresses are looked up again when the connection is made.
unfoldable pub image_dialer : Web → Bool → Text → Result (Unit {0})
unfolding bytes permitted
image_dialer w allow_private address = w.split_host_port address >>= λ target.
    w.lookup target.0 >>= λ addresses. dial_permitted w target.1 (permitted allow_private addresses)

unfoldable pub contains : (part whole : Text) → Bool
unfolding has_prefix
contains part [] = is_empty part
contains part (c ∷ whole) = has_prefix (c ∷ whole) part || contains part whole

abbrev referer_of : Result Url → Text
referer_of (err e) = []
referer_of panic = []
referer_of (ok u) =
    if is_empty u.scheme || is_empty u.host
    then []
    else if contains (bytes "ndtvimg") (to_lower u.host)
    then bytes "https://www.ndtv.com/"
    else u.scheme ++ bytes "://" ++ u.host ++ bytes "/"

-- `refererForImageURL`
unfoldable pub referer_for_image_url : Web → Text → Text
unfolding bytes to_lower contains
referer_for_image_url w raw = referer_of (w.parse raw)

-- `looksLikeHTML`
unfoldable pub looks_like_html : Text → Bool
unfolding bytes trim_space to_lower has_prefix contains
looks_like_html contents =
    let trim = trim_space contents in
    let prefix = to_lower (take (min 64 (length trim)) trim) in
    not (ltb (length trim) 15)
    && (has_prefix prefix (bytes "<!doctype html")
        || has_prefix prefix (bytes "<html")
        || contains (bytes "<html") prefix)

abbrev pub max_image_bytes : ℕ
max_image_bytes = 12582912

-- What is asked of the data
unfoldable pub check_data : (content_type contents : Text) → Result Text
unfolding bytes to_lower has_prefix quoted looks_like_html
check_data content_type contents = do
  fail_if (is_empty contents || ltb max_image_bytes (length contents))
      (message (bytes "image size must be between 1 byte and 12 MiB"))
  fail_if
      (not (is_empty (to_lower content_type))
        && not (has_prefix (to_lower content_type) (bytes "image/"))
        && not (has_prefix (to_lower content_type) (bytes "application/octet-stream")))
      (message
        (bytes "image request returned non-image content-type " ++ quoted (to_lower content_type)))
  fail_if (looks_like_html contents)
      (message (bytes "image request returned HTML instead of image data"))
  ok contents

-- The answer to the request; the body is read up to one byte more than is accepted.
unfoldable pub accept_response : Response → Result Text
unfolding bytes check_data
accept_response r = do
  fail_if (ltb r.status_code 200 || ltb 299 r.status_code)
      (message (bytes "image request returned " ++ r.status))
  fail_if (ltb_ℤ (pos max_image_bytes) r.content_length) (message (bytes "image exceeds 12 MiB"))
  r.body >>= λ body. check_data r.content_type (take (max_image_bytes + 1) body)

unfoldable pub check_redirect : Web → Bool → ℕ → Text → Result (Unit {0})
unfolding bytes validate_image_url
check_redirect w allow_private via url = do
  fail_if (leb 5 via) (message (bytes "too many image redirects"))
  validate_image_url w url allow_private

-- `getStoryImageURL`
unfoldable pub get_story_image_url : Web → Text → Bool → Result Text
unfolding validate_image_url check_redirect image_dialer referer_for_image_url accept_response
get_story_image_url w url allow_private =
    validate_image_url w url allow_private
    >> (w.valid_request url
        >> (w.perform (check_redirect w allow_private) (image_dialer w allow_private) url
              (referer_for_image_url w url)
            >>= accept_response))

abbrev stripped_of : Web → Text → Result Url → Text
stripped_of w raw (ok u) = if is_empty u.raw_query then raw else w.without_query raw
stripped_of w raw (err e) = raw
stripped_of w raw panic = raw

-- `stripURLQuery`
unfoldable pub strip_url_query : Web → Text → Text
strip_url_query w raw = stripped_of w raw (w.parse raw)

abbrev pub retried : Error → Result Text → Result Text
retried e (ok retry) = ok retry
retried e (err e') = err e
retried e panic = panic

abbrev pub first_or_retry : Web → Text → Bool → Result Text → Result Text
first_or_retry w url allow_private (ok found) = ok found
first_or_retry w url allow_private panic = panic
first_or_retry w url allow_private (err e) =
    let stripped = strip_url_query w url in
    if text_eq stripped url then err e else retried e (get_story_image_url w stripped allow_private)

-- `fetchStoryImageWithPolicy`: the bare path is tried once more.
unfoldable pub fetch_story_image : Web → Text → Bool → Result Text
unfolding get_story_image_url strip_url_query text_eq
fetch_story_image w url allow_private =
    first_or_retry w url allow_private (get_story_image_url w url allow_private)
