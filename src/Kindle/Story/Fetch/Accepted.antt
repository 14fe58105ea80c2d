-- ===== src/Kindle/Story/Fetch/Accepted.antt =====
-- internal/kindle/story.go: what is true of a picture that has been fetched, and of the hosts that it can
-- come from.
use atlas.Base.{
  ℕ, zero, suc, ◌+◌, ◌≤◌, min, trim_space, Bool-cases, Bool, true, false, ◌&&◌, ◌||◌, not, ltb,
  ltb_ℤ, List, [], ◌∷◌, length, take, All, Text, bytes, text_eq, pos, to_lower, has_prefix,
  is_empty, Option, none, some, ◌≡◌, refl, sym, ap, subst, ◌∙◌, ◌⊎◌, inl, inr, arith, if◌then◌else◌,
}
use atlas.Errors.{Error, Result, ok, err, panic, message, fail_if, with_prefix, ◌>>=◌, ◌>>◌}
use atlas.Errors.Chains.{bound, passed, ok_value}
use atlas.Kindle.Story.Fetch.{
  Ip, Web, is_public_ip, check_addresses, bad_url, hostname_of, validate_image_url, permitted,
  max_image_bytes, looks_like_html, contains, check_data, accept_response, get_story_image_url,
  check_redirect, image_dialer, referer_for_image_url, strip_url_query, first_or_retry, retried,
  fetch_story_image,
}

-- A URL that may be asked: HTTPS with a host and without credentials, and, where private hosts are not
-- allowed, a host whose addresses are all public.
pub record Allowed (w : Web) (allow_private : Bool) (url : Text) : Type 0 where
  pub well_formed : bad_url (w.parse url) ≡ false
  pub public :
      (addresses : List (Option Ip)) × (w.lookup (hostname_of (w.parse url)) ≡ ok addresses)
      × (is_empty addresses ≡ false)
      × All (λ ip. allow_private || is_public_ip ip ≡ true) addresses

-- The first 64 bytes behind white space, in lower case, do not begin a page of HTML; less than 15
-- bytes are not looked at.
abbrev pub NoHtmlStart : Text → Type 0
unfolding bytes
NoHtmlStart contents =
    let start = trim_space contents in
    let first = to_lower (take 64 start) in
    (length start ≤ 14)
    ⊎ ((contains (bytes "<html") first ≡ false)
        × (has_prefix first (bytes "<!doctype html") ≡ false))

take_up_to : (n : ℕ) (s : Text) → take (min n (length s)) s ≡ take n s
take_up_to zero s =
    let none_taken : min 0 (length s) ≡ 0 = omega arith in ap (λ k. take k s) none_taken
take_up_to (suc n) [] = let all : min (suc n) 0 ≡ 0 = omega arith in ap (λ k. take k []) all
take_up_to (suc n) (c ∷ s) =
    let one_more : min (suc n) (suc (length s)) ≡ suc (min n (length s)) = omega arith in
    ap (λ k. take k (c ∷ s)) one_more ∙ ap (◌∷◌ c) (take_up_to n s)

none_of :
    (short doctype html inside : Bool)
    → (not short && (doctype || html || inside)) ≡ false
    → short ≡ false
    → (inside ≡ false) × (doctype ≡ false)
none_of short doctype html inside h k = ground arith

no_html_start : (contents : Text) → looks_like_html contents ≡ false → NoHtmlStart contents
unfolding looks_like_html bytes
no_html_start contents h =
    let start = trim_space contents in
    let first = to_lower (take (min 64 (length start)) start) in
    elim (Bool-cases (ltb (length start) 15)) [
      | inl short ↦ inl (ground (arith, short))
      | inr long ↦
          let clean =
            none_of (ltb (length start) 15) (has_prefix first (bytes "<!doctype html"))
              (has_prefix first (bytes "<html")) (contains (bytes "<html") first) h long in
          inr (rw (sym (take_up_to 64 start)) clean)
    ]

pub record Fetched (w : Web) (allow_private : Bool) (url contents : Text) : Type 0 where
  pub sized : (1 ≤ length contents) × (length contents ≤ max_image_bytes)
  pub no_html : NoHtmlStart contents
  pub source : Allowed w allow_private url ⊎ Allowed w allow_private (strip_url_query w url)

some_value : {A : Type 0} {a b : A} → some a ≡ some b → a ≡ b
some_value {a = a} h = ap (λ o. elim o [ none ↦ a | some x ↦ x ]) h

chosen :
    (public : Bool) (i ip : Option Ip) (later : Option (Option Ip))
    → is_public_ip i ≡ public
    → (later ≡ some ip → is_public_ip ip ≡ true)
    → (if not false && not public then later else some i) ≡ some ip
    → is_public_ip ip ≡ true
chosen true i ip later e k h = ap is_public_ip (sym (some_value h)) ∙ e
chosen false i ip later e k h = k h

-- The dialler connects to a public address only, where private ones are not allowed.
pub permitted-public :
    (ips : List (Option Ip)) (ip : Option Ip)
    → permitted false ips ≡ some ip
    → is_public_ip ip ≡ true
unfolding permitted
permitted-public [] ip h = ground arith
permitted-public (i ∷ ips) ip h =
    chosen (is_public_ip i) i ip (permitted false ips) refl (permitted-public ips ip) h

check_addresses-all :
    (allow_private : Bool) (ips : List (Option Ip))
    → check_addresses allow_private ips ≡ ok tt
    → All (λ ip. allow_private || is_public_ip ip ≡ true) ips
unfolding check_addresses bytes
check_addresses-all allow_private [] h = tt
check_addresses-all allow_private (ip ∷ ips) h =
    let first = passed (not allow_private && not (is_public_ip ip)) _ _ h in
    (ground (arith, first.0), check_addresses-all allow_private ips first.1)

without_prefix : {A : Type 0} (p : Text) (r : Result A) {a : A} → with_prefix p r ≡ ok a → r ≡ ok a
without_prefix p (ok a) h = h
without_prefix p (err e) h = cc
without_prefix p panic h = cc

validate-Allowed :
    (w : Web) (url : Text) (allow_private : Bool)
    → validate_image_url w url allow_private ≡ ok tt
    → Allowed w allow_private url
unfolding validate_image_url bytes
validate-Allowed w url allow_private h =
    let form = passed (bad_url (w.parse url)) _ _ h in
    let found = w.lookup (hostname_of (w.parse url)) in
    let no_address = message (bytes "image host has no addresses") in
    let (addresses, is, rest) =
      bound (with_prefix (bytes "resolve image host") found)
        (λ addresses.
          fail_if (is_empty addresses) no_address >> check_addresses allow_private addresses)
        form.1 in
    let some_address =
      passed (is_empty addresses) no_address (check_addresses allow_private addresses) rest in
    record {
      well_formed = form.0;
      public = (
        addresses,
        without_prefix (bytes "resolve image host") found is,
        some_address.0,
        check_addresses-all allow_private addresses some_address.1,
      );
    }

abbrev Usable : Text → Type 0
Usable contents =
    ((1 ≤ length contents) × (length contents ≤ max_image_bytes)) × NoHtmlStart contents

check_data-Usable :
    (content_type given contents : Text)
    → check_data content_type given ≡ ok contents
    → Usable contents
unfolding check_data bytes
check_data-Usable content_type given contents h =
    let size = passed (is_empty given || ltb max_image_bytes (length given)) _ _ h in
    let kind =
      passed
        (not (is_empty (to_lower content_type))
          && not (has_prefix (to_lower content_type) (bytes "image/"))
          && not (has_prefix (to_lower content_type) (bytes "application/octet-stream")))
        _ _ size.1 in
    let html = passed (looks_like_html given) _ _ kind.1 in
    subst Usable (ok_value html.1) (sized given size.0, no_html_start given html.0)
  where
    sized :
        (c : Text)
        → (is_empty c || ltb max_image_bytes (length c)) ≡ false
        → (1 ≤ length c) × (length c ≤ max_image_bytes)
    sized [] k = ground (arith, k)
    sized (x ∷ c) k = (omega arith, ground (arith, k))

get-Fetched :
    (w : Web) (url contents : Text) (allow_private : Bool)
    → get_story_image_url w url allow_private ≡ ok contents
    → Usable contents × Allowed w allow_private url
unfolding get_story_image_url accept_response bytes
get-Fetched w url contents allow_private h =
    let ask =
      w.perform (check_redirect w allow_private) (image_dialer w allow_private) url
        (referer_for_image_url w url) in
    let (_, valid, rest) =
      bound (validate_image_url w url allow_private)
        (λ _. w.valid_request url >> (ask >>= accept_response)) h in
    let (_, _, rest2) = bound (w.valid_request url) (λ _. ask >>= accept_response) rest in
    let (r, _, accepted) = bound ask accept_response rest2 in
    let status = passed (ltb r.status_code 200 || ltb 299 r.status_code) _ _ accepted in
    let announced = passed (ltb_ℤ (pos max_image_bytes) r.content_length) _ _ status.1 in
    let (body, _, checked) =
      bound r.body (λ body. check_data r.content_type (take (max_image_bytes + 1) body))
        announced.1 in
    (
      check_data-Usable r.content_type (take (max_image_bytes + 1) body) contents checked,
      validate-Allowed w url allow_private valid,
    )

retry_gave :
    (same : Bool) (e : Error) (r : Result Text) (contents : Text)
    → (if same then err e else retried e r) ≡ ok contents
    → r ≡ ok contents
retry_gave true e r contents h = ground arith
retry_gave false e (ok found) contents h = h
retry_gave false e (err e') contents h = ground arith
retry_gave false e panic contents h = ground arith

-- A picture that a fetch gives has between one byte and 12 MiB; its first 64 bytes behind white
-- space, where there are 15 or more, have no opening html tag in them and do not begin with an HTML
-- doctype, in upper or lower case; and the URL it was asked of, the given one or the one without its
-- query, is HTTPS, has a host and no credentials and, where private hosts are not allowed, a host
-- whose addresses are all public.
pub fetch_story_image-Fetched :
    (w : Web) (url contents : Text) (allow_private : Bool)
    → fetch_story_image w url allow_private ≡ ok contents
    → Fetched w allow_private url contents
unfolding fetch_story_image
fetch_story_image-Fetched w url contents allow_private h =
    by_first (get_story_image_url w url allow_private) refl h
  where
    by_first :
        (r : Result Text)
        → get_story_image_url w url allow_private ≡ r
        → first_or_retry w url allow_private r ≡ ok contents
        → Fetched w allow_private url contents
    by_first panic e k = ground arith
    by_first (ok found) e k =
        let good = get-Fetched w url contents allow_private (e ∙ k) in
        record { sized = good.0.0; no_html = good.0.1; source = inl good.1 }
    by_first (err e') e k =
        let good = get-Fetched w (strip_url_query w url) contents allow_private (
          retry_gave (text_eq (strip_url_query w url) url) e'
            (get_story_image_url w (strip_url_query w url) allow_private) contents k) in
        record { sized = good.0.0; no_html = good.0.1; source = inr good.1 }
