-- ===== src/GrpcServer/Accepted.antt =====
-- What is known of a news item once internal/grpcserver/server.go has accepted it.
use atlas.Base.{
  subst, ℕ, suc, ◌≤◌, ◌≡◌, refl, Bool, true, false, not, ◌&&◌, ◌||◌, ltb, List, [], ◌∷◌, length,
  is_empty, Option, none, some, arith,
}
use atlas.Errors.{Result, ok, err, panic, ◌>>◌}
use atlas.Errors.Chains.{bound, passed, passed_last, ok_value}
use atlas.GrpcServer.{valid_string}
use atlas.GrpcServer.News.{
  Source, NewsItem, ParseUri, good_url, trimmed, check_source, normalize_sources, cleaned,
  check_fields, normalize_news,
}

abbrev pub some_url_or_domain : Source → Bool
some_url_or_domain s = not (is_empty s.url) || not (is_empty s.domain)

pub record ValidSource (parse : ParseUri) (s : Source) : Type 0 where
  pub named : some_url_or_domain s ≡ true
  pub encoded : (valid_string s.url && valid_string s.domain && valid_string s.og_url) ≡ true
  pub sized : (length s.url ≤ 2048) × (length s.og_url ≤ 2048) × (length s.domain ≤ 253)
  pub urls : (good_url parse s.url && good_url parse s.og_url) ≡ true

pub record ValidFields (out : NewsItem) : Type 0 where
  pub encoded :
      (valid_string out.story_id
        && valid_string out.event_id
        && valid_string out.title
        && valid_string out.description
        && valid_string out.genre)
      ≡ true
  pub titled : is_empty out.title ≡ false
  pub in_genre : is_empty out.genre ≡ false
  pub sized :
      (length out.story_id ≤ 128)
      × (length out.event_id ≤ 128)
      × (length out.title ≤ 512)
      × (length out.description ≤ 4096)
      × (length out.genre ≤ 64)

module _ {A : Type 0} where
  -- A step of a chain that succeeds has succeeded.
  pub stepped :
      (m : Result (Unit {0})) (k : Result A) (a : A) → (m >> k) ≡ ok a → (m ≡ ok tt) × (k ≡ ok a)
  stepped (ok tt) k a h = (refl, h)
  stepped (err e) k a h = cc
  stepped panic k a h = cc

check_source-Valid :
    (parse : ParseUri) (i : ℕ) (s : Source) → check_source parse i s ≡ ok tt → ValidSource parse s
unfolding check_source
check_source-Valid parse i s h =
    let a = passed (is_empty s.url && is_empty s.domain) _ _ h in
    let b =
      passed
        (not (valid_string s.url) || not (valid_string s.domain) || not (valid_string s.og_url)) _ _
        a.1 in
    let c =
      passed (ltb 2048 (length s.url) || ltb 2048 (length s.og_url) || ltb 253 (length s.domain)) _
        _ b.1 in
    let d = passed (not (good_url parse s.url)) _ _ c.1 in
    let e = passed_last (not (good_url parse s.og_url)) _ d.1 in
    record {
      named = ground (arith, a.0);
      encoded = ground (arith, b.0);
      sized = ground (arith, c.0);
      urls = ground (arith, d.0, e);
    }

check_fields-Valid : (out : NewsItem) → check_fields out ≡ ok tt → ValidFields out
unfolding check_fields
check_fields-Valid out h =
    let a = passed (not (valid_string out.story_id)) _ _ h in
    let b = passed (not (valid_string out.event_id)) _ _ a.1 in
    let c = passed (not (valid_string out.title)) _ _ b.1 in
    let d = passed (not (valid_string out.description)) _ _ c.1 in
    let e = passed (not (valid_string out.genre)) _ _ d.1 in
    let f = passed (is_empty out.title) _ _ e.1 in
    let g = passed (is_empty out.genre) _ _ f.1 in
    let sizes =
      passed_last
        (ltb 128 (length out.story_id)
          || ltb 128 (length out.event_id)
          || ltb 512 (length out.title)
          || ltb 4096 (length out.description)
          || ltb 64 (length out.genre))
        _ g.1 in
    record {
      encoded = ground (arith, a.0, b.0, c.0, d.0, e.0);
      titled = f.0;
      in_genre = g.0;
      sized = ground (arith, sizes);
    }

-- What the sources of an item become: each one trimmed, and valid.
abbrev pub SourcesAccepted : ParseUri → List (Option Source) → List (Option Source) → Type 0
SourcesAccepted parse [] [] = Unit
SourcesAccepted parse [] (o ∷ outs) = ⊥
SourcesAccepted parse (i ∷ is) [] = ⊥
SourcesAccepted parse (i ∷ is) (o ∷ outs) =
    ((s : Source) × (i ≡ some s) × (o ≡ some (trimmed s)) × ValidSource parse (trimmed s))
    × SourcesAccepted parse is outs

pub normalize_sources-Accepted :
    (parse : ParseUri) (i : ℕ) (ss outs : List (Option Source))
    → normalize_sources parse i ss ≡ ok outs
    → SourcesAccepted parse ss outs
unfolding normalize_sources
normalize_sources-Accepted parse i [] outs h = subst (SourcesAccepted parse []) (ok_value h) tt
normalize_sources-Accepted parse i (none ∷ ss) outs h = cc
normalize_sources-Accepted parse i (some s ∷ ss) outs h =
    let checked = stepped (check_source parse i (trimmed s)) _ outs h in
    let (rest, done, made) =
      bound (normalize_sources parse (suc i) ss) (λ rest. ok (some (trimmed s) ∷ rest)) checked.1 in
    let valid = check_source-Valid parse i (trimmed s) checked.0 in
    let later = normalize_sources-Accepted parse (suc i) ss rest done in
    subst (SourcesAccepted parse (some s ∷ ss)) (ok_value made) ((s, refl, refl, valid), later)

length-sources :
    (parse : ParseUri) (ss outs : List (Option Source))
    → SourcesAccepted parse ss outs
    → length outs ≡ length ss
length-sources parse [] [] h = refl
length-sources parse [] (o ∷ outs) h = absurd h
length-sources parse (s ∷ ss) [] h = absurd h
length-sources parse (s ∷ ss) (o ∷ outs) h = omega (arith, length-sources parse ss outs h.1)

with_sources :
    (out : NewsItem) (sources : List (Option Source))
    → ValidFields out
    → ValidFields (record out { sources = sources })
with_sources out sources v = record {
  encoded = v.encoded;
  titled = v.titled;
  in_genre = v.in_genre;
  sized = v.sized;
}

abbrev pub AcceptedAs : ParseUri → NewsItem → NewsItem → Type 0
AcceptedAs parse item out =
    ValidFields out × (length out.sources ≤ 10) × SourcesAccepted parse item.sources out.sources

-- An accepted news item has a title and a genre, every field and every source within its limits and
-- in valid UTF-8, at most ten sources, each of them one of the request's with the spaces around it
-- cut off, named by a URL or a domain, and with no URL but those of HTTP and HTTPS.
pub normalize_news-Valid :
    (parse : ParseUri) (item out : NewsItem)
    → normalize_news parse (some item) ≡ ok out
    → ValidFields out × (length out.sources ≤ 10) × SourcesAccepted parse item.sources out.sources
unfolding normalize_news
normalize_news-Valid parse item out h =
    let fields = stepped (check_fields (cleaned item)) _ out h in
    let few = passed (ltb 10 (length item.sources)) _ _ fields.1 in
    let (sources, done, made) =
      bound (normalize_sources parse 0 item.sources)
        (λ sources. ok (record (cleaned item) { sources = sources })) few.1 in
    let valid = check_fields-Valid (cleaned item) fields.0 in
    let accepted = normalize_sources-Accepted parse 0 item.sources sources done in
    let same = length-sources parse item.sources sources accepted in
    let ten : length sources ≤ 10 = ground (arith, few.0, same) in
    subst (AcceptedAs parse item) (ok_value made)
      (with_sources (cleaned item) sources valid, ten, accepted)
