-- ===== src/GrpcServer/Stored.antt =====
-- What internal/grpcserver/server.go does with a news item: which one it stores, and what it answers.
use atlas.Base.{
  ℕ, suc, ◌≡◌, ◌≢◌, refl, Bool, true, false, ltb, List, [], ◌∷◌, length, ◌⊎◌, inl, inr, Text, bytes,
  trim_space, to_lower, Option, none, some, subst,
}
use atlas.Errors.{Error, Result, ok, err, panic, error_text, fail_if, ◌>>=◌, ◌>>◌}
use atlas.Errors.Chains.{bound, passed, ok_value}
use atlas.GrpcServer.{Status, code_invalid_argument, code_internal}
use atlas.GrpcServer.News.{
  Source, NewsItem, ParseUri, trimmed, check_source, normalize_sources, cleaned, check_fields,
  normalize_news, CommandAck, Call, store_add, notify_news_changed, stored_answer, add_news,
}
use atlas.GrpcServer.Accepted.{AcceptedAs, stepped, normalize_news-Valid}

-- The fields of a stored item are those of the request without the white space around them, the genre
-- in lower case.
pub record Copied (item out : NewsItem) : Type 0 where
  pub story_id : out.story_id ≡ trim_space item.story_id
  pub event_id : out.event_id ≡ trim_space item.event_id
  pub title : out.title ≡ trim_space item.title
  pub description : out.description ≡ trim_space item.description
  pub genre : out.genre ≡ to_lower (trim_space item.genre)

normalize_news-Copied :
    (parse : ParseUri) (item out : NewsItem)
    → normalize_news parse (some item) ≡ ok out
    → Copied item out
unfolding normalize_news cleaned
normalize_news-Copied parse item out h =
    let fields = stepped (check_fields (cleaned item)) _ out h in
    let few = passed (ltb 10 (length item.sources)) _ _ fields.1 in
    let (sources, done, made) =
      bound (normalize_sources parse 0 item.sources)
        (λ sources. ok (record (cleaned item) { sources = sources })) few.1 in
    subst (Copied item) (ok_value made)
      (record { story_id = refl; event_id = refl; title = refl; description = refl; genre = refl })

module _ {A : Type 0} where
  unstopped : (b : Bool) (e : Error) (k : Result A) → k ≢ panic → (fail_if b e >> k) ≢ panic
  unstopped true e k h p = cc
  unstopped false e k h p = h p

  unstopped_after :
      (m : Result (Unit {0})) (k : Result A) → m ≢ panic → k ≢ panic → (m >> k) ≢ panic
  unstopped_after (ok tt) k h h' p = h' p
  unstopped_after (err e) k h h' p = cc
  unstopped_after panic k h h' p = h refl

unstopped_last : (b : Bool) (e : Error) → fail_if b e ≢ panic
unstopped_last true e p = cc
unstopped_last false e p = cc

check_source-returns : (parse : ParseUri) (i : ℕ) (s : Source) → check_source parse i s ≢ panic
unfolding check_source
check_source-returns parse i s = search (unstopped, unstopped_last)

check_fields-returns : (out : NewsItem) → check_fields out ≢ panic
unfolding check_fields
check_fields-returns out = search (unstopped, unstopped_last) depth 40 fits 50000

made_returns : {A B : Type 0} (r : Result A) (f : A → B) → r ≢ panic → (r >>= λ a. ok (f a)) ≢ panic
made_returns (ok a) f h p = cc
made_returns (err e) f h p = cc
made_returns panic f h p = h refl

normalize_sources-returns :
    (parse : ParseUri) (i : ℕ) (ss : List (Option Source)) → normalize_sources parse i ss ≢ panic
unfolding normalize_sources
normalize_sources-returns parse i [] p = cc
normalize_sources-returns parse i (none ∷ ss) p = cc
normalize_sources-returns parse i (some s ∷ ss) p =
    unstopped_after (check_source parse i (trimmed s)) _ (check_source-returns parse i (trimmed s))
      (made_returns (normalize_sources parse (suc i) ss) (λ rest. some (trimmed s) ∷ rest)
        (normalize_sources-returns parse (suc i) ss))
      p

normalize_news-returns :
    (parse : ParseUri) (item : NewsItem) → normalize_news parse (some item) ≢ panic
unfolding normalize_news
normalize_news-returns parse item =
    unstopped_after (check_fields (cleaned item)) _ (check_fields-returns (cleaned item)) (
      unstopped _ _ _ (
        made_returns (normalize_sources parse 0 item.sources)
          (λ sources. record (cleaned item) { sources = sources })
          (normalize_sources-returns parse 0 item.sources)))

abbrev pub Accepts : Text → CommandAck ⊎ Status → Type 0
unfolding bytes
Accepts id answer =
    answer ≡ inl (record { accepted = true; operation_id = id; state = bytes "stored" })

-- The answer and the calls of a request: the error of an item that cannot be normalized, and no call; or
-- the store is asked for the one item that the request's becomes, and the answer accepts the request
-- exactly if the store took it, in which case the supervisor is told after the store.
abbrev pub StoresThenNotifies :
    ParseUri
    → Text
    → NewsItem
    → (NewsItem → Option Error)
    → (CommandAck ⊎ Status) × List Call
    → Type 0
StoresThenNotifies parse id item stored (answer, calls) =
    ((e : Error) × (normalize_news parse (some item) ≡ err e)
      × (answer ≡ inr (record { code = code_invalid_argument; message = error_text e }))
      × (calls ≡ []))
    ⊎ ((out : NewsItem) × AcceptedAs parse item out
        × Copied item out
        × (((e : Error) × (m : Text) × (stored out ≡ some e)
              × (answer ≡ inr (record { code = code_internal; message = m }))
              × (calls ≡ store_add out ∷ []))
            ⊎ ((stored out ≡ none)
                × Accepts id answer
                × (calls ≡ store_add out ∷ notify_news_changed ∷ []))))

stored_cases :
    (parse : ParseUri) (item : NewsItem) (id : Text) (stored : NewsItem → Option Error)
    (out : NewsItem)
    → AcceptedAs parse item out
    → Copied item out
    → (o : Option Error) → stored out ≡ o
    → StoresThenNotifies parse id item stored (stored_answer id out o)
unfolding stored_answer
stored_cases parse item id stored out v c (some e) h = inr (out, v, c, inl (e, _, h, refl, refl))
stored_cases parse item id stored out v c none h = inr (out, v, c, inr (h, refl, refl))

normalized_cases :
    (parse : ParseUri) (item : NewsItem) (id : Text) (stored : NewsItem → Option Error)
    (r : Result NewsItem)
    → normalize_news parse (some item) ≡ r
    → let whole : (CommandAck ⊎ Status) × List Call = elim r [
      | err e ↦ (inr (record { code = code_invalid_argument; message = error_text e }), [])
      | panic ↦ (inr (record { code = code_internal; message = [] }), [])
      | ok out ↦ stored_answer id out (stored out)
    ] in
      StoresThenNotifies parse id item stored whole
normalized_cases parse item id stored (err e) h = inl (e, h, refl, refl)
normalized_cases parse item id stored panic h = absurd (normalize_news-returns parse item h)
normalized_cases parse item id stored (ok out) h =
    stored_cases parse item id stored out (normalize_news-Valid parse item out h)
      (normalize_news-Copied parse item out h) (stored out) refl

-- `AddNews` answers an item that cannot be normalized with an invalid argument, and asks the store for
-- nothing. Of any other it asks the store once, for a valid item with the fields and the sources of
-- the request, without the white space around them and with the genre in lower case. The request is
-- accepted, under the fresh operation ID, exactly if the store took the item; then, and only then,
-- the supervisor is told, after the store.
pub add_news-stores :
    (parse : ParseUri) (id : Text) (stored : NewsItem → Option Error) (item : NewsItem)
    → StoresThenNotifies parse id item stored (add_news parse id stored (some item))
unfolding add_news
add_news-stores parse id stored item =
    normalized_cases parse item id stored (normalize_news parse (some item)) refl
