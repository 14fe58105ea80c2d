-- ===== src/News/Keys.antt =====
-- internal/news/store.go: the keys of the store are apart from each other, and a normal genre stays as it
-- is.
use atlas.Base.{
  trim_space, to_lower, trim_space_twice, trim_space-lower, to_lower_twice, append_cancel,
  get_elem?, ◌++◌, Text, bytes, ◌≡◌, ◌≢◌, ap, ◌∙◌, arith,
}
use atlas.News.{
  Story, Codec, StoreOptions, key, normalize_genre, collection_key, raw_collection_key, genres_key,
  dedupe_key, dead_letter_key, story_fingerprint,
}

pub collection_key-ne :
    (o : StoreOptions) (g h : Text)
    → normalize_genre g ≢ normalize_genre h
    → collection_key o g ≢ collection_key o h
unfolding collection_key raw_collection_key key bytes
collection_key-ne o g h ne e = ne (
    append_cancel (bytes "news_collection_v2:") (normalize_genre g) (normalize_genre h) (
      append_cancel o.key_prefix (bytes "news_collection_v2:" ++ normalize_genre g)
        (bytes "news_collection_v2:" ++ normalize_genre h) e))

pub queue-ne-genres : (o : StoreOptions) (g : Text) → collection_key o g ≢ genres_key o
unfolding collection_key raw_collection_key genres_key key bytes
queue-ne-genres o g h =
    let e =
      ap (λ l. get_elem? l 0)
        (append_cancel o.key_prefix (bytes "news_collection_v2:" ++ normalize_genre g)
          (bytes "genre") h) in
    ground arith

pub queue-ne-mark :
    (o : StoreOptions) (c : Codec) (story : Story) (encoded g : Text)
    → collection_key o g ≢ dedupe_key o c story encoded
unfolding collection_key raw_collection_key dedupe_key key bytes
queue-ne-mark o c story encoded g h =
    let e =
      ap (λ l. get_elem? l 5)
        (append_cancel o.key_prefix (bytes "news_collection_v2:" ++ normalize_genre g)
          (bytes "news_dedupe:" ++ story_fingerprint c story encoded) h) in
    ground arith

pub same_key :
    (o : StoreOptions) (g h : Text)
    → normalize_genre h ≡ normalize_genre g
    → collection_key o h ≡ collection_key o g
unfolding collection_key
same_key o g h e = ap (raw_collection_key o) e

pub normalize_genre_twice : (g : Text) → normalize_genre (normalize_genre g) ≡ normalize_genre g
unfolding normalize_genre
normalize_genre_twice g =
    ap to_lower (trim_space-lower (trim_space g) ∙ ap to_lower (trim_space_twice g))
    ∙ to_lower_twice (trim_space g)

pub queue-ne-dead : (o : StoreOptions) (genre : Text) → collection_key o genre ≢ dead_letter_key o
unfolding collection_key raw_collection_key dead_letter_key key bytes
queue-ne-dead o genre h =
    let e =
      ap (λ l. get_elem? l 5)
        (append_cancel o.key_prefix (bytes "news_collection_v2:" ++ normalize_genre genre)
          (bytes "news_dead_letter") h) in
    ground arith
