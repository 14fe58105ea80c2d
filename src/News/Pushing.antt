-- ===== src/News/Pushing.antt =====
-- internal/news/store.go: what `Push` does to the queues, whatever becomes of its request.
use atlas.Base.{
  ℕ, ◌-◌, ◌≤◌, Bool, Bool-cases, true, false, is_empty, List, [], ◌∷◌, ◌++◌, length, drop,
  length-drop, Text, bytes, text_eq, text_eq_iff, pos, negsuc, sub_ℕ, ◌≡◌, ◌≢◌, refl, sym, ap,
  subst, ◌∙◌, ◌⊎◌, inl, inr, arith,
}
use atlas.Errors.{Result, ok, err, panic}
use atlas.News.{
  Story, Codec, StoreOptions, normalize_genre, collection_key, genres_key, dedupe_key, ttl_seconds,
}
use atlas.News.Keys.{
  collection_key-ne, queue-ne-genres, queue-ne-mark, same_key, normalize_genre_twice,
}
use atlas.News.Redis.{
  Redis, ListLaws, items, Network, Fate, answered, refused, unanswered, Session, deliver, continue,
  add_prefix, pure, script,
}
use atlas.News.Store.{marked, push_script, push_normalized, push}

not_both : {b : Bool} → b ≡ false → b ≢ true
not_both f t = ground arith

-- The last `n` items.
unfoldable pub last : ℕ → List Text → List Text
last n xs = drop (length xs - n) xs

pub length-last : (n : ℕ) (xs : List Text) → length (last n xs) ≤ n
unfolding last
length-last n xs = omega (arith, length-drop (length xs - n) xs)

module _ (r : Redis) (laws : ListLaws r) (c : Codec) (o : StoreOptions) (n : ℕ) where
  -- The queue of `h` after a story, encoded as given, may have been pushed for `g`.
  abbrev pub Pushed : (g h : Text) → Text → r.Server → r.Server → Type 0
  Pushed g h encoded s s' =
      (items r (collection_key o h) s' ≡ items r (collection_key o h) s)
      ⊎ ((normalize_genre h ≡ normalize_genre g)
          × (items r (collection_key o h) s'
              ≡ last n (items r (collection_key o h) s ++ encoded ∷ [])))

  -- The queue at the end of the script.
  abbrev appended : (queue genres encoded genre : Text) → r.Server → r.Server
  appended queue genres encoded genre s =
      r.sadd genres genre (r.ltrim queue (sub_ℕ 0 n) (negsuc 0) (r.rpush queue encoded s))

  appended-own :
      (q k encoded genre : Text) (s : r.Server)
      → q ≢ k
      → 1 ≤ n
      → items r q (appended q k encoded genre s) ≡ last n (items r q s ++ encoded ∷ [])
  unfolding last
  appended-own q k encoded genre s ne l =
      laws.sadd_apart q k genre (r.ltrim q (sub_ℕ 0 n) (negsuc 0) (r.rpush q encoded s)) ne
      ∙ laws.ltrim_last q n (r.rpush q encoded s) l
      ∙ ap (last n) (laws.rpush_last q encoded s)

  appended-other :
      (q' q k encoded genre : Text) (s : r.Server)
      → q' ≢ k
      → q' ≢ q
      → items r q' (appended q k encoded genre s) ≡ items r q' s
  appended-other q' q k encoded genre s ne ne' =
      laws.sadd_apart q' k genre (r.ltrim q (sub_ℕ 0 n) (negsuc 0) (r.rpush q encoded s)) ne
      ∙ laws.ltrim_apart q' q (sub_ℕ 0 n) (negsuc 0) (r.rpush q encoded s) ne'
      ∙ laws.rpush_apart q' q encoded s ne'

  -- The same queue under another spelling of its genre.
  appended-same :
      (g h encoded : Text) (s : r.Server)
      → normalize_genre h ≡ normalize_genre g
      → 1 ≤ n
      → items r
          (collection_key o h)
          (appended (collection_key o g) (genres_key o) encoded (normalize_genre g) s)
        ≡ last n (items r (collection_key o h) s ++ encoded ∷ [])
  appended-same g h encoded s e l =
      let same = same_key o g h e in
      ap
        (λ q.
          items r q (appended (collection_key o g) (genres_key o) encoded (normalize_genre g) s))
        same
      ∙ appended-own (collection_key o g) (genres_key o) encoded (normalize_genre g) s
          (queue-ne-genres o g) l
      ∙ ap (λ q. last n (items r q s ++ encoded ∷ [])) (sym same)

  marked_keeps :
      (g h encoded : Text) (s : r.Server) (p : Result Bool × r.Server)
      → items r (collection_key o h) p.1 ≡ items r (collection_key o h) s
      → 1 ≤ n
      → Pushed g h encoded s
          (marked r (collection_key o g) (genres_key o) encoded (normalize_genre g) (pos n) p).1
  unfolding marked
  marked_keeps g h encoded s (ok false, t) e l = inl e
  marked_keeps g h encoded s (err x, t) e l = inl e
  marked_keeps g h encoded s (panic, t) e l = inl e
  marked_keeps g h encoded s (ok true, t) e l =
      elim (Bool-cases (text_eq (normalize_genre h) (normalize_genre g))) [
        | inl same ↦
            let is = (text_eq_iff (normalize_genre h) (normalize_genre g)).0 same in
            inr (is, appended-same g h encoded t is l ∙ ap (λ q. last n (q ++ encoded ∷ [])) e)
        | inr apart ↦ inl (
            appended-other (collection_key o h) (collection_key o g) (genres_key o) encoded
              (normalize_genre g) t (queue-ne-genres o h)
              (collection_key-ne o h g
                (λ is. not_both apart ((text_eq_iff (normalize_genre h) (normalize_genre g)).1 is)))
            ∙ e)
      ]

  script_keeps :
      (g h encoded : Text) (story : Story) (s : r.Server)
      → o.max_stories ≡ pos n
      → 1 ≤ n
      → Pushed g h encoded s
          (push_script r
            (collection_key o g)
            (genres_key o)
            (dedupe_key o c story encoded)
            encoded
            (normalize_genre g)
            o.max_stories
            (ttl_seconds o)
            s).1
  unfolding push_script bytes
  script_keeps g h encoded story s m l =
      subst
        (λ k.
          Pushed g h encoded s
            (marked r (collection_key o g) (genres_key o) encoded (normalize_genre g) k
              (r.set_nx_ex (dedupe_key o c story encoded) (bytes "1") (ttl_seconds o) s)).1)
        (sym m)
        (marked_keeps g h encoded s
          (r.set_nx_ex (dedupe_key o c story encoded) (bytes "1") (ttl_seconds o) s)
          (laws.set_nx_apart (collection_key o h) (dedupe_key o c story encoded) (bytes "1")
            (ttl_seconds o) s (queue-ne-mark o c story encoded h))
          l)

  finish :
      (g h encoded p : Text) (w : Network) (s : r.Server) (x : Result ℕ × Session r.Server)
      → Pushed g h encoded s x.1.server
      → Pushed g h encoded s (continue (λ _. pure tt) w (add_prefix p x)).1.server
  finish g h encoded p w s (ok a, t) k = k
  finish g h encoded p w s (err a, t) k = k
  finish g h encoded p w s (panic, t) k = k

  sent :
      (g h encoded : Text) (fate : Fate) (x : Result ℕ × r.Server) (t : Session r.Server)
      → Pushed g h encoded t.server x.1
      → Pushed g h encoded t.server (deliver fate x t).1.server
  sent g h encoded answered (a, s) t k = k
  sent g h encoded (refused e) (a, s) t k = inl refl
  sent g h encoded (unanswered e) (a, s) t k = k

  -- Whatever becomes of the request, a push leaves each queue as it was, or puts the story at the end
  -- of the queue of its genre, which then keeps its last `n` stories.
  pub push-Pushed :
      (g h encoded : Text) (story : Story) (w : Network) (t : Session r.Server)
      → o.max_stories ≡ pos n
      → 1 ≤ n
      → c.marshal (record story { genre = normalize_genre g }) ≡ ok encoded
      → Pushed g h encoded t.server (push r c o g story w t).1.server
  unfolding push push_normalized bytes
  push-Pushed g h encoded story w t m l e = elim (Bool-cases (is_empty (normalize_genre g))) [
    | inl blank ↦ rw blank (inl refl)
    | inr full ↦
        let stored = record story { genre = normalize_genre g } in
        rw (full, e, same_key o g (normalize_genre g) (normalize_genre_twice g))
          (finish g h encoded (bytes "rpush " ++ collection_key o g) w t.server
            (script
              (push_script r (collection_key o g) (genres_key o) (dedupe_key o c stored encoded)
                encoded (normalize_genre g) o.max_stories (ttl_seconds o))
              w t)
            (sent g h encoded (w t.requests)
              (push_script r (collection_key o g) (genres_key o) (dedupe_key o c stored encoded)
                encoded (normalize_genre g) o.max_stories (ttl_seconds o) t.server)
              t (script_keeps g h encoded stored t.server m l)))
  ]

  abbrev Appended : (g encoded : Text) → r.Server → Result ℕ × r.Server → Type 0
  Appended g encoded s p =
      (p.0 ≡ ok 1)
      × (items r (collection_key o g) p.1 ≡ last n (items r (collection_key o g) s ++ encoded ∷ []))

  marked_appends :
      (g encoded : Text) (s : r.Server) (p : Result Bool × r.Server)
      → items r (collection_key o g) p.1 ≡ items r (collection_key o g) s
      → p.0 ≡ ok true
      → 1 ≤ n
      → Appended g encoded s
          (marked r (collection_key o g) (genres_key o) encoded (normalize_genre g) (pos n) p)
  unfolding marked
  marked_appends g encoded s (ok false, t) e h l = ground arith
  marked_appends g encoded s (err x, t) e h l = ground arith
  marked_appends g encoded s (panic, t) e h l = ground arith
  marked_appends g encoded s (ok true, t) e h l =
      (refl, appended-same g g encoded t refl l ∙ ap (λ q. last n (q ++ encoded ∷ [])) e)

  answered_appends :
      (g encoded p : Text) (w : Network) (s : r.Server) (t : Session r.Server)
      (x : Result ℕ × r.Server)
      → Appended g encoded s x
      → ((continue (λ _. pure tt) w (add_prefix p (deliver answered x t))).0 ≡ ok tt)
        × (items r
              (collection_key o g)
              (continue (λ _. pure tt) w (add_prefix p (deliver answered x t))).1.server
            ≡ last n (items r (collection_key o g) s ++ encoded ∷ []))
  answered_appends g encoded p w s t (ok m, s') k = (refl, k.1)
  answered_appends g encoded p w s t (err x, s') k = ground (arith, k.0)
  answered_appends g encoded p w s t (panic, s') k = ground (arith, k.0)

  -- A push that is answered, of a story whose mark is not set, succeeds and puts the story at the end
  -- of the queue of its genre, which keeps its last `n` stories.
  pub push-appends :
      (g encoded : Text) (story : Story) (w : Network) (t : Session r.Server)
      → o.max_stories ≡ pos n
      → 1 ≤ n
      → is_empty (normalize_genre g) ≡ false
      → c.marshal (record story { genre = normalize_genre g }) ≡ ok encoded
      → w t.requests ≡ answered
      → (r.set_nx_ex
          (dedupe_key o c (record story { genre = normalize_genre g }) encoded)
          (bytes "1")
          (ttl_seconds o)
          t.server).0
        ≡ ok true
      → ((push r c o g story w t).0 ≡ ok tt)
        × (items r (collection_key o g) (push r c o g story w t).1.server
            ≡ last n (items r (collection_key o g) t.server ++ encoded ∷ []))
  unfolding push push_normalized push_script bytes
  push-appends g encoded story w t m l full e up set =
      let mark = dedupe_key o c (record story { genre = normalize_genre g }) encoded in
      let answer = r.set_nx_ex mark (bytes "1") (ttl_seconds o) t.server in
      let script_appends =
        subst
          (λ k.
            Appended g encoded t.server
              (marked r (collection_key o g) (genres_key o) encoded (normalize_genre g) k answer))
          (sym m)
          (marked_appends g encoded t.server answer
            (laws.set_nx_apart (collection_key o g) mark (bytes "1") (ttl_seconds o) t.server
              (queue-ne-mark o c (record story { genre = normalize_genre g }) encoded g))
            set l) in
      rw (full, e, same_key o g (normalize_genre g) (normalize_genre_twice g), up)
        (answered_appends g encoded (bytes "rpush " ++ collection_key o g) w t.server t
          (marked r (collection_key o g) (genres_key o) encoded (normalize_genre g) o.max_stories
            answer)
          script_appends)

  -- A queue of at most `n` stories has no more after a push, whatever becomes of the request.
  pub push-keeps_bound :
      (g h encoded : Text) (story : Story) (w : Network) (t : Session r.Server)
      → o.max_stories ≡ pos n
      → 1 ≤ n
      → c.marshal (record story { genre = normalize_genre g }) ≡ ok encoded
      → length (items r (collection_key o h) t.server) ≤ n
      → length (items r (collection_key o h) (push r c o g story w t).1.server) ≤ n
  push-keeps_bound g h encoded story w t m l e b = elim (push-Pushed g h encoded story w t m l e) [
    | inl same ↦ rw same b
    | inr (is, added) ↦
        rw added (length-last n (items r (collection_key o h) t.server ++ encoded ∷ []))
  ]
