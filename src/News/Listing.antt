-- ===== src/News/Listing.antt =====
-- internal/news/store.go: the list of genres that `Genres` gives.
use atlas.Base.{
  quoted, bytes, ℕ, Bool-cases, true, false, ◌||◌, ◌==◌, is_empty, List, [], ◌∷◌, ◌++◌, All,
  All-append, Text, text_eq, ◌≡◌, refl, ◌∙◌, inl, inr, arith,
}
use atlas.Errors.{Result, ok, err, panic}
use atlas.News.{genres_key, collection_key, StoreOptions, normalize_genre, text_leb}
use atlas.News.Redis.{
  Redis, Network, Session, Op, continue, pure, ignored, command, within, query, ◌>>=◌, ◌>>◌,
}
use atlas.News.Genres.{
  member, mend, keep_filled, visit_genre, visit_genres, insert, sort_strings, genres,
}

-- Before in the order of the bytes.
abbrev pub Before : Text → Text → Type 0
Before x y = text_leb y x ≡ false

-- Each element before all that follow it, so sorted and without a double.
abbrev pub Ascending : List Text → Type 0
Ascending [] = Unit
Ascending (x ∷ xs) = All (Before x) xs × Ascending xs

abbrev pub Normal : Text → Type 0
Normal g = (stored : Text) × (g ≡ normalize_genre stored) × (is_empty g ≡ false)

text_leb_refl : (s : Text) → text_leb s s ≡ true
unfolding text_leb
text_leb_refl [] = refl
text_leb_refl (x ∷ s) = ground (arith, text_leb_refl s)

text_leb-total : (s t : Text) → text_leb s t ≡ false → text_leb t s ≡ true
unfolding text_leb
text_leb-total [] t h = ground arith
text_leb-total (x ∷ s) [] h = refl
text_leb-total (x ∷ s) (y ∷ t) h = ground (arith, text_leb-total s t)

text_leb-antisym : (s t : Text) → text_leb s t ≡ true → text_eq s t ≡ false → Before s t
unfolding text_leb text_eq
text_leb-antisym [] [] h n = ground arith
text_leb-antisym [] (y ∷ t) h n = refl
text_leb-antisym (x ∷ s) [] h n = ground arith
text_leb-antisym (x ∷ s) (y ∷ t) h n = ground (arith, text_leb-antisym s t)

Before-trans : (s t u : Text) → Before s t → Before t u → Before s u
unfolding text_leb
Before-trans s [] u h k = ground arith
Before-trans s (y ∷ t) [] h k = ground arith
Before-trans [] (y ∷ t) (z ∷ u) h k = refl
Before-trans (x ∷ s) (y ∷ t) (z ∷ u) h k = ground (arith, Before-trans s t u)

text_eq_sym : (s t : Text) → text_eq s t ≡ text_eq t s
unfolding text_eq
text_eq_sym [] [] = refl
text_eq_sym [] (y ∷ t) = refl
text_eq_sym (x ∷ s) [] = refl
text_eq_sym (x ∷ s) (y ∷ t) = ground (arith, text_eq_sym s t)

-- Without a double.
abbrev Distinct : List Text → Type 0
Distinct [] = Unit
Distinct (x ∷ xs) = (member x xs ≡ false) × Distinct xs

member-insert : (z x : Text) (ys : List Text) → member z (insert x ys) ≡ text_eq z x || member z ys
unfolding member insert
member-insert z x [] = refl
member-insert z x (y ∷ ys) = ground (arith, member-insert z x ys)

member-sort : (z : Text) (xs : List Text) → member z (sort_strings xs) ≡ member z xs
unfolding member sort_strings
member-sort z [] = refl
member-sort z (x ∷ xs) = rw (member-insert z x (sort_strings xs), member-sort z xs) refl

member-snoc : (z x : Text) (ys : List Text) → member z (ys ++ x ∷ []) ≡ member z ys || text_eq z x
unfolding member
member-snoc z x [] = ground arith
member-snoc z x (y ∷ ys) = ground (arith, member-snoc z x ys)

Distinct-snoc :
    (x : Text) (ys : List Text) → member x ys ≡ false → Distinct ys → Distinct (ys ++ x ∷ [])
unfolding member
Distinct-snoc x [] m d = (refl, tt)
Distinct-snoc x (y ∷ ys) m d = (
  ground (arith, member-snoc y x ys, text_eq_sym x y, d.0),
  Distinct-snoc x ys (ground arith) d.1,
)

All-insert : (P : Text → Type 0) (x : Text) (ys : List Text) → P x → All P ys → All P (insert x ys)
unfolding insert
All-insert P x [] h hs = (h, hs)
All-insert P x (y ∷ ys) h hs = elim (Bool-cases (text_leb x y)) [
  | inl first ↦ rw first (h, hs)
  | inr later ↦ rw later (hs.0, All-insert P x ys h hs.1)
]

All-sort : (P : Text → Type 0) (xs : List Text) → All P xs → All P (sort_strings xs)
unfolding sort_strings
All-sort P [] hs = tt
All-sort P (x ∷ xs) hs = All-insert P x (sort_strings xs) hs.0 (All-sort P xs hs.1)

All-after : (x y : Text) (ys : List Text) → Before x y → All (Before y) ys → All (Before x) ys
All-after x y [] h hs = tt
All-after x y (z ∷ ys) h hs = (Before-trans x y z h hs.0, All-after x y ys h hs.1)

insert-Ascending :
    (x : Text) (ys : List Text) → member x ys ≡ false → Ascending ys → Ascending (insert x ys)
unfolding insert member
insert-Ascending x [] m a = (tt, tt)
insert-Ascending x (y ∷ ys) m a = elim (Bool-cases (text_leb x y)) [
  | inl first ↦
      let below = text_leb-antisym x y first (ground arith) in
      rw first ((below, All-after x y ys below a.0), a)
  | inr later ↦
      rw later (All-insert (Before y) x ys later a.0, insert-Ascending x ys (ground arith) a.1)
]

sort-Ascending : (xs : List Text) → Distinct xs → Ascending (sort_strings xs)
unfolding sort_strings
sort-Ascending [] d = tt
sort-Ascending (x ∷ xs) d =
    insert-Ascending x (sort_strings xs) (member-sort x xs ∙ d.0) (sort-Ascending xs d.1)

-- A property of the value, if there is one.
abbrev pub Gives : {S A : Type 0} → (A → Type 0) → Result A × Session S → Type 0
Gives P (ok a, t) = P a
Gives P (err e, t) = Unit
Gives P (panic, t) = Unit

Gives-continue :
    {S A B : Type 0} (Q : A → Type 0) (P : B → Type 0) (f : A → Op S B) (w : Network)
    (x : Result A × Session S)
    → Gives Q x
    → ((a : A) (t : Session S) → Q a → Gives P (f a w t))
    → Gives P (continue f w x)
Gives-continue Q P f w (ok a, t) q h = h a t q
Gives-continue Q P f w (err e, t) q h = tt
Gives-continue Q P f w (panic, t) q h = tt

Gives-any : {S A : Type 0} (x : Result A × Session S) → Gives (λ _. Unit {0}) x
Gives-any (ok a, t) = tt
Gives-any (err e, t) = tt
Gives-any (panic, t) = tt

abbrev Listed : List Text → Type 0
Listed active = Distinct active × All Normal active

Gives-then :
    {S A B : Type 0} (P : B → Type 0) (f : A → Op S B) (w : Network) (x : Result A × Session S)
    → ((a : A) (t : Session S) → Gives P (f a w t))
    → Gives P (continue f w x)
Gives-then P f w x h = Gives-continue (λ _. Unit {0}) P f w x (Gives-any x) (λ a t _. h a t)

module _ (r : Redis) (o : StoreOptions) where
  keep-Listed :
      (stored : Text) (active : List Text) (n : ℕ) (w : Network) (t : Session r.Server)
      → is_empty (normalize_genre stored) ≡ false
      → Listed active
      → Gives Listed (keep_filled r o (normalize_genre stored) active n w t)
  unfolding keep_filled
  keep-Listed stored active n w t full h = elim (Bool-cases (n == 0)) [
    | inl none_left ↦ rw none_left (
        Gives-then Listed (λ _. pure active) w
          (ignored (command (r.srem (genres_key o) (normalize_genre stored))) w t) (λ _ _. h))
    | inr some_left ↦ rw some_left (elim (Bool-cases (member (normalize_genre stored) active)) [
      | inl seen ↦ rw seen h
      | inr fresh ↦ rw fresh (
        Distinct-snoc (normalize_genre stored) active fresh h.0,
        All-append Normal active (normalize_genre stored ∷ []) h.1 ((stored, refl, full), tt),
      )
    ])
  ]

  visit-Listed :
      (stored : Text) (active : List Text) (w : Network) (t : Session r.Server)
      → Listed active
      → Gives Listed (visit_genre r o stored active w t)
  unfolding visit_genre bytes
  visit-Listed stored active w t h = elim (Bool-cases (is_empty (normalize_genre stored))) [
    | inl blank ↦ rw blank (
        Gives-then Listed (λ _. pure active) w
          (ignored (command (r.srem (genres_key o) stored)) w t) (λ _ _. h))
    | inr full ↦ rw full (
        Gives-then Listed (keep_filled r o (normalize_genre stored) active) w
          ((mend r o stored (normalize_genre stored)
              >> within (bytes "check genre " ++ quoted (normalize_genre stored))
                  (query (r.llen (collection_key o (normalize_genre stored)))))
            w t)
          (λ n t'. keep-Listed stored active n w t' full h))
  ]

  visits-Listed :
      (stored active : List Text) (w : Network) (t : Session r.Server)
      → Listed active
      → Gives Listed (visit_genres r o stored active w t)
  unfolding visit_genres
  visits-Listed [] active w t h = h
  visits-Listed (g ∷ stored) active w t h =
      Gives-continue Listed Listed (visit_genres r o stored) w (visit_genre r o g active w t)
        (visit-Listed g active w t h) (λ a t' k. visits-Listed stored a w t' k)

  -- Whatever is stored in the set of the genres and whatever becomes of the requests, a list that
  -- `Genres` gives is sorted, without a double, and has only names that are normal and not blank.
  pub genres-Ascending :
      (w : Network) (t : Session r.Server)
      → Gives (λ names. Ascending names × All Normal names) (genres r o w t)
  unfolding genres bytes
  genres-Ascending w t =
      Gives-then (λ names. Ascending names × All Normal names)
        (λ stored. visit_genres r o stored [] >>= λ active. pure (sort_strings active)) w
        (within (bytes "smembers " ++ genres_key o) (query (r.smembers (genres_key o))) w t)
        (λ stored t'.
          Gives-continue Listed (λ names. Ascending names × All Normal names)
            (λ active. pure (sort_strings active)) w (visit_genres r o stored [] w t')
            (visits-Listed stored [] w t' (tt, tt))
            (λ active t'' k. (sort-Ascending active k.0, All-sort Normal active k.1)))
