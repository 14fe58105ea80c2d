-- ===== src/News/Rotation.antt =====
-- internal/news/store.go: one story after the other from a queue, by `Next`.
use atlas.Base.{
  snoc_cases, All-split, ℕ, zero, suc, List, [], ◌∷◌, ◌++◌, length, length-append, All,
  append_assoc, append-nil, Text, map, Option, some, ◌≡◌, refl, sym, ap, subst, ◌∙◌, inl, inr,
  arith,
}
use mathlib.Core.List.{reverse, reverse-append}
use atlas.Errors.{Result, ok}
use atlas.News.{Story, Codec, StoreOptions, collection_key}
use atlas.News.Redis.{Redis, ListLaws, items, Session}
use atlas.News.Store.{next}
use atlas.News.Queue.{healthy, Readable, next-finds}

-- `n` calls of `Next` for a genre, with what they give.
unfoldable pub take_turns :
    (r : Redis)
    → Codec
    → StoreOptions
    → Text
    → ℕ
    → Session r.Server
    → List (Result (Option Story)) × Session r.Server
unfolding next
take_turns r c o genre zero t = ([], t)
take_turns r c o genre (suc n) t =
    let (a, t') = next r c o genre healthy t in
    let (rest, t'') = take_turns r c o genre n t' in (a ∷ rest, t'')

module _ (r : Redis) (laws : ListLaws r) (c : Codec) (o : StoreOptions) (genre : Text) where
  abbrev Shown : List Story → List Text → List (Result (Option Story)) × Session r.Server → Type 0
  Shown stories queue p =
      (p.0 ≡ map (λ story. ok (some story)) stories)
      × (items r (collection_key o genre) p.1.server ≡ queue)

  turns_rotate :
      (f : Text → Story) (n : ℕ) (xs ys : List Text) (t : Session r.Server)
      → n ≡ length ys
      → items r (collection_key o genre) t.server ≡ xs ++ ys
      → All (λ v. Readable c v (f v)) ys
      → Shown (map f (reverse ys)) (ys ++ xs) (take_turns r c o genre n t)
  unfolding take_turns
  turns_rotate f zero xs [] t l e h = (refl, e ∙ append-nil xs)
  turns_rotate f zero xs (y ∷ ys) t l e h = ground arith
  turns_rotate f (suc n) xs ys t l e h = elim (snoc_cases ys) [
    | inl is ↦ ground (arith, ap length is)
    | inr (zs, z, is) ↦
        let split =
          All-split (λ v. Readable c v (f v)) zs (z ∷ [])
            (subst (All (λ v. Readable c v (f v))) is h) in
        let turned =
          next-finds r laws c o genre [] (xs ++ zs) z (f z) t
            (e ∙ ap (λ l. xs ++ l) is ∙ sym (append_assoc xs zs (z ∷ []))) split.1.0 tt in
        let rest =
          turns_rotate f n (z ∷ xs) zs (next r c o genre healthy t).1
            (omega (arith, l, ap length is, length-append zs (z ∷ []))) turned.1 split.0 in
        rw (is, reverse-append zs (z ∷ []), append_assoc zs (z ∷ []) xs)
          (rw (turned.0, rest.0) refl, rest.1)
  ]

  -- Over a connection that does not fail, as many turns as the queue has items, all of which can be
  -- read, give every story once, from the last one on, and leave the queue as it was.
  pub take_turns-cycle :
      (f : Text → Story) (ys : List Text) (t : Session r.Server)
      → items r (collection_key o genre) t.server ≡ ys
      → All (λ v. Readable c v (f v)) ys
      → Shown (map f (reverse ys)) ys (take_turns r c o genre (length ys) t)
  take_turns-cycle f ys t e h =
      subst (λ q. Shown (map f (reverse ys)) q (take_turns r c o genre (length ys) t))
        (append-nil ys) (turns_rotate f (length ys) [] ys t refl e h)
