-- ===== src/Kindle/Cache/Entries.antt =====
-- Images listed by age, the oldest first, each under its own key: what the cache of prepared
-- images of internal/kindle/story.go is to be.
use atlas.Base.{
  Bool-cases, inl, inr, ℕ, suc, ◌+◌, ◌≤◌, ◌<◌, ◌≡◌, refl, true, false, ◌&&◌, not, List, [], ◌∷◌,
  ◌++◌, length, Text, text_eq, text_eq_iff, Option, none, some, if◌then◌else◌, arith,
}
use atlas.Kindle.Cache.{promote, crowded, max_prepared_images, max_prepared_image_bytes}

abbrev pub Entry : Type 0
Entry = Text × Text

-- What the cache is to be: its images, the oldest first.
abbrev pub keys : List Entry → List Text
keys [] = []
keys (e ∷ es) = e.0 ∷ keys es

abbrev pub lookup : Text → List Entry → Option Text
lookup k [] = none
lookup k (e ∷ es) = if text_eq k e.0 then some e.1 else lookup k es

abbrev pub total : List Entry → ℕ
total [] = 0
total (e ∷ es) = length e.1 + total es

abbrev pub Distinct : List Entry → Type 0
Distinct [] = Unit
Distinct (e ∷ es) = (lookup e.0 es ≡ none) × Distinct es

abbrev pub remove : Text → List Entry → List Entry
remove k [] = []
remove k (e ∷ es) = if text_eq k e.0 then es else e ∷ remove k es

-- The entries that stay when there is to be room for one of the given size.
abbrev pub youngest : ℕ → List Entry → List Entry
youngest size [] = []
youngest size (e ∷ es) =
    if crowded (suc (length es)) (length e.1 + total es) size then youngest size es else e ∷ es

pub text_eq_refl : (k : Text) → text_eq k k ≡ true
text_eq_refl k = (text_eq_iff k k).1 refl

pub text_eq_sym : (k l : Text) → text_eq k l ≡ text_eq l k
unfolding text_eq
text_eq_sym [] [] = refl
text_eq_sym [] (y ∷ ys) = refl
text_eq_sym (x ∷ xs) [] = refl
text_eq_sym (x ∷ xs) (y ∷ ys) = ground (arith, text_eq_sym xs ys)

pub same_key : (k l : Text) → text_eq k l ≡ true → k ≡ l
same_key k l h = (text_eq_iff k l).0 h

pub apart : (k a b : Text) → (text_eq k a && text_eq k b && not (text_eq a b)) ≡ false
apart k a b = grind (arith, same_key k a, same_key k b, text_eq_refl a)

pub length-keys : (es : List Entry) → length (keys es) ≡ length es
length-keys [] = refl
length-keys (e ∷ es) = omega (arith, length-keys es)

-- Lists of entries with different keys.

pub lookup-append :
    (k : Text) (es : List Entry) (e : Entry)
    → lookup e.0 es ≡ none
    → lookup k (es ++ e ∷ []) ≡ (if text_eq k e.0 then some e.1 else lookup k es)
lookup-append k [] e h = refl
lookup-append k (f ∷ es) e h = ground (arith, lookup-append k es e, apart k e.0 f.0)

pub youngest-absent :
    (k : Text) (size : ℕ) (es : List Entry)
    → lookup k es ≡ none
    → lookup k (youngest size es) ≡ none
youngest-absent k size [] h = refl
youngest-absent k size (e ∷ es) h = ground (arith, youngest-absent k size es)

pub keys-append : (es : List Entry) (e : Entry) → keys (es ++ e ∷ []) ≡ keys es ++ e.0 ∷ []
keys-append [] e = refl
keys-append (f ∷ es) e = λ i. f.0 ∷ keys-append es e i

pub total-append : (es : List Entry) (e : Entry) → total (es ++ e ∷ []) ≡ total es + length e.1
total-append [] e = omega arith
total-append (f ∷ es) e = omega (arith, total-append es e)

pub append-Distinct :
    (es : List Entry) (e : Entry) → Distinct es → lookup e.0 es ≡ none → Distinct (es ++ e ∷ [])
append-Distinct [] e d h = (refl, tt)
append-Distinct (f ∷ es) e d h =
    ground (arith, append-Distinct es e, lookup-append f.0 es e, text_eq_sym f.0 e.0)

pub youngest-Distinct : (size : ℕ) (es : List Entry) → Distinct es → Distinct (youngest size es)
youngest-Distinct size [] d = tt
youngest-Distinct size (e ∷ es) d = ground (arith, youngest-Distinct size es)

pub youngest-room :
    (size : ℕ) (es : List Entry)
    → size ≤ max_prepared_image_bytes
    → (length (youngest size es) < max_prepared_images)
      × (total (youngest size es) + size ≤ max_prepared_image_bytes)
youngest-room size [] h = (omega arith, omega (arith, h))
youngest-room size (e ∷ es) h = ground (arith, youngest-room size es)

pub lookup_same : (k l : Text) (es : List Entry) → text_eq k l ≡ true → lookup k es ≡ lookup l es
lookup_same k l es h = let path = same_key k l h in (λ i. lookup (path i) es)

pub lookup-remove :
    (k key : Text) (es : List Entry)
    → Distinct es
    → lookup k (remove key es) ≡ (if text_eq k key then none else lookup k es)
lookup-remove k key [] d = ground arith
lookup-remove k key (e ∷ es) d = elim (Bool-cases (text_eq key e.0)) [
  | inl same ↦
      let e' = same_key key e.0 same in
      let through : text_eq k key ≡ text_eq k e.0 = (λ i. text_eq k (e' i)) in
      ground (arith, same, through, lookup_same k e.0 es, d.0)
  | inr other ↦ ground (arith, lookup-remove k key es d.1, apart k key e.0, other)
]

pub remove-Distinct : (key : Text) (es : List Entry) → Distinct es → Distinct (remove key es)
remove-Distinct key [] d = tt
remove-Distinct key (e ∷ es) d =
    ground (arith, remove-Distinct key es, lookup-remove e.0 key es d.1)

pub removed :
    (key image : Text) (es : List Entry)
    → lookup key es ≡ some image
    → (suc (length (remove key es)) ≡ length es)
      × (total (remove key es) + length image ≡ total es)
      × (keys (remove key es) ++ key ∷ [] ≡ promote key (keys es))
unfolding promote
removed key image [] h = absurd (ground (arith, h))
removed key image (e ∷ es) h = ground (arith, removed key image es, text_eq_sym key e.0)
