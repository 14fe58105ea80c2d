-- ===== src/Kindle/Cache/Recency.antt =====
-- The cache of prepared images is a list of images by age, bounded in number and in bytes.
use atlas.Base.{
  length-append, Bool-cases, inl, inr, ℕ, suc, ◌+◌, ◌-◌, ◌≤◌, ◌≡◌, refl, Bool, true, false, ltb,
  List, [], ◌∷◌, ◌++◌, length, Text, text_eq, Option, none, some, if◌then◌else◌, arith,
}
use atlas.Kindle.Cache.{
  Cache, empty, promote, get_prepared_image, size_of, delete, insert, crowded, make_room,
  append_image, put_prepared_image, max_prepared_images, max_prepared_image_bytes,
}
use atlas.Kindle.Cache.Entries.{
  Entry, keys, lookup, total, Distinct, remove, youngest, text_eq_refl, same_key, length-keys,
  lookup-append, youngest-absent, keys-append, total-append, append-Distinct, youngest-Distinct,
  youngest-room, lookup_same, lookup-remove, remove-Distinct, removed,
}

pub record Holds (c : Cache) (es : List Entry) : Type 0 where
  pub same_order : c.order ≡ keys es
  pub same_images : (k : Text) → c.images k ≡ lookup k es
  pub same_size : c.held ≡ total es
  pub distinct : Distinct es
  pub few : length es ≤ max_prepared_images
  pub small : total es ≤ max_prepared_image_bytes

abbrev pub Agrees : Cache → List Entry → Type 0
Agrees c es = (c.order ≡ keys es) × ((k : Text) → c.images k ≡ lookup k es) × (c.held ≡ total es)

either :
    (b : Bool) (c c' : Cache) (es es' : List Entry)
    → Agrees c es
    → Agrees c' es'
    → Agrees (if b then c else c') (if b then es else es')
either true c c' es es' h h' = h
either false c c' es es' h h' = h'

delete-lookup :
    (images : Text → Option Text) (e : Entry) (es : List Entry)
    → lookup e.0 es ≡ none
    → ((k : Text) → images k ≡ lookup k (e ∷ es))
    → (k : Text) → delete e.0 images k ≡ lookup k es
unfolding delete
delete-lookup images e es absent h k = elim (Bool-cases (text_eq k e.0)) [
  | inl same ↦ let e' = same_key k e.0 same in grind (arith, e', same)
  | inr other ↦ ground (arith, h k, other)
]

freed :
    (images : Text → Option Text) (e : Entry) (es : List Entry)
    → images e.0 ≡ lookup e.0 (e ∷ es)
    → length e.1 + total es - size_of (images e.0) ≡ total es
unfolding size_of
freed images e es h =
    let found : images e.0 ≡ some e.1 = ground (arith, h, text_eq_refl e.0) in
    rw found (omega arith)

make_room-youngest :
    (size : ℕ) (es : List Entry) (images : Text → Option Text)
    → Distinct es
    → ((k : Text) → images k ≡ lookup k es)
    → Agrees (make_room size (keys es) images (total es)) (youngest size es)
unfolding make_room
make_room-youngest size [] images d h = (refl, h, refl)
make_room-youngest size (e ∷ es) images d h =
    let fewer =
      make_room-youngest size es (delete e.0 images) d.1 (delete-lookup images e es d.0 h) in
    let held = freed images e es (h e.0) in
    let counted = length-keys es in
    rw (counted, held)
      (either (crowded (suc (length es)) (length e.1 + total es) size) _ _ _ _ fewer
        (refl, h, refl))

insert-lookup :
    (images : Text → Option Text) (e : Entry) (es : List Entry)
    → lookup e.0 es ≡ none
    → ((k : Text) → images k ≡ lookup k es)
    → (k : Text) → insert e.0 e.1 images k ≡ lookup k (es ++ e ∷ [])
unfolding insert
insert-lookup images e es absent h k = ground (arith, h k, lookup-append k es e absent)

appended :
    (c : Cache) (es : List Entry) (e : Entry)
    → lookup e.0 es ≡ none
    → Agrees c es
    → Agrees (append_image e.0 e.1 c) (es ++ e ∷ [])
unfolding append_image
appended c es e absent h =
    let (same_order, same_images, same_held) = h in
    (
      rw (same_order, keys-append es e) refl,
      insert-lookup c.images e es absent same_images,
      rw (same_held, total-append es e) refl,
    )

-- `putPreparedImage` on the list of images by age: a known key changes nothing, an image that is
-- larger than the cache is not kept, and any other drives out as many of the oldest as it must.
abbrev pub put : Text → Text → List Entry → List Entry
put key image es = elim (lookup key es) [
  | some known ↦ es
  | none ↦
      if ltb max_prepared_image_bytes (length image)
      then es
      else youngest (length image) es ++ (key, image) ∷ []
]

put_new :
    (key image : Text) (c : Cache) (es : List Entry)
    → Holds c es
    → lookup key es ≡ none
    → (b : Bool) → ltb max_prepared_image_bytes (length image) ≡ b
    → Holds
        (if b then c else append_image key image (make_room (length image) c.order c.images c.held))
        (if b then es else youngest (length image) es ++ (key, image) ∷ [])
put_new key image c es h absent true big = h
put_new key image c es h absent false fits =
    let fits : length image ≤ max_prepared_image_bytes = ground arith in
    let room = youngest-room (length image) es fits in
    let free = youngest-absent key (length image) es absent in
    let kept = youngest (length image) es in
    let made : Agrees (make_room (length image) c.order c.images c.held) kept =
      rw (h.same_order, h.same_size)
        (make_room-youngest (length image) es c.images h.distinct h.same_images) in
    let now = appended _ kept (key, image) free made in
    record {
      same_order = now.0;
      same_images = now.1;
      same_size = now.2;
      distinct =
          append-Distinct kept (key, image) (youngest-Distinct (length image) es h.distinct) free;
      few = rw (length-append kept ((key, image) ∷ [])) (omega (arith, room));
      small = rw (total-append kept (key, image)) (room.1);
    }

put_cases :
    (key image : Text) (c : Cache) (es : List Entry)
    → Holds c es
    → (o : Option Text) → c.images key ≡ o
    → (l : Option Text) → lookup key es ≡ l
    → Holds
        (elim o [
          | some known ↦ c
          | none ↦
              if ltb max_prepared_image_bytes (length image)
              then c
              else append_image key image (make_room (length image) c.order c.images c.held)
        ])
        (elim l [
          | some known ↦ es
          | none ↦
              if ltb max_prepared_image_bytes (length image)
              then es
              else youngest (length image) es ++ (key, image) ∷ []
        ])
put_cases key image c es h none out none absent =
    put_new key image c es h absent (ltb max_prepared_image_bytes (length image)) refl
put_cases key image c es h none out (some l) present =
    let same = h.same_images key in absurd (ground (arith, out, same, present))
put_cases key image c es h (some o) out none absent =
    let same = h.same_images key in absurd (ground (arith, out, same, absent))
put_cases key image c es h (some o) out (some l) present = h

-- `putPreparedImage` does to the cache what `put` does to its images by age, and keeps its bounds:
-- at most 128 images of at most 64 MiB together, each key once, the bytes counted exactly.
pub put_prepared_image-Holds :
    (key image : Text) (c : Cache) (es : List Entry)
    → Holds c es
    → Holds (put_prepared_image key image c) (put key image es)
unfolding put_prepared_image
put_prepared_image-Holds key image c es h =
    put_cases key image c es h (c.images key) refl (lookup key es) refl

-- `getPreparedImage` on the list of images by age: a known image moves to the young end.
abbrev pub get : Text → List Entry → Option Text × List Entry
get key es = elim (lookup key es) [
  | none ↦ (none, es)
  | some image ↦ (some image, remove key es ++ (key, image) ∷ [])
]

get_images :
    (key image : Text) (c : Cache) (es : List Entry)
    → Holds c es
    → lookup key es ≡ some image
    → lookup key (remove key es) ≡ none
    → (k : Text) → c.images k ≡ lookup k (remove key es ++ (key, image) ∷ [])
get_images key image c es h present absent k =
    let before = h.same_images k in
    ground (
      arith,
      before,
      lookup-append k (remove key es) (key, image) absent,
      lookup-remove k key es h.distinct,
      lookup_same k key es,
    )

get_known :
    (key image : Text) (c : Cache) (es : List Entry)
    → Holds c es
    → lookup key es ≡ some image
    → Holds (record c { order = promote key c.order }) (remove key es ++ (key, image) ∷ [])
get_known key image c es h present =
    let sizes = removed key image es present in
    let e : Entry = (key, image) in
    let rest = remove key es in
    let absent : lookup key rest ≡ none =
      ground (arith, lookup-remove key key es h.distinct, text_eq_refl key) in
    record {
      same_order = rw (h.same_order, keys-append rest e, sizes.2) refl;
      same_images = λ k. get_images key image c es h present absent k;
      same_size = rw (h.same_size, total-append rest e, sizes.1) refl;
      distinct = append-Distinct rest e (remove-Distinct key es h.distinct) absent;
      few = rw (length-append rest (e ∷ [])) (omega (arith, sizes.0, h.few));
      small = rw (total-append rest e, sizes.1) h.small;
    }

get_cases :
    (key : Text) (c : Cache) (es : List Entry)
    → Holds c es
    → (o : Option Text) → c.images key ≡ o
    → (l : Option Text) → lookup key es ≡ l
    → let new : Option Text × Cache = elim o [
      | none ↦ (none, c)
      | some image ↦ (some image, record c { order = promote key c.order })
    ] in
      let young : Option Text × List Entry = elim l [
        | none ↦ (none, es)
        | some image ↦ (some image, remove key es ++ (key, image) ∷ [])
      ] in
      (new.0 ≡ young.0) × Holds new.1 young.1
get_cases key c es h none out none absent = (refl, h)
get_cases key c es h none out (some l) present =
    let same = h.same_images key in absurd (ground (arith, out, same, present))
get_cases key c es h (some o) out none absent =
    let same = h.same_images key in absurd (ground (arith, out, same, absent))
get_cases key c es h (some o) out (some l) present =
    let same : o ≡ l = let agreed = h.same_images key in ground (arith, out, present, agreed) in
    ((λ i. some (same i)), get_known key l c es h present)

-- `getPreparedImage` returns what the images by age hold under the key, moves it to the young end
-- and keeps the bounds.
pub get_prepared_image-Holds :
    (key : Text) (c : Cache) (es : List Entry)
    → Holds c es
    → ((get_prepared_image key c).0 ≡ (get key es).0)
      × Holds (get_prepared_image key c).1 (get key es).1
unfolding get_prepared_image
get_prepared_image-Holds key c es h = get_cases key c es h (c.images key) refl (lookup key es) refl

-- The cache of a new `Device` holds no image.
pub empty-Holds : Holds empty []
unfolding empty
empty-Holds = record {
  same_order = refl;
  same_images = λ k. refl;
  same_size = refl;
  distinct = tt;
  few = omega arith;
  small = omega arith;
}

-- An image that fits the cache is found again right after it is put, unless its key was known.
pub put-get :
    (key image : Text) (c : Cache) (es : List Entry)
    → Holds c es
    → c.images key ≡ none
    → length image ≤ max_prepared_image_bytes
    → (get_prepared_image key (put_prepared_image key image c)).0 ≡ some image
put-get key image c es h out fits =
    let held = put_prepared_image-Holds key image c es h in
    let got = get_prepared_image-Holds key _ _ held in
    let same = h.same_images key in
    let absent : lookup key es ≡ none = ground (arith, same, out) in
    let free = youngest-absent key (length image) es absent in
    let found = lookup-append key (youngest (length image) es) (key, image) free in
    let read = got.0 in ground (arith, read, found, text_eq_refl key)
