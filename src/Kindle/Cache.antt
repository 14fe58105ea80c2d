-- ===== src/Kindle/Cache.antt =====
-- internal/kindle/story.go: the cache of prepared images of a `Device` (commands.go).
pub mod Entries
pub mod Recency
mod Examples
use atlas.Base.{
  ℕ, zero, suc, ◌+◌, ◌-◌, ◌*◌, Bool, true, false, ◌||◌, not, ltb, leb, List, [], ◌∷◌, ◌++◌, length,
  Text, text_eq, Option, none, some, if◌then◌else◌, bytes, itoa,
}

abbrev pub max_prepared_images : ℕ
max_prepared_images = 128

abbrev pub max_prepared_image_bytes : ℕ
max_prepared_image_bytes = 64 * 1048576

-- The fields of `Device` that keep prepared images; `images` is a Go map.
pub record Cache : Type 0 where
  pub images : Text → Option Text
  pub order : List Text
  pub held : ℕ

unfoldable pub empty : Cache
empty = record { images = λ k. none; order = []; held = 0 }

-- The loop of `getPreparedImage`: the first entry equal to the key moves to the end.
unfoldable pub promote : Text → List Text → List Text
promote key [] = []
promote key (candidate ∷ rest) =
    let later = promote key rest in
    if text_eq candidate key then rest ++ key ∷ [] else candidate ∷ later

unfoldable pub get_prepared_image : Text → Cache → Option Text × Cache
get_prepared_image key c = elim (c.images key) [
  | none ↦ (none, c)
  | some image ↦ (some image, record c { order = promote key c.order })
]

unfoldable pub size_of : Option Text → ℕ
size_of none = 0
size_of (some image) = length image

unfoldable pub delete : Text → (Text → Option Text) → Text → Option Text
delete key images k = if text_eq k key then none else images k

unfoldable pub insert : Text → Text → (Text → Option Text) → Text → Option Text
insert key image images k = if text_eq k key then some image else images k

-- The condition of the loop of `putPreparedImage` on a list that is not empty.
abbrev pub crowded : ℕ → ℕ → ℕ → Bool
crowded entries held size =
    leb max_prepared_images entries || ltb max_prepared_image_bytes (held + size)

-- The loop of `putPreparedImage`: the oldest go until the new image has room.
unfoldable pub make_room : ℕ → List Text → (Text → Option Text) → ℕ → Cache
make_room size [] images held = record { images = images; order = []; held = held }
make_room size (oldest ∷ rest) images held =
    let fewer = make_room size rest (delete oldest images) (held - size_of (images oldest)) in
    if crowded (suc (length rest)) held size
    then fewer
    else record { images = images; order = oldest ∷ rest; held = held }

unfoldable pub append_image : Text → Text → Cache → Cache
append_image key image c = record {
  images = insert key image c.images;
  order = c.order ++ key ∷ [];
  held = c.held + length image;
}

unfoldable pub put_prepared_image : Text → Text → Cache → Cache
put_prepared_image key image c = elim (c.images key) [
  | some known ↦ c
  | none ↦
      if ltb max_prepared_image_bytes (length image)
      then c
      else append_image key image (make_room (length image) c.order c.images c.held)
]

-- `preparedImageCacheKey`, where `hash` is the SHA-256 of a text in hexadecimal.
unfoldable pub prepared_image_cache_key : (Text → Text) → Text → Text → ℕ → ℕ → Text
unfolding bytes itoa
prepared_image_cache_key hash kind identity width height =
    bytes "eink-v3:"
    ++ kind
    ++ bytes ":"
    ++ hash identity
    ++ bytes ":"
    ++ itoa width
    ++ bytes "x"
    ++ itoa height
