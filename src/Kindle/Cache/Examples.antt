-- ===== src/Kindle/Cache/Examples.antt =====
-- The cache of prepared images at concrete inputs.
use atlas.Base.{◌≡◌, refl, List, [], ◌∷◌, bytes, text_eq}
use atlas.Kindle.Cache.{
  Cache, empty, promote, get_prepared_image, put_prepared_image, make_room, append_image, insert,
  delete, size_of,
}
use atlas.Kindle.Cache.Entries.{Entry}
use atlas.Kindle.Cache.Recency.{Holds, put, empty-Holds, put_prepared_image-Holds}

program : Unit {0}
unfolding bytes text_eq empty promote get_prepared_image put_prepared_image make_room append_image
    insert delete size_of
program = tt

abbrev two_images : Cache
two_images =
    put_prepared_image (bytes "b") (bytes "second")
      (put_prepared_image (bytes "a") (bytes "first") empty)

abbrev two_entries : List Entry
two_entries = put (bytes "b") (bytes "second") (put (bytes "a") (bytes "first") [])

two_images-Holds : Holds two_images two_entries
two_images-Holds =
    put_prepared_image-Holds (bytes "b") (bytes "second") _ _
      (put_prepared_image-Holds (bytes "a") (bytes "first") empty [] empty-Holds)

order_after_get : (get_prepared_image (bytes "a") two_images).1.order ≡ bytes "b" ∷ bytes "a" ∷ []
unfolding program
order_after_get = refl

put_prepared_image-Holds_example :
    Holds
      (put_prepared_image (bytes "c") (bytes "third") two_images)
      (put (bytes "c") (bytes "third") two_entries)
put_prepared_image-Holds_example =
    put_prepared_image-Holds (bytes "c") (bytes "third") two_images two_entries two_images-Holds
