-- ===== src/Dashboard/Backdrops.antt =====
-- internal/dashboard/backdrops.go: the picture of a genre, found by the name of its file, and
-- `loadGenreBackdrop` of dashboard.go, which keeps what was found.
use atlas.Base.{
  ◌-◌, Bool, ◌||◌, ◌&&◌, not, ◌==◌, List, [], ◌∷◌, ◌++◌, length, take, Text, bytes, text_eq,
  trim_space, to_lower, is_empty, Option, none, some, quoted, is_none, if◌then◌else◌,
}
use atlas.Errors.{Result, message}
use atlas.Dashboard.{
  DirEntry, looked_up, Backdrop, Dashboard, Op, pure, fail, ◌>>=◌, ◌>>◌, within, part, note,
}

unfoldable pub is_backdrop_ext : Text → Bool
unfolding bytes text_eq
is_backdrop_ext ext =
    text_eq ext (bytes ".png")
    || text_eq ext (bytes ".jpg")
    || text_eq ext (bytes ".jpeg")
    || text_eq ext (bytes ".webp")

-- filepath.Ext of a name without a slash: what follows its last dot, with the dot, or nothing.
unfoldable pub ext : Text → Text
ext [] = []
ext (c ∷ name) =
    let later = ext name in if is_empty later then (if c == b'.' then c ∷ name else []) else later

-- strings.TrimSuffix(name, filepath.Ext(name))
unfoldable pub stem : Text → Text
unfolding ext to_lower
stem name = to_lower (take (length name - length (ext name)) name)

unfoldable pub lookup : {A : Type 0} → Text → List (Text × A) → Option A
unfolding text_eq
lookup key [] = none
lookup key ((k, a) ∷ rest) = let later = lookup key rest in if text_eq key k then some a else later

-- Whether a file of the directory is a picture, so with a name and one of the endings.
unfoldable pub is_picture : DirEntry → Bool
unfolding is_backdrop_ext stem ext to_lower
is_picture entry =
    not entry.is_dir
    && is_backdrop_ext (to_lower (ext entry.name))
    && not (is_empty (stem entry.name))

-- The loop of `indexBackdrops`, with the map read so far as a list: the first file of a name wins.
unfoldable pub index_entries :
    (join : Text → Text → Text)
    → (dir : Text) → List DirEntry
    → List (Text × Text)
    → List (Text × Text)
unfolding is_picture stem lookup
index_entries join dir [] index = index
index_entries join dir (entry ∷ entries) index =
    if is_picture entry && is_none (lookup (stem entry.name) index)
    then index_entries join dir entries ((stem entry.name, join dir entry.name) ∷ index)
    else index_entries join dir entries index

unfoldable pub misc : Text
unfolding bytes
misc = bytes "misc"

-- The file of a genre, or else the one for all.
unfoldable pub choose : (genre : Text) → List (Text × Text) → Option Text
unfolding lookup misc trim_space to_lower
choose genre index = elim (lookup (to_lower (trim_space genre)) index) [
  | some path ↦ some path
  | none ↦ lookup misc index
]

unfoldable pub cache_key : (assets_dir genre : Text) → Text
unfolding trim_space to_lower
cache_key assets_dir genre = trim_space assets_dir ++ 0 ∷ to_lower (trim_space genre)

module _ {S : Type 0} where
  unfoldable pub index_backdrops : Text → Op S (List (Text × Text))
  unfolding bytes index_entries
  index_backdrops dir p d =
      (do
        entries ← within (bytes "read backdrop dir " ++ dir) (part (λ q. q.read_dir dir))
        pure (index_entries p.join dir entries []))
        p d

  unfoldable pub validate_backdrops : Text → Op S (Unit {0})
  unfolding bytes index_backdrops lookup misc
  validate_backdrops dir = do
    index ← index_backdrops dir
    elim (lookup misc index) [
      | none ↦ fail (message (bytes "no " ++ misc ++ bytes " fallback image in " ++ dir))
      | some path ↦ pure tt
    ]

  unfoldable pub read_backdrop : Text → Op S (Text × Text)
  unfolding bytes
  read_backdrop path = do
    contents ← within (bytes "read backdrop " ++ path) (part (λ q. q.read_file path))
    pure (contents, path)

  unfoldable pub read_chosen : (dir genre : Text) → Option Text → Op S (Text × Text)
  unfolding bytes read_backdrop quoted misc
  read_chosen dir genre none = fail (
      message (
        bytes "no backdrop for genre "
        ++ quoted genre
        ++ bytes " and no "
        ++ misc
        ++ bytes " fallback in "
        ++ dir))
  read_chosen dir genre (some path) = read_backdrop path

  unfoldable pub load_backdrop : (dir genre : Text) → Op S (Text × Text)
  unfolding bytes trim_space index_backdrops choose read_chosen
  load_backdrop dir genre =
      if is_empty (trim_space dir)
      then fail (message (bytes "backdrop dir is empty"))
      else (do index ← index_backdrops dir; read_chosen dir genre (choose genre index))

  -- The function `loadGenreBackdrop`
  unfoldable pub load_genre_file : (assets_dir genre : Text) → Op S (Text × Text)
  unfolding bytes trim_space load_backdrop
  load_genre_file assets_dir genre =
      let dir = trim_space assets_dir in
      load_backdrop (if is_empty dir then bytes "assets/genres" else dir) genre

  abbrev keep : Text → Result (Text × Text) × Dashboard S → Result (Text × Text) × Dashboard S
  keep key (a, d) = (a, record d { backdrops = (key, a) ∷ d.backdrops })

  unfoldable pub answer_from : (key assets_dir genre : Text) → Option Backdrop → Op S (Text × Text)
  unfolding load_genre_file
  answer_from key assets_dir genre (some cached) p d = (cached, d)
  answer_from key assets_dir genre none p d =
      keep key ((note (looked_up key) >> load_genre_file assets_dir genre) p d)

  -- The method `loadGenreBackdrop`: what was found for a key is kept, an error too.
  unfoldable pub load_genre_backdrop : (assets_dir genre : Text) → Op S (Text × Text)
  unfolding cache_key lookup answer_from
  load_genre_backdrop assets_dir genre p d =
      let key = cache_key assets_dir genre in
      answer_from key assets_dir genre (lookup key d.backdrops) p d
