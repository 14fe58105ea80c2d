-- ===== src/Dashboard/Files.antt =====
-- internal/dashboard/backdrops.go: which file the picture of a genre comes from, and that it is looked
-- for once.
use atlas.Base.{
  Bool, Bool-cases, true, false, ◌&&◌, List, [], ◌∷◌, Text, text_eq, text_eq_iff, Option, none,
  some, is_none, ◌≡◌, refl, sym, ap, ◌∙◌, inl, inr, arith, if◌then◌else◌,
}
use atlas.Dashboard.{DirEntry, Parts, Dashboard, Backdrop}
use atlas.Dashboard.Backdrops.{
  is_picture, stem, lookup, index_entries, cache_key, answer_from, load_genre_backdrop,
}

-- The first picture of the directory whose name, without its ending and in lower case, is the key.
unfoldable pub first_named : Text → List DirEntry → Option DirEntry
unfolding text_eq
first_named key [] = none
first_named key (entry ∷ entries) =
    let later = first_named key entries in
    if is_picture entry && text_eq key (stem entry.name) then some entry else later

abbrev pub path_of : (Text → Text → Text) → Text → Option DirEntry → Option Text
path_of join dir none = none
path_of join dir (some entry) = some (join dir entry.name)

or_else : {A : Type 0} → Option A → Option A → Option A
or_else none b = b
or_else (some a) b = some a

or_else-none : {A : Type 0} (a : Option A) → a ≡ or_else a none
unfolding or_else
or_else-none none = refl
or_else-none (some a) = refl

or_else-some : {A : Type 0} (a b : Option A) → is_none a ≡ false → or_else a b ≡ a
unfolding or_else
or_else-some none b h = ground arith
or_else-some (some a) b h = refl

none_of : {A : Type 0} (a : Option A) → is_none a ≡ true → a ≡ none
none_of none h = refl
none_of (some a) h = ground arith

and_left : (a b : Bool) → a && b ≡ true → a ≡ true
and_left a b h = ground arith

and_right : (a b : Bool) → a && b ≡ true → b ≡ true
and_right a b h = ground arith

and_rest : (a b : Bool) → a ≡ true → a && b ≡ false → b ≡ false
and_rest a b h k = ground arith

and_false : (a : Bool) → a && false ≡ false
and_false a = ground arith

-- The step of the induction, where the file is entered in the index or not.
module _ (join : Text → Text → Text) (dir key : Text) (entry : DirEntry) where
  abbrev Looks : Bool → Bool → List (Text × Text) → Option DirEntry → Option Text → Type 0
  Looks fresh named index later found =
      found
      ≡ or_else (lookup key index) (path_of join dir (if fresh && named then some entry else later))

  entered :
      (picture : Bool) (index : List (Text × Text)) (later : Option DirEntry)
      → picture && is_none (lookup (stem entry.name) index) ≡ true
      → Looks picture (text_eq key (stem entry.name)) index later (
          or_else
            (lookup key ((stem entry.name, join dir entry.name) ∷ index))
            (path_of join dir later))
  unfolding lookup or_else
  entered picture index later h = elim (Bool-cases (text_eq key (stem entry.name))) [
    | inl same ↦
        let is = (text_eq_iff key (stem entry.name)).0 same in
        let free =
          ap (λ k. lookup k index) is ∙ none_of (lookup (stem entry.name) index) (ground arith) in
        rw (same, free, and_left picture (is_none (lookup (stem entry.name) index)) h) refl
    | inr other ↦ rw (other, and_false picture) refl
  ]

  passed_by :
      (picture : Bool) (index : List (Text × Text)) (later : Option DirEntry)
      → picture && is_none (lookup (stem entry.name) index) ≡ false
      → Looks picture
          (text_eq key (stem entry.name))
          index
          later
          (or_else (lookup key index) (path_of join dir later))
  passed_by picture index later h = elim (Bool-cases (picture && text_eq key (stem entry.name))) [
    | inl both ↦
        let is =
          (text_eq_iff key (stem entry.name)).0
            (and_right picture (text_eq key (stem entry.name)) both) in
        let held : is_none (lookup key index) ≡ false =
          ap (λ k. is_none (lookup k index)) is
          ∙ and_rest picture (is_none (lookup (stem entry.name) index)) (and_left picture _ both)
              h in
        or_else-some (lookup key index) (path_of join dir later) held
        ∙ sym (
            or_else-some (lookup key index)
              (path_of join dir
                (if picture && text_eq key (stem entry.name) then some entry else later))
              held)
    | inr apart ↦ rw apart refl
  ]

index_entries-lookup :
    (join : Text → Text → Text) (dir key : Text) (entries : List DirEntry)
    (index : List (Text × Text))
    → lookup key (index_entries join dir entries index)
      ≡ or_else (lookup key index) (path_of join dir (first_named key entries))
unfolding index_entries first_named
index_entries-lookup join dir key [] index = or_else-none (lookup key index)
index_entries-lookup join dir key (entry ∷ entries) index =
    elim (Bool-cases (is_picture entry && is_none (lookup (stem entry.name) index))) [
      | inl fresh ↦ rw fresh (
          index_entries-lookup join dir key entries ((stem entry.name, join dir entry.name) ∷ index)
          ∙ entered join dir key entry (is_picture entry) index (first_named key entries) fresh)
      | inr old ↦ rw old (
          index_entries-lookup join dir key entries index
          ∙ passed_by join dir key entry (is_picture entry) index (first_named key entries) old)
    ]

-- The index of a directory has, for each name, the first picture of that name in the directory's
-- order, and no other.
pub index_entries-first :
    (join : Text → Text → Text) (dir key : Text) (entries : List DirEntry)
    → lookup key (index_entries join dir entries []) ≡ path_of join dir (first_named key entries)
unfolding lookup or_else
index_entries-first join dir key entries = index_entries-lookup join dir key entries []

module _ {S : Type 0} where
  kept_answer :
      (key assets genre : Text) (found : Option Backdrop) (p : Parts S) (d : Dashboard S)
      → lookup key d.backdrops ≡ found
      → let x = answer_from key assets genre found p d in lookup key x.1.backdrops ≡ some x.0
  unfolding answer_from lookup
  kept_answer key assets genre none p d e = rw ((text_eq_iff key key).1 refl) refl
  kept_answer key assets genre (some cached) p d e = e

  -- A picture that has been looked for once is not looked for again: the answer is the same, be it a
  -- picture or an error, and nothing is read or changed.
  pub load_genre_backdrop-again :
      (assets genre : Text) (p : Parts S) (d : Dashboard S)
      → load_genre_backdrop assets genre p (load_genre_backdrop assets genre p d).1
        ≡ load_genre_backdrop assets genre p d
  unfolding load_genre_backdrop answer_from
  load_genre_backdrop-again assets genre p d =
      let key = cache_key assets genre in
      ap (λ found. answer_from key assets genre found p (load_genre_backdrop assets genre p d).1)
        (kept_answer key assets genre (lookup key d.backdrops) p d refl)
