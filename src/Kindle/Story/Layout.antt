-- ===== src/Kindle/Story/Layout.antt =====
-- The screen of a story: its regions and the sources below it.
use atlas.Base.{
  ℕ, suc, ◌≤◌, ◌≡◌, Bool, true, ◌&&◌, not, List, [], ◌∷◌, Text, text_eq, text_eq_iff, trim_space,
  is_empty, arith, if◌then◌else◌,
}
use atlas.Kindle.Clock.Layout.{Fits, Above}
use atlas.Kindle.Story.{StorySource, new_story_layout, member, labels}

-- On a screen of at least 16 by 100 pixels, with or without an image, the regions of a story's
-- texts lie on it, are at least two pixels wide and high, and stand one below the other: the genre,
-- its rule, the title, the description and the source.
pub new_story_layout-stacked :
    (w h : ℕ) (with_image : Bool)
    → 16 ≤ w
    → 100 ≤ h
    → let l = new_story_layout w h with_image in
      (Fits w h l.genre
        × Fits w h l.genre_rule
        × Fits w h l.title
        × Fits w h l.description
        × Fits w h l.source)
      × (Above l.genre l.genre_rule
          × Above l.genre_rule l.title
          × Above l.title l.description
          × Above l.description l.source)
unfolding new_story_layout
new_story_layout-stacked w h with_image wide tall = (
  (ground arith, ground arith, ground arith, ground arith, ground arith),
  (omega arith, omega arith, omega arith, omega arith),
)

abbrev pub count : Text → List Text → ℕ
count label [] = 0
count label (l ∷ ls) = if text_eq label l then suc (count label ls) else count label ls

abbrev pub domains : List StorySource → List Text
domains [] = []
domains (s ∷ ss) = trim_space s.domain ∷ domains ss

same_member : (a b : Text) (ls : List Text) → text_eq a b ≡ true → member a ls ≡ member b ls
same_member a b ls h = let path = (text_eq_iff a b).0 h in (λ i. member (path i) ls)

same_empty : (a b : Text) → text_eq a b ≡ true → is_empty a ≡ is_empty b
same_empty a b h = let path = (text_eq_iff a b).0 h in (λ i. is_empty (path i))

count-labels :
    (label : Text) (seen : List Text) (ss : List StorySource)
    → count label (labels seen ss) ≡ (
        if not (is_empty label) && not (member label seen) && member label (domains ss)
        then 1
        else 0)
unfolding labels member
count-labels label seen [] = ground arith
count-labels label seen (s ∷ ss) =
    let d = trim_space s.domain in
    ground (
      arith,
      count-labels label seen ss,
      count-labels label (d ∷ seen) ss,
      same_member label d seen,
      same_empty label d,
    )

-- Every domain of the sources that is not blank is named once in the label below a story, and
-- nothing else is.
pub labels-once :
    (label : Text) (ss : List StorySource)
    → count label (labels [] ss)
      ≡ (if not (is_empty label) && member label (domains ss) then 1 else 0)
unfolding member
labels-once label ss = ground (arith, count-labels label [] ss)
