-- ===== src/News/Memory.antt =====
-- A small server, which keeps its lists, sets and marks as functions of the key, and obeys the laws
-- that internal/news relies on.
use atlas.Base.{
  ℕ, zero, suc, ◌-◌, ◌≤◌, Bool, true, not, if◌then◌else◌, Bool-cases, List, [], ◌∷◌, ◌++◌, length,
  take, drop, Text, bytes, text_eq, text_eq_iff, ℤ, pos, negsuc, leb_ℤ, sub_ℕ, Option, none, some,
  ◌≡◌, ◌≢◌, refl, sym, ap, ◌∙◌, arith, inl, inr,
}
use mathlib.Core.List.{reverse, reverse-append, reverse-reverse}
use atlas.Errors.{ok, err, message}
use atlas.News.Redis.{Redis, ListLaws, items}

pub record Memory : Type 0 where
  pub lists : Text → List Text
  pub sets : Text → List Text
  pub marks : Text → Bool

abbrev update : {A : Type 0} → (Text → A) → Text → A → Text → A
update f k a k' = if text_eq k' k then a else f k'

abbrev without : Text → List Text → List Text
without x [] = []
without x (y ∷ ys) = if text_eq x y then without x ys else y ∷ without x ys

abbrev remove_first : Text → List Text → List Text
remove_first x [] = []
remove_first x (y ∷ ys) = if text_eq x y then ys else y ∷ remove_first x ys

-- The part of a list from `start` to `stop`, where a negative index counts from the end.
abbrev from_index : ℤ → ℕ → ℕ
from_index (pos i) n = i
from_index (negsuc i) n = n - suc i

abbrev after_index : ℤ → ℕ → ℕ
after_index (pos i) n = suc i
after_index (negsuc i) n = n - i

abbrev range : (start stop : ℤ) → List Text → List Text
range start stop xs = drop (from_index start (length xs)) (take (after_index stop (length xs)) xs)

abbrev last_moved : List Text → Option Text × List Text
last_moved [] = (none, [])
last_moved (x ∷ reversed) = (some x, x ∷ reverse reversed)

abbrev moved_between : Text → Text → Option Text × List Text → Memory → Option Text × Memory
moved_between from to (none, left) s = (none, s)
moved_between from to (some x, left) s = (some x, record s { lists = update s.lists from left })

abbrev pub memory : Redis
memory = record {
  Server = Memory;
  smembers = λ k s. s.sets k;
  sadd = λ k x s. record s { sets = update s.sets k (without x (s.sets k) ++ x ∷ []) };
  srem = λ k x s. record s { sets = update s.sets k (without x (s.sets k)) };
  lrange = λ k start stop s. range start stop (s.lists k);
  llen = λ k s. length (s.lists k);
  rpush = λ k x s. record s { lists = update s.lists k (s.lists k ++ x ∷ []) };
  lpush = λ k x s. record s { lists = update s.lists k (x ∷ s.lists k) };
  ltrim = λ k start stop s. record s { lists = update s.lists k (range start stop (s.lists k)) };
  lmove_right_left = λ k to s. moved_between k to (last_moved (reverse (s.lists k))) s;
  lrem = λ k n x s. record s { lists = update s.lists k (remove_first x (s.lists k)) };
  del = λ k s. record s { lists = update s.lists k [] };
  set_nx_ex = λ k v n s.
      if leb_ℤ n (pos 0)
      then (err (message (bytes "invalid expire time")), s)
      else (ok (not (s.marks k)), record s { marks = update s.marks k true });
}

take_all : (n : ℕ) (xs : List Text) → n ≡ length xs → take n xs ≡ xs
take_all zero [] h = refl
take_all (suc n) [] h = refl
take_all zero (x ∷ xs) h = ground arith
take_all (suc n) (x ∷ xs) h = ap (◌∷◌ x) (take_all n xs (omega (arith, h)))

memory-items : (k : Text) (s : Memory) → items memory k s ≡ s.lists k
memory-items k s = take_all (length (s.lists k) - 0) (s.lists k) (omega arith)

memory_apart :
    (k k' : Text) (xs : List Text) (s : Memory)
    → k ≢ k'
    → items memory k (record s { lists = update s.lists k' xs }) ≡ items memory k s
memory_apart k k' xs s ne = elim (Bool-cases (text_eq k k')) [
  | inl same ↦ elim (ne ((text_eq_iff k k').0 same)) [ ]
  | inr apart ↦ rw apart refl
]

memory_own :
    (k : Text) (xs : List Text) (s : Memory)
    → items memory k (record s { lists = update s.lists k xs }) ≡ xs
memory_own k xs s =
    memory-items k (record s { lists = update s.lists k xs }) ∙ rw ((text_eq_iff k k).1 refl) refl

from_end : (k n : ℕ) → from_index (sub_ℕ 0 (suc n)) k ≡ k - suc n
from_end k n = ground arith

ltrim_range :
    (n : ℕ) (xs : List Text) → 1 ≤ n → range (sub_ℕ 0 n) (negsuc 0) xs ≡ drop (length xs - n) xs
ltrim_range zero xs l = elim l [ ]
ltrim_range (suc n) xs l =
    rw (take_all (length xs - 0) xs (omega arith)) (ap (λ i. drop i xs) (from_end (length xs) n))

moved_last :
    (k x : Text) (xs : List Text) (s : Memory)
    → s.lists k ≡ xs ++ x ∷ []
    → memory.lmove_right_left k k s ≡ (some x, record s { lists = update s.lists k (x ∷ xs) })
moved_last k x xs s e = rw (e, reverse-append xs (x ∷ []), reverse-reverse xs) refl

marks_apart : (k k' v : Text) (n : ℤ) (s : Memory) → (memory.set_nx_ex k' v n s).1.lists ≡ s.lists
marks_apart k k' v n s = elim (Bool-cases (leb_ℤ n (pos 0))) [
  | inl bad ↦ rw bad refl
  | inr good ↦ rw good refl
]

pub memory_laws : ListLaws memory
memory_laws = record {
  llen_length = λ k s. ap length (sym (memory-items k s));
  rpush_last = λ k v s.
      memory_own k (s.lists k ++ v ∷ []) s ∙ ap (λ l. l ++ v ∷ []) (sym (memory-items k s));
  ltrim_last = λ k n s l.
      memory_own k (range (sub_ℕ 0 n) (negsuc 0) (s.lists k)) s
      ∙ ltrim_range n (s.lists k) l
      ∙ ap (λ l. drop (length l - n) l) (sym (memory-items k s));
  lmove_none = λ k s e. rw (sym (memory-items k s) ∙ e) refl;
  lmove_last = λ k x xs s e.
      let m = moved_last k x xs s (sym (memory-items k s) ∙ e) in
      (ap (λ p. p.0) m, ap (λ p. items memory k p.1) m ∙ memory_own k (x ∷ xs) s);
  lrem_head = λ k x xs s e.
      memory_own k (remove_first x (s.lists k)) s
      ∙ rw (sym (memory-items k s) ∙ e, (text_eq_iff x x).1 refl) refl;
  rpush_apart = λ k k' v s ne. memory_apart k k' (s.lists k' ++ v ∷ []) s ne;
  lpush_apart = λ k k' v s ne. memory_apart k k' (v ∷ s.lists k') s ne;
  ltrim_apart = λ k k' a b s ne. memory_apart k k' (range a b (s.lists k')) s ne;
  sadd_apart = λ k k' v s ne. refl;
  set_nx_apart = λ k k' v n s ne. ap (λ f. take (length (f k) - 0) (f k)) (marks_apart k k' v n s);
}
