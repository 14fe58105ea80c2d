-- ===== src/News/Redis.antt =====
-- The Redis server behind internal/news, and the connection to it. The server's commands are a
-- parameter, with the documented behaviour that the store relies on; a request over the connection
-- may fail before or after the server has carried it out.
use atlas.Base.{
  ℕ, suc, ◌-◌, ◌≤◌, Bool, List, [], ◌∷◌, ◌++◌, length, drop, Text, ℤ, pos, negsuc, sub_ℕ, Option,
  none, some, ◌≡◌, ◌≢◌,
}
use atlas.Errors.{Error, Result, ok, err, panic, wrapped}

-- The commands. SET … NX EX answers whether the key was set, or fails on an expiry that is no
-- positive number.
pub record Redis : Type 1 where
  pub Server : Type 0
  pub smembers : Text → Server → List Text
  pub sadd : (key member : Text) → Server → Server
  pub srem : (key member : Text) → Server → Server
  pub lrange : Text → (start stop : ℤ) → Server → List Text
  pub llen : Text → Server → ℕ
  pub rpush : (key item : Text) → Server → Server
  pub lpush : (key item : Text) → Server → Server
  pub ltrim : Text → (start stop : ℤ) → Server → Server
  pub lmove_right_left : (from to : Text) → Server → Option Text × Server
  pub lrem : Text → (count : ℕ) → (item : Text) → Server → Server
  pub del : Text → Server → Server
  pub set_nx_ex : (key value : Text) → (seconds : ℤ) → Server → Result Bool × Server

-- The list of a key, from its head.
abbrev pub items : (r : Redis) → Text → r.Server → List Text
items r k s = r.lrange k (pos 0) (negsuc 0) s

-- What the documentation of Redis says of the commands on lists, and that a command leaves the
-- lists of other keys as they are.
pub record ListLaws (r : Redis) : Type 0 where
  pub llen_length : (k : Text) (s : r.Server) → r.llen k s ≡ length (items r k s)
  pub rpush_last : (k v : Text) (s : r.Server) → items r k (r.rpush k v s) ≡ items r k s ++ v ∷ []
  pub ltrim_last :
      (k : Text) (n : ℕ) (s : r.Server)
      → 1 ≤ n
      → items r k (r.ltrim k (sub_ℕ 0 n) (negsuc 0) s)
        ≡ drop (length (items r k s) - n) (items r k s)
  pub lmove_none :
      (k : Text) (s : r.Server) → items r k s ≡ [] → r.lmove_right_left k k s ≡ (none, s)
  pub lmove_last :
      (k x : Text) (xs : List Text) (s : r.Server)
      → items r k s ≡ xs ++ x ∷ []
      → ((r.lmove_right_left k k s).0 ≡ some x) × (items r k (r.lmove_right_left k k s).1 ≡ x ∷ xs)
  pub lrem_head :
      (k x : Text) (xs : List Text) (s : r.Server)
      → items r k s ≡ x ∷ xs
      → items r k (r.lrem k 1 x s) ≡ xs
  pub rpush_apart :
      (k k' v : Text) (s : r.Server) → k ≢ k' → items r k (r.rpush k' v s) ≡ items r k s
  pub lpush_apart :
      (k k' v : Text) (s : r.Server) → k ≢ k' → items r k (r.lpush k' v s) ≡ items r k s
  pub ltrim_apart :
      (k k' : Text) (a b : ℤ) (s : r.Server) → k ≢ k' → items r k (r.ltrim k' a b s) ≡ items r k s
  pub sadd_apart : (k k' v : Text) (s : r.Server) → k ≢ k' → items r k (r.sadd k' v s) ≡ items r k s
  pub set_nx_apart :
      (k k' v : Text) (n : ℤ) (s : r.Server)
      → k ≢ k'
      → items r k (r.set_nx_ex k' v n s).1 ≡ items r k s

-- What becomes of a request.
pub data Fate : Type 0 where
  answered : Fate
  refused : Error → Fate  -- it did not reach the server
  unanswered : Error → Fate  -- the server did it, but the answer was lost

-- The fate of each request, by its number.
abbrev pub Network : Type 0
Network = ℕ → Fate

pub record Session (S : Type 0) : Type 0 where
  pub server : S
  pub requests : ℕ

abbrev pub Op : Type 0 → Type 0 → Type 0
Op S A = Network → Session S → Result A × Session S

module _ {S : Type 0} where
  abbrev pub pure : {A : Type 0} → A → Op S A
  pure a w t = (ok a, t)

  abbrev pub fail : {A : Type 0} → Error → Op S A
  fail e w t = (err e, t)

  abbrev pub continue :
      {A B : Type 0} → (A → Op S B) → Network → Result A × Session S → Result B × Session S
  continue f w (ok a, t) = f a w t
  continue f w (err e, t) = (err e, t)
  continue f w (panic, t) = (panic, t)

  infixl 5 ◌>>=◌ ◌>>◌
  abbrev pub ◌>>=◌ : {A B : Type 0} → Op S A → (A → Op S B) → Op S B
  ◌>>=◌ m f w t = continue f w (m w t)

  abbrev pub ◌>>◌ : {A B : Type 0} → Op S A → Op S B → Op S B
  m >> k = m >>= λ _. k

  abbrev pub add_prefix : {A : Type 0} → Text → Result A × Session S → Result A × Session S
  add_prefix p (ok a, t) = (ok a, t)
  add_prefix p (err e, t) = (err (wrapped p e), t)
  add_prefix p (panic, t) = (panic, t)

  abbrev pub within : {A : Type 0} → Text → Op S A → Op S A
  within p m w t = add_prefix p (m w t)

  abbrev dropped : {A : Type 0} → Result A × Session S → Result (Unit {0}) × Session S
  dropped (ok a, t) = (ok tt, t)
  dropped (err e, t) = (ok tt, t)
  dropped (panic, t) = (panic, t)

  -- `_ = …Err()`
  abbrev pub ignored : {A : Type 0} → Op S A → Op S (Unit {0})
  ignored m w t = dropped (m w t)

  abbrev pub deliver : {A : Type 0} → Fate → Result A × S → Session S → Result A × Session S
  deliver answered (a, s) t = (a, record { server = s; requests = suc t.requests })
  deliver (refused e) (a, s) t = (err e, record t { requests = suc t.requests })
  deliver (unanswered e) (a, s) t = (err e, record { server = s; requests = suc t.requests })

  -- One request, or one script or transaction, which the server does without a break.
  abbrev pub script : {A : Type 0} → (S → Result A × S) → Op S A
  script f w t = deliver (w t.requests) (f t.server) t

  abbrev pub request : {A : Type 0} → (S → A × S) → Op S A
  request f = script (λ s. (ok (f s).0, (f s).1))

  abbrev pub command : (S → S) → Op S (Unit {0})
  command f = request (λ s. (tt, f s))

  abbrev pub query : {A : Type 0} → (S → A) → Op S A
  query f = request (λ s. (f s, s))
