-- ===== src/Kindle/Device/Link.antt =====
-- internal/kindle/commands.go: the connection of a `Device` to the Kindle. The SSH client and the
-- Kindle behind it are an environment, which answers a command as it likes.
use atlas.Base.{ℕ, List, [], ◌∷◌, ◌++◌, Text, bytes, Option, none, some, Bool, if◌then◌else◌}
use atlas.Errors.{Error, Result, ok, err, panic, message, wrapped}
use atlas.Kindle.Cache.{Cache, empty}

-- What is sent to the Kindle.
pub data Sent : Type 0 where
  command : Text → Sent
  file : (path contents : Text) → Sent

-- `context_error` is ctx.Err() after the given sends, `answer` what the client returns for a
-- command and `upload_error` for a file. A client may lack the method to upload.
pub record Environment : Type 0 where
  pub context_error : List Sent → Option Error
  pub answer : List Sent → Text → Text × Option Error
  pub can_upload : Bool
  pub upload_error : List Sent → Text → Text → Option Error

-- The fields of `Device`, with what it has sent, in order. A size of 0 is not known yet.
pub record Device : Type 0 where
  pub display_width : ℕ
  pub display_height : ℕ
  pub prepared : Cache
  pub sent : List Sent

-- `New`
unfoldable pub new : Device
new = record { display_width = 0; display_height = 0; prepared = empty; sent = [] }

abbrev pub Op : Type 0 → Type 0
Op A = Environment → Device → Result A × Device

abbrev pub pure : {A : Type 0} → A → Op A
pure a w d = (ok a, d)

abbrev pub fail : {A : Type 0} → Error → Op A
fail e w d = (err e, d)

abbrev pub continue :
    {A B : Type 0} → (A → Op B) → Environment → Result A × Device → Result B × Device
continue f w (ok a, d) = f a w d
continue f w (err e, d) = (err e, d)
continue f w (panic, d) = (panic, d)

infixl 5 ◌>>=◌ ◌>>◌
abbrev pub ◌>>=◌ : {A B : Type 0} → Op A → (A → Op B) → Op B
◌>>=◌ m f w d = continue f w (m w d)

abbrev pub ◌>>◌ : {A B : Type 0} → Op A → Op B → Op B
m >> k = m >>= λ _. k

abbrev pub add_prefix : {A : Type 0} → Text → Result A × Device → Result A × Device
add_prefix p (ok a, d) = (ok a, d)
add_prefix p (err e, d) = (err (wrapped p e), d)
add_prefix p (panic, d) = (panic, d)

-- `fmt.Errorf("p: %w", err)` around an error
abbrev pub within : {A : Type 0} → Text → Op A → Op A
within p m w d = add_prefix p (m w d)

abbrev pub answered : Text × Option Error → Device → Result Text × Device
answered (output, none) d = (ok output, d)
answered (output, some e) d = (err e, d)

abbrev pub record_sent : Sent → Device → Device
record_sent s d = record d { sent = d.sent ++ s ∷ [] }

unfoldable pub run : Text → Op Text
run line w d = elim (w.context_error d.sent) [
  | some e ↦ (err e, d)
  | none ↦ answered (w.answer d.sent line) (record_sent (command line) d)
]

unfoldable pub upload : Text → Text → Op (Unit {0})
unfolding bytes
upload path contents w d = elim (w.context_error d.sent) [
  | some e ↦ (err e, d)
  | none ↦
      if w.can_upload
      then elim (w.upload_error d.sent path contents) [
        | none ↦ (ok tt, record_sent (file path contents) d)
        | some e ↦ (err e, record_sent (file path contents) d)
      ]
      else (err (message (bytes "SSH client cannot upload files")), d)
]
