-- ===== src/SshClient/Arguments.antt =====
-- internal/sshclient/ssh.go: how ssh reads the arguments that a checked client gives it.
use atlas.Base.{
  ℕ, Bool, true, false, not, ◌&&◌, ◌||◌, ◌==◌, List, [], ◌∷◌, ◌++◌, Text, bytes, trim_space,
  is_empty, Option, none, some, ◌≡◌, refl, sym, ap, ◌∙◌, arith, if◌then◌else◌, ◌%◌,
}
use atlas.Errors.{Error, ok, message, with_prefix, ◌>>=◌, ◌>>◌}
use atlas.Errors.Chains.{bound, passed, ok_value}
use atlas.SshClient.{
  Config, Client, Machine, is_word, valid_user, make_client, ssh_options, ssh_args, destination,
  split_host_port, find_ssh, new_client, run, tried, client_of, finish_client, find_and_finish,
  check_key, check_known_hosts, check_known_hosts_given,
}

-- What ssh finds in its arguments: the settings, in their order, the destination and the command.
pub record Invocation : Type 0 where
  pub settings : List (Text × Text)
  pub target : Text
  pub command : List Text

-- A dash alone is no option.
abbrev pub is_option : Text → Bool
is_option [] = false
is_option (c ∷ []) = false
is_option (c ∷ d ∷ s) = c == b'-'

-- The options that are read here; each takes a value.
abbrev takes_value : Text → Bool
takes_value (c ∷ d ∷ s) = c == b'-' && (d == b'i' || d == b'p' || d == b'o')
takes_value _ = false

abbrev setting : Text → Text → Option Invocation → Option Invocation
setting name value none = none
setting name value (some i) = some (record i { settings = (name, value) ∷ i.settings })

-- The value stands behind the letter of the option or, where nothing does, in the next argument.
abbrev read_option :
    (a : Text) → (rest : List Text) → (next later : Option Invocation) → Option Invocation
read_option (c ∷ d ∷ []) [] next later = none
read_option (c ∷ d ∷ []) (value ∷ rest) next later = setting (c ∷ d ∷ []) value later
read_option (c ∷ d ∷ v) rest next later = setting (c ∷ d ∷ []) v next
read_option a rest next later = none

abbrev found : Option Text → List Text → Option Invocation
found none command = none
found (some host) command = some (record { settings = []; target = host; command = command })

-- The options may stand before the destination and behind it; the second argument that is no option
-- begins the command. `host` is the destination, if it has been read.
unfoldable pub read_from : (host : Option Text) → List Text → Option Invocation
read_from host [] = found host []
read_from none (a ∷ []) =
    if is_option a
    then (if takes_value a then read_option a [] (found none []) none else none)
    else found (some a) []
read_from (some h) (a ∷ []) =
    if is_option a
    then (if takes_value a then read_option a [] (found (some h) []) none else none)
    else found (some h) (a ∷ [])
read_from none (a ∷ b ∷ rest) =
    let next = read_from none (b ∷ rest) in
    let later = read_from none rest in
    let behind = read_from (some a) (b ∷ rest) in
    if is_option a
    then (if takes_value a then read_option a (b ∷ rest) next later else none)
    else behind
read_from (some h) (a ∷ b ∷ rest) =
    let next = read_from (some h) (b ∷ rest) in
    let later = read_from (some h) rest in
    if is_option a
    then (if takes_value a then read_option a (b ∷ rest) next later else none)
    else found (some h) (a ∷ b ∷ rest)

-- How ssh reads its arguments, of which `-i`, `-p` and `-o` are the options that are read; with any
-- other there is no reading.
unfoldable pub read_args : List Text → Option Invocation
unfolding read_from
read_args args = read_from none args

-- The settings of a client, in their order.
unfoldable pub settings_of : Client → List (Text × Text)
unfolding bytes
settings_of c =
    (bytes "-i", c.private_key)
    ∷ (bytes "-p", c.port)
    ∷ (bytes "-o", bytes "BatchMode=yes")
    ∷ (bytes "-o", bytes "LogLevel=ERROR")
    ∷ (bytes "-o", bytes "ConnectTimeout=10")
    ∷ (bytes "-o", bytes "ServerAliveInterval=15")
    ∷ (bytes "-o", bytes "ServerAliveCountMax=3")
    ∷ (if c.insecure_ignore_host_key
        then (bytes "-o", bytes "StrictHostKeyChecking=no")
          ∷ (bytes "-o", bytes "UserKnownHostsFile=/dev/null")
          ∷ (bytes "-o", bytes "GlobalKnownHostsFile=/dev/null")
          ∷ []
        else (bytes "-o", bytes "StrictHostKeyChecking=yes")
          ∷ (bytes "-o", bytes "UserKnownHostsFile=" ++ c.known_hosts_file)
          ∷ [])

word_no_option : (c : ℕ) → is_word c ≡ true → (c == b'-') ≡ false
unfolding is_word
word_no_option c h = ground arith

user_no_option : (c : Client) → valid_user c.user ≡ true → is_option (destination c) ≡ false
unfolding valid_user destination
user_no_option c h = by_user c.user h
  where
    by_user : (u : Text) → valid_user u ≡ true → is_option (u ++ b'@' ∷ c.host) ≡ false
    by_user [] h = ground arith
    by_user (x ∷ []) h = word_no_option x (ground (arith, h))
    by_user (x ∷ y ∷ u) h = word_no_option x (ground (arith, h))

checked_read :
    (c : Client) (command : Text) (insecure : Bool)
    → c.insecure_ignore_host_key ≡ insecure
    → is_option (destination c) ≡ false
    → is_option command ≡ false
    → read_args (ssh_args c command)
      ≡ some (record { settings = settings_of c; target = destination c; command = command ∷ [] })
unfolding read_args read_from ssh_args ssh_options settings_of bytes
checked_read c command true e h k = rw (e, h, k) refl
checked_read c command false e h k = rw (e, h, k) refl

finish_client-user :
    (k : Machine) (g : Config) (target : Text × Text) (path : Text) (c : Client)
    → finish_client k g target path ≡ ok c
    → c.user ≡ g.username
unfolding finish_client client_of
finish_client-user k g target path c h =
    let made = client_of g target.0 target.1 path in
    let (_, given, rest) =
      bound (check_known_hosts_given g) (λ _. check_known_hosts k g >> ok made) h in
    let (_, there, is) = bound (check_known_hosts k g) (λ _. ok made) rest in
    ap (λ x. x.user) (sym (ok_value is))

check_key-user :
    (k : Machine) (g : Config) (mode : ℕ) (c : Client)
    → check_key k g mode ≡ ok c
    → c.user ≡ g.username
unfolding check_key find_and_finish bytes
check_key-user k g mode c h =
    let private =
      passed (not (mode % 64 == 0))
        (message (bytes "private key permissions are too open; remove group/other access"))
        (split_host_port k g.address >>= find_and_finish k g) h in
    let (target, _, rest) = bound (split_host_port k g.address) (find_and_finish k g) private.1 in
    let (path, _, rest2) = bound (find_ssh k) (finish_client k g target) rest in
    finish_client-user k g target path c rest2

make_client-user :
    (k : Machine) (g : Config) (c : Client) → make_client k g ≡ ok c → valid_user c.user ≡ true
unfolding make_client bytes
make_client-user k g c h =
    let a = passed (is_empty (trim_space g.address)) _ _ h in
    let b = passed (is_empty (trim_space g.username)) _ _ a.1 in
    let u = passed (not (valid_user g.username)) _ _ b.1 in
    let p = passed (is_empty (trim_space g.private_key)) _ _ u.1 in
    let (mode, _, rest) =
      bound (with_prefix (bytes "read private key") (k.stat g.private_key)) (check_key k g) p.1 in
    rw (check_key-user k g mode c rest) (accepted (valid_user g.username) u.0)
  where
    accepted : (b : Bool) → not b ≡ false → b ≡ true
    accepted b h = ground arith

tried_same : (c made : Client) (o : Option Error) → tried made o ≡ ok c → made ≡ c
tried_same c made none h = ok_value h
tried_same c made (some e) h = ground (arith, h)

-- The client that NewSSHClient returns gives ssh, for a command that does not look like an option,
-- only arguments that ssh reads as meant, although it looks for options behind the destination too:
-- the settings of the client, the user at the host as the destination, and the command, in one
-- argument and as the last.
pub new_client-read :
    (k : Machine) (g : Config) (c : Client) (command : Text)
    → new_client k g ≡ ok c
    → is_option command ≡ false
    → read_args (ssh_args c command)
      ≡ some (record { settings = settings_of c; target = destination c; command = command ∷ [] })
unfolding new_client bytes
new_client-read k g c command h plain =
    let (made, is_made, rest) =
      bound (make_client k g) (λ x. tried x (run k x (bytes "true")).1) h in
    let same = tried_same c made (run k made (bytes "true")).1 rest in
    checked_read c command c.insecure_ignore_host_key refl
      (user_no_option c (make_client-user k g c (is_made ∙ ap ok same))) plain
