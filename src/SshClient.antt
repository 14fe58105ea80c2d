-- ===== src/SshClient.antt =====
-- internal/sshclient: the connection to the Kindle by the system's ssh. `new_client` checks a
-- configuration, and `run` and `upload` start one ssh each.

mod Arguments
mod Examples
use atlas.Base.{
  ℕ, Bool, true, false, ◌&&◌, ◌||◌, not, leb, ltb, ◌==◌, leb_ℤ, ltb_ℤ, List, [], ◌∷◌, ◌++◌, Text,
  bytes, ℤ, pos, trim_space, is_empty, atoi, Option, none, some, quoted, is_none, if◌then◌else◌,
  ◌%◌,
}
use atlas.Errors.{
  Error, Result, ok, err, panic, message, wrapped, noted, fail_if, with_prefix, ◌>>=◌, ◌>>◌,
}
use atlas.Kindle.Shell.{shell_quote}

pub record Config : Type 0 where
  pub address : Text
  pub username : Text
  pub private_key : Text
  pub known_hosts_file : Text
  pub insecure_ignore_host_key : Bool
  pub command_timeout : ℤ  -- time.Duration

-- `SSHClient`
pub record Client : Type 0 where
  pub user : Text
  pub host : Text
  pub port : Text
  pub private_key : Text
  pub ssh_path : Text
  pub known_hosts_file : Text
  pub insecure_ignore_host_key : Bool
  pub command_timeout : ℤ

-- The machine: os.Stat with the permissions of a file, exec.LookPath, the two functions of package
-- net, and what an ssh that is started with the given arguments and input prints, how it fails,
-- and whether its context is over then.
pub record Machine : Type 0 where
  pub stat : Text → Result ℕ
  pub look_path : Text → Option Text
  pub parse_ip : Text → Bool  -- net.ParseIP(host) != nil
  pub split_host_port : Text → Result (Text × Text)
  pub exec : (path : Text) → List Text → (input : Text) → Text × (Option Error × Option Error)

-- Letters, digits and the underscore.
unfoldable pub is_word : ℕ → Bool
is_word c =
    leb b'A' c && leb c b'Z' || leb b'a' c && leb c b'z' || (leb b'0' c && leb c b'9') || c == b'_'

unfoldable pub all_of : (ℕ → Bool) → Text → Bool
all_of f [] = true
all_of f (c ∷ s) = f c && all_of f s

-- ^[A-Za-z0-9_][A-Za-z0-9_.-]*$
unfoldable pub valid_user : Text → Bool
unfolding is_word all_of
valid_user [] = false
valid_user (c ∷ s) = is_word c && all_of (λ x. is_word x || x == b'.' || x == b'-') s

-- ^[A-Za-z0-9][A-Za-z0-9.-]*$
unfoldable pub valid_host : Text → Bool
unfolding is_word all_of
valid_host [] = false
valid_host (c ∷ s) =
    is_word c
    && not (c == b'_')
    && all_of (λ x. is_word x && not (x == b'_') || x == b'.' || x == b'-') s

unfoldable pub valid_port : Option ℤ → Bool
valid_port none = false
valid_port (some n) = not (ltb_ℤ n (pos 1)) && not (ltb_ℤ (pos 65535) n)

unfoldable pub validate_host_port : Machine → (host port : Text) → Result (Unit {0})
unfolding bytes valid_host valid_port atoi
validate_host_port k host port = do
  fail_if (not (k.parse_ip host) && not (valid_host host))
      (message (bytes "ssh host contains unsupported characters"))
  fail_if (not (valid_port (atoi port))) (message (bytes "ssh port must be between 1 and 65535"))

unfoldable pub has_colon : Text → Bool
has_colon [] = false
has_colon (c ∷ s) = c == b':' || has_colon s

abbrev pub checked_pair : Machine → Text × Text → Result (Text × Text)
checked_pair k a = validate_host_port k a.0 a.1 >> ok a

abbrev pub split_error : Text → Result (Text × Text) → Result (Text × Text)
split_error address (ok a) = ok a
split_error address (err e) = err (wrapped (bytes "ssh address " ++ quoted address) e)
split_error address panic = panic

abbrev default_port : Text × Text → Text × Text
default_port (h, p) = (h, if is_empty p then bytes "22" else p)

-- `splitHostPort`
unfoldable pub split_host_port : Machine → Text → Result (Text × Text)
unfolding bytes quoted has_colon validate_host_port
split_host_port k address =
    if has_colon address
    then (split_error address (k.split_host_port address) >>= λ a. checked_pair k (default_port a))
    else checked_pair k (address, bytes "22")

unfoldable pub default_ssh : Text
unfolding bytes
default_ssh = bytes "/usr/bin/ssh"

abbrev by_path : Error → Option Text → Result Text
by_path e (some path) = ok path
by_path e none = err (wrapped (bytes "ssh client not found") e)

abbrev looked_up : Machine → Result ℕ → Result Text
looked_up k (ok mode) = ok default_ssh
looked_up k (err e) = by_path e (k.look_path (bytes "ssh"))
looked_up k panic = panic

unfoldable pub find_ssh : Machine → Result Text
unfolding bytes default_ssh
find_ssh k = looked_up k (k.stat default_ssh)

-- The fields of the client
unfoldable pub client_of : Config → (host port path : Text) → Client
client_of g host port path = record {
  user = g.username;
  host = host;
  port = port;
  private_key = g.private_key;
  ssh_path = path;
  known_hosts_file = g.known_hosts_file;
  insecure_ignore_host_key = g.insecure_ignore_host_key;
  command_timeout = if leb_ℤ g.command_timeout (pos 0) then pos 120000000000 else g.command_timeout;
}

-- The file of the known hosts is to be there.
unfoldable pub check_known_hosts : Machine → Config → Result (Unit {0})
unfolding bytes
check_known_hosts k g =
    if g.insecure_ignore_host_key
    then ok tt
    else (with_prefix (bytes "read known hosts") (k.stat g.known_hosts_file) >>= λ _. ok tt)

unfoldable pub check_known_hosts_given : Config → Result (Unit {0})
unfolding bytes trim_space
check_known_hosts_given g =
    fail_if (not g.insecure_ignore_host_key && is_empty (trim_space g.known_hosts_file))
      (message (bytes "known hosts file is required unless insecure host-key checking is enabled"))

unfoldable pub finish_client : Machine → Config → Text × Text → Text → Result Client
unfolding check_known_hosts_given check_known_hosts client_of
finish_client k g target path = do
  check_known_hosts_given g
  check_known_hosts k g
  ok (client_of g target.0 target.1 path)

unfoldable pub find_and_finish : Machine → Config → Text × Text → Result Client
unfolding find_ssh finish_client
find_and_finish k g target = find_ssh k >>= finish_client k g target

-- From the permissions of the private key on; `0o077` are the lowest six bits.
unfoldable pub check_key : Machine → Config → ℕ → Result Client
unfolding bytes split_host_port find_and_finish
check_key k g mode = do
  fail_if (not (mode % 64 == 0))
      (message (bytes "private key permissions are too open; remove group/other access"))
  split_host_port k g.address >>= find_and_finish k g

-- What NewSSHClient makes of a configuration before it tries the connection.
unfoldable pub make_client : Machine → Config → Result Client
unfolding bytes trim_space valid_user check_key
make_client k g = do
  fail_if (is_empty (trim_space g.address)) (message (bytes "ssh address is required"))
  fail_if (is_empty (trim_space g.username)) (message (bytes "ssh username is required"))
  fail_if (not (valid_user g.username))
      (message (bytes "ssh username contains unsupported characters"))
  fail_if (is_empty (trim_space g.private_key)) (message (bytes "ssh private key path is required"))
  with_prefix (bytes "read private key") (k.stat g.private_key) >>= check_key k g

-- The options before the destination.
unfoldable pub ssh_options : Client → List Text
unfolding bytes
ssh_options c =
    bytes "-i"
    ∷ c.private_key
    ∷ bytes "-p"
    ∷ c.port
    ∷ bytes "-o"
    ∷ bytes "BatchMode=yes"
    ∷ bytes "-o"
    ∷ bytes "LogLevel=ERROR"
    ∷ bytes "-o"
    ∷ bytes "ConnectTimeout=10"
    ∷ bytes "-o"
    ∷ bytes "ServerAliveInterval=15"
    ∷ bytes "-o"
    ∷ bytes "ServerAliveCountMax=3"
    ∷ (if c.insecure_ignore_host_key
        then bytes "-o"
          ∷ bytes "StrictHostKeyChecking=no"
          ∷ bytes "-o"
          ∷ bytes "UserKnownHostsFile=/dev/null"
          ∷ bytes "-o"
          ∷ bytes "GlobalKnownHostsFile=/dev/null"
          ∷ []
        else bytes "-o"
          ∷ bytes "StrictHostKeyChecking=yes"
          ∷ bytes "-o"
          ∷ (bytes "UserKnownHostsFile=" ++ c.known_hosts_file)
          ∷ [])

unfoldable pub destination : Client → Text
destination c = c.user ++ b'@' ∷ c.host

unfoldable pub ssh_args : Client → Text → List Text
unfolding ssh_options destination
ssh_args c remote_command = ssh_options c ++ destination c ∷ remote_command ∷ []

-- How `RunContext` reports the end of an ssh.
unfoldable pub run_end : Text × (Option Error × Option Error) → Text × Option Error
unfolding bytes trim_space
run_end (output, (none, over)) = (output, none)
run_end (output, (some e, some over)) = (output, some (wrapped (bytes "run command") over))
run_end (output, (some e, none)) = (
  output,
  some (
      if is_empty (trim_space output)
      then wrapped (bytes "run command") e
      else wrapped (bytes "run command") (noted e (trim_space output))),
)

unfoldable pub run : Machine → Client → Text → Text × Option Error
unfolding ssh_args run_end
run k c command = run_end (k.exec c.ssh_path (ssh_args c command) [])

unfoldable pub upload_end : Text → Text × (Option Error × Option Error) → Option Error
unfolding bytes trim_space
upload_end path (output, (none, over)) = none
upload_end path (output, (some e, some over)) = some (wrapped (bytes "upload " ++ path) over)
upload_end path (output, (some e, none)) =
    some (wrapped (bytes "upload " ++ path) (noted e (trim_space output)))

unfoldable pub upload : Machine → Client → (path contents : Text) → Option Error
unfolding bytes ssh_args shell_quote upload_end
upload k c path contents =
    upload_end path (k.exec c.ssh_path (ssh_args c (bytes "cat > " ++ shell_quote path)) contents)

abbrev pub tried : Client → Option Error → Result Client
tried c none = ok c
tried c (some e) = err (wrapped (bytes "connect to Kindle") e)

-- `NewSSHClient`
unfoldable pub new_client : Machine → Config → Result Client
unfolding bytes make_client run
new_client k g = make_client k g >>= λ c. tried c (run k c (bytes "true")).1
