-- ===== src/SshClient/Examples.antt =====
-- A client made from a concrete configuration, and the theorem applied to it.
use atlas.Base.{
  [], ◌∷◌, bytes, pos, none, some, ◌≡◌, ◌⊎◌, inr, refl, false, trim_space, drop_spaces, atoi,
}
use atlas.Errors.{ok}
use atlas.SshClient.{
  Config, Client, Machine, new_client, ssh_args, destination, make_client, check_key,
  find_and_finish, finish_client, client_of, ssh_options, check_known_hosts,
  check_known_hosts_given, split_host_port, find_ssh, validate_host_port, valid_user, valid_host,
  valid_port, is_word, all_of, has_colon, run, run_end,
}
use atlas.SshClient.Arguments.{Invocation, read_args, read_from, settings_of, new_client-read}

abbrev machine : Machine
machine = record {
  stat = λ path. ok 384;
  look_path = λ name. none;
  parse_ip = λ host. false;
  split_host_port = λ address. ok (address, []);
  exec = λ path args input. ([], (none, none));
}

abbrev config : Config
unfolding bytes
config = record {
  address = bytes "kindle";
  username = bytes "root";
  private_key = bytes "key";
  known_hosts_file = bytes "hosts";
  insecure_ignore_host_key = false;
  command_timeout = pos 0;
}

abbrev client : Client
unfolding bytes
client = record {
  user = bytes "root";
  host = bytes "kindle";
  port = bytes "22";
  private_key = bytes "key";
  ssh_path = bytes "/usr/bin/ssh";
  known_hosts_file = bytes "hosts";
  insecure_ignore_host_key = false;
  command_timeout = pos 120000000000;
}

client_made : new_client machine config ≡ ok client
unfolding new_client make_client check_key find_and_finish finish_client client_of check_known_hosts
    check_known_hosts_given split_host_port find_ssh validate_host_port valid_user valid_host
    valid_port is_word all_of has_colon run run_end bytes trim_space drop_spaces atoi config client
client_made = refl

-- A command that looks like an option is read as one.
option_read :
    (read_args (ssh_args client (bytes "-oProxyCommand=x")) ≡ none)
    ⊎ ((i : Invocation) × (read_args (ssh_args client (bytes "-oProxyCommand=x")) ≡ some i)
        × (i.command ≡ []))
unfolding read_args read_from ssh_args ssh_options destination bytes
option_read = inr (_, refl, refl)

new_client-read_example :
    read_args (ssh_args client (bytes "fbink -q -c"))
    ≡ some (record {
      settings = settings_of client;
      target = destination client;
      command = bytes "fbink -q -c" ∷ [];
    })
unfolding bytes
new_client-read_example =
    new_client-read machine config client (bytes "fbink -q -c") client_made refl
