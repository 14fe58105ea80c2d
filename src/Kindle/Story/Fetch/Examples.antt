-- ===== src/Kindle/Story/Fetch/Examples.antt =====
-- A fetch from a host with a public address, and the theorem applied to it.
use atlas.Base.{
  false, [], ◌∷◌, bytes, pos, some, ◌≡◌, refl, text_eq, trim_space, drop_spaces, to_lower,
  has_prefix,
}
use atlas.Errors.{ok}
use atlas.Kindle.Story.Fetch.{
  Ip, Web, is_public_ip, check_addresses, validate_image_url, looks_like_html, check_data,
  accept_response, get_story_image_url, fetch_story_image, contains,
}
use atlas.Kindle.Story.Fetch.Accepted.{Fetched, fetch_story_image-Fetched}

abbrev public : Ip
public = record {
  loopback = false;
  private = false;
  link_local_unicast = false;
  link_local_multicast = false;
  unspecified = false;
  multicast = false;
}

abbrev web : Web
unfolding bytes
web = record {
  parse = λ url. ok record {
    scheme = bytes "https";
    host = bytes "h";
    hostname = bytes "h";
    has_user = false;
    raw_query = [];
  };
  without_query = λ url. url;
  lookup = λ host. ok (some public ∷ []);
  split_host_port = λ address. ok (address, []);
  dial = λ ip port. ok tt;
  valid_request = λ url. ok tt;
  perform = λ redirect connect url referer. ok record {
    status_code = 200;
    status = [];
    content_length = pos 3;
    content_type = bytes "image/png";
    body = ok (bytes "PNG");
  };
}

fetched : fetch_story_image web (bytes "u") false ≡ ok (bytes "PNG")
unfolding fetch_story_image get_story_image_url validate_image_url check_addresses is_public_ip
    accept_response check_data looks_like_html text_eq bytes web has_prefix to_lower trim_space
    drop_spaces contains
fetched = refl

fetch_story_image-Fetched_example : Fetched web false (bytes "u") (bytes "PNG")
fetch_story_image-Fetched_example =
    fetch_story_image-Fetched web (bytes "u") (bytes "PNG") false fetched
