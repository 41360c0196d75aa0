-- ===== src/Tests/Messages.antt =====
-- The theorems on HTTP messages, at concrete inputs.
use nxos_dhcp6_exporter.Prelude.{
  String, ◌≡◌, refl, Bool, true, false, Option, none, some, [], str_eq, if◌then◌else◌,
}
use nxos_dhcp6_exporter.Outcome.{Outcome, ok, raised, type_error, json_parse_error, unexpected}
use nxos_dhcp6_exporter.Post.{Parts, HttpApi, HttpLaws}
use nxos_dhcp6_exporter.Post.Response
use nxos_dhcp6_exporter.Post.Elements.{generic_body_read}

-- A few elements: a map, the same with a remote address, the generic body of the status 500, and its
-- two members.
data Body : Type 0 where
  call addressed failure status reason : Body

abbrev body_text : Body → String
body_text call = "{\"id\":1}"
body_text addressed = "{\"id\":1,\"remote-address\":\"fe80::1\"}"
body_text failure = "{\"result\":500,\"text\":\"Internal Server Error\"}"
body_text status = "500"
body_text reason = "\"Internal Server Error\""

abbrev read_body : String → Outcome Body
read_body s =
    if str_eq s (body_text call)
    then ok call
    else if str_eq s (body_text addressed)
    then ok addressed
    else if str_eq s (body_text failure)
    then ok failure
    else if str_eq s (body_text status)
    then ok status
    else if str_eq s (body_text reason)
    then ok reason
    else raised json_parse_error

abbrev is_map : Body → Bool
is_map call = true
is_map addressed = true
is_map failure = true
is_map _ = false

abbrev members : Body → Outcome (String → Option Body)
members failure =
    ok (λ k.
      if str_eq k "result" then some status else if str_eq k "text" then some reason else none)
members call = ok (λ k. none)
members addressed = ok (λ k. none)
members _ = raised type_error

abbrev check : Bool → Outcome (Unit {0})
check true = ok tt
check false = raised (unexpected "not finalized")

abbrev messages : HttpApi
messages = record {
  Element = Body;
  str = body_text;
  from_json = read_body;
  is_map = is_map;
  set = λ body k v. addressed;
  map_value = members;
  map_of = λ l. failure;
  text_element = λ s. reason;
  int_element = λ n. status;
  StatusCode = Unit {0};
  is_client_error = λ c. false;
  is_server_error = λ c. true;
  status_number = λ c. 500;
  status_text = λ c. "Internal Server Error";
  create = λ p. (record p { created = true }, ok tt);
  base_reset = λ p. record p { created = false; finalized = false };
  check_finalized = check;
}

laws : HttpLaws messages
laws = record {
  reset_created = λ p. refl;
  reset_finalized = λ p. refl;
  finalized_passes = refl;
  unfinalized_throws = (unexpected "not finalized", refl);
}

abbrev fresh : Parts
fresh = record {
  created = false;
  finalized = false;
  body = body_text call;
  headers = [];
  required = [];
  remote = "fe80::1";
}

abbrev created : Parts
created = record fresh { created = true }

generic_body_read_example :
    let m = (Response.finalize messages (Response.new_with_status messages created tt true)).0 in
    (Response.get_json_element messages "result" m ≡ ok (some status))
    × (Response.get_json_element messages "text" m ≡ ok (some reason))
generic_body_read_example =
    generic_body_read messages laws created tt
      (λ k.
        if str_eq k "result" then some status else if str_eq k "text" then some reason else none)
      refl refl refl refl refl
