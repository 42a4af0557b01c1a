-- ===== src/Cards/Tests.antt =====
-- A card of one request with a status map, as an example.
use personal_world.Prelude.{
  ℕ, Text, Bool, true, false, none, some, [], ◌∷◌, ◌≡◌, refl, All, codes, dict_get, dict_put,
  starts_with, same_text, string_eq, ◌==◌, nat_eq, if◌then◌else◌,
}
use personal_world.Value.{Value, null, bool, obj, field, end}
use personal_world.Tx.{ok}
use personal_world.Config.Models.{no_auth, http, Provider, get, auto, Request, resolved_effect}
use personal_world.Config.Files.Objects.{Card, CardField, healthy, StatusMap, first, text}
use personal_world.Config.Files.References.{request_ids}
use personal_world.Mapping.Path.{parse_path, read_steps, read_step, read_name, span_name}
use personal_world.Mapping.Resolve.{resolve, resolve_steps, advance, pick, get_name}
use personal_world.Runner.Fetch.{loaded_as, Fetch, response, Runner, Kept, Clock}
use personal_world.Runner.Classify.{
  parse_body, check_assertions, fetch_of, classify, read_answer, send_once,
}
use personal_world.Runner.Fetching.{
  owner, fresh_cache, remember, send_and_remember, fetch_allowed, fetch,
}
use personal_world.Dispatch.Rows.{RawResponse}
use personal_world.Cards.Keys.{unique_slug, field_keys}
use personal_world.Cards.States.{source_state}
use personal_world.Cards.Honest.{IsHealthy}
use personal_world.Cards.Build.{build_for}
use personal_world.Cards.Fetched.{Service, Reads, Envelope, Fetches, document, fetch_all}
use personal_world.Cards.Current.{FetchedOk, healthy_is_current}

abbrev house : Provider
house = record {
  id = "house";
  kind = http;
  base_url = "http://house";
  path_prefix = "";
  auth = record {
    type = no_auth;
    header_name = none;
    secret_ref = none;
    login_path = none;
    username_field = "";
    password_field = "";
    token_path = none;
    token_field = "";
  };
  network = record { lan = true };
  governance = none;
  principal_id = none;
  tls_verify = true;
  max_bytes = 2097152;
}

abbrev heat : Request
heat = record {
  id = "house.heat";
  provider = "house";
  method = get;
  path = "/heat";
  query = [];
  headers = [];
  body = none;
  effect = auto;
  known_safe = false;
  ttl_s = 60;
  timeout_s = none;
  assertions = [];
}

abbrev doc : Value
doc = obj (field "ok" (bool true) end)

abbrev reply : RawResponse
reply = record { status_code = 200; headers = []; body = []; duration_ms = 5 }

abbrev runner : Runner
runner = record {
  store = record {
    action = λ name. none;
    request = λ name. some heat;
    provider = λ name. some house;
    actions = [];
    digest = λ p. "";
  };
  send = λ before p q. response reply;
  secrets = [];
  text = record { blot = λ secret t. t; blot_patterns = λ t. t; squeeze = λ t. t };
  python = record {
    decode = λ body. some body;
    loads = λ t. loaded_as doc;
    equal = λ v w. true;
    repr = λ s. codes s;
    number = λ n. [];
    path_error = λ s. [];
  };
  digits = record { is_digits = λ t. false; to_int = λ t. none };
}

abbrev at_noon : Clock
at_noon = record { on_cache = 1000; on_send = 1000; on_failure = 1000 }

abbrev empty : Kept
empty = record { cache = []; last_good = []; sends = [] }

abbrev answer : Fetch
answer = record {
  request_id = "house.heat";
  method = some get;
  path = some "/heat";
  ok = true;
  content = doc;
  error_class = none;
  status_code = some 200;
  duration_ms = some 5;
  fetched_at = some 1000;
  from_cache = false;
  note = [];
}

abbrev is_true : Value → Value → Bool
is_true (bool true) (bool true) = true
is_true v w = false

abbrev the_numbers : ℕ → Text
the_numbers n = if n == 2 then b'2' ∷ [] else b'3' ∷ []

abbrev service : Service
service = record {
  runner = runner;
  show = record { equal = is_true; format_value = λ v f unit now. codes "yes"; whole = λ n. null };
  slugs = record { tidy = λ t. t; number = the_numbers };
  part = λ id. id;
}

abbrev reads : Reads
reads = record { clock = λ i. at_noon; flight = λ i. owner; now = 1000 }

abbrev ok_map : StatusMap
ok_map = record {
  path = "$.ok";
  healthy = bool true ∷ [];
  needs_attention = bool false ∷ [];
  mode = first;
  empty_is_healthy = false;
  above = none;
}

abbrev heating : Card
heating = record {
  id = "heating";
  title = "Heating";
  request = some "house.heat";
  requests = [];
  fields = record { path = "$.ok"; label = "ok"; format = text; unit = none } ∷ [];
  status = some ok_map;
}

abbrev shown : Envelope
shown = record {
  card_id = "heating";
  source_state = healthy;
  is_current = true;
  fetched_at = some 1000;
  last_good_at = some 1000;
  values = (codes "ok", record { text = codes "yes"; raw = some (bool true) }) ∷ [];
  evidence = answer;
}

built : (build_for service reads heating empty).0 ≡ ok (some shown)
unfolding build_for fetch fetch_allowed fresh_cache dict_get send_and_remember send_once read_answer
    classify fetch_of parse_body check_assertions resolve resolve_steps advance pick get_name
    same_text parse_path read_steps read_step read_name span_name starts_with resolved_effect
    remember dict_put request_ids unique_slug
built = refl

-- Two fields of one card may get the same key: that of the second is what the third is called.
same_key :
    field_keys service.slugs (codes "a" ∷ codes "a" ∷ codes "a-2" ∷ []) []
    ≡ codes "a" ∷ codes "a-2" ∷ codes "a-2" ∷ []
unfolding field_keys same_text
same_key = refl

healthy_is_current_example :
    (shown.is_current ≡ true)
    × ((fetches : Fetches) × ((fetch_all service reads (request_ids heating) 0 [] empty).0
          ≡ ok fetches)
        × All (FetchedOk fetches) (request_ids heating)
        × IsHealthy service.show runner.digits (some ok_map) (document service heating fetches))
healthy_is_current_example = healthy_is_current service reads heating empty shown built refl

abbrev ok_field : CardField
ok_field = record { path = "$.ok"; label = "ok"; format = text; unit = none }
