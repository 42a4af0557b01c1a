-- ===== src/Runner/Tests.antt =====
-- A fetch, and the same fetch again.
use personal_world.Prelude.{
  all, ℕ, ◌+◌, ◌≤◌, ◌<◌, String, true, false, Option, none, some, [], ◌∷◌, ◌≡◌, ◌⊎◌, refl, arith,
  subst, codes, dict_get, dict_put, starts_with, same_text, string_eq,
}
use personal_world.Value.{Value, null, bool, obj, field, end}
use personal_world.Tx.{ok, err}
use personal_world.Config.Models.{
  no_auth, http, Provider, get, auto, Request, Assertion, resolved_effect,
}
use personal_world.Config.Checks.{valid_assertion, check_path_field}
use personal_world.Mapping.Path.{parse_path, read_steps, read_step, read_name, span_name}
use personal_world.Mapping.Resolve.{resolve, resolve_steps, advance, pick, get_name}
use personal_world.Runner.Fetch.{recursion_error, loaded_as, Fetch, response, Runner, Kept, Clock}
use personal_world.Runner.Classify.{
  parse_body, check_found, check_assertion, check_assertions, fetch_of, classify, read_answer,
  send_once,
}
use personal_world.Runner.Fetching.{
  owner, fresh_cache, remember, send_and_remember, fetch_allowed, fetch,
}
use personal_world.Runner.Laws.Endings.{MaySend}
use personal_world.Runner.Laws.Sends.{fetch_sends}
use personal_world.Runner.Laws.Success.{IsAccepted, fetch_ok}
use personal_world.Runner.Laws.Caching.{start, after, cached_is_young}
use personal_world.Runner.Laws.Returns.{AnsweredTooDeep, fetch_returns}
use personal_world.Runner.Flights.{
  Flights, start_join, wait_round, leave, shares, waits, arrive, begin, step,
}
use personal_world.Runner.Laws.Sharing.{senders, times, senders_bounded, wait_after_leave}
use personal_world.Dispatch.Rows.{RawResponse}

abbrev house : Provider
house = record {
  id = "house";
  kind = http;
  base_url = "http://house";
  path_prefix = "";
  auth = record {
    type = no_auth;
    header_name = none;
    secret_ref = none;
    login_path = none;
    username_field = "";
    password_field = "";
    token_path = none;
    token_field = "";
  };
  network = record { lan = true };
  governance = none;
  principal_id = none;
  tls_verify = true;
  max_bytes = 2097152;
}

abbrev has_ok : Assertion
has_ok = record {
  status = some 200;
  path = some "$.ok";
  exists = some true;
  is_list = none;
  equals = null;
}

abbrev heat : Request
heat = record {
  id = "house.heat";
  provider = "house";
  method = get;
  path = "/heat";
  query = [];
  headers = [];
  body = none;
  effect = auto;
  known_safe = false;
  ttl_s = 60;
  timeout_s = none;
  assertions = has_ok ∷ [];
}

abbrev doc : Value
doc = obj (field "ok" (bool true) end)

abbrev reply : RawResponse
reply = record { status_code = 200; headers = []; body = []; duration_ms = 5 }

abbrev runner : Runner
runner = record {
  store = record {
    action = λ name. none;
    request = λ name. some heat;
    provider = λ name. some house;
    actions = [];
    digest = λ p. "";
  };
  send = λ before p q. response reply;
  secrets = [];
  text = record { blot = λ secret t. t; blot_patterns = λ t. t; squeeze = λ t. t };
  python = record {
    decode = λ body. some body;
    loads = λ t. loaded_as doc;
    equal = λ v w. true;
    repr = λ s. codes s;
    number = λ n. [];
    path_error = λ s. [];
  };
  digits = record { is_digits = λ t. false; to_int = λ t. none };
}

abbrev at_noon : Clock
at_noon = record { on_cache = 1000; on_send = 1000; on_failure = 1000 }

abbrev later : Clock
later = record { on_cache = 1059; on_send = 1059; on_failure = 1059 }

abbrev empty : Kept
empty = record { cache = []; last_good = []; sends = [] }

abbrev answer : Fetch
answer = record {
  request_id = "house.heat";
  method = some get;
  path = some "/heat";
  ok = true;
  content = doc;
  error_class = none;
  status_code = some 200;
  duration_ms = some 5;
  fetched_at = some 1000;
  from_cache = false;
  note = [];
}

answers : (fetch runner at_noon owner false "house.heat" empty).0 ≡ ok answer
unfolding fetch fetch_allowed fresh_cache dict_get send_and_remember send_once read_answer classify
    fetch_of parse_body check_assertions check_assertion check_found resolve resolve_steps advance
    pick get_name same_text parse_path read_steps read_step read_name span_name starts_with
    resolved_effect remember dict_put
answers = refl

again :
    (fetch runner later owner false "house.heat"
      (fetch runner at_noon owner false "house.heat" empty).1).0
    ≡ ok (record answer { from_cache = true })
unfolding fetch fetch_allowed fresh_cache dict_get send_and_remember send_once read_answer classify
    fetch_of parse_body check_assertions check_assertion check_found resolve resolve_steps advance
    pick get_name same_text parse_path read_steps read_step read_name span_name starts_with
    resolved_effect remember dict_put
again = refl

fetch_sends_example :
    ((fetch runner at_noon owner false "house.heat" empty).1.sends ≡ [])
    ⊎ ((provider : Provider) × ((request : Request) × (MaySend runner "house.heat" provider request
            × (owner ≡ owner)
            × ((fetch runner at_noon owner false "house.heat" empty).1.sends
                ≡ (provider, request) ∷ []))))
fetch_sends_example = fetch_sends runner at_noon owner false "house.heat" empty

fetch_ok_example :
    (provider : Provider) × ((request : Request) × ((resp : RawResponse) × (MaySend runner
            "house.heat" provider request
          × (runner.send [] provider request ≡ response resp)
          × IsAccepted runner "house.heat" request resp 1000 answer
          × (dict_get "house.heat" (fetch runner at_noon owner false "house.heat" empty).1.last_good
              ≡ some (doc, some 1000)))))
fetch_ok_example = fetch_ok runner at_noon owner false "house.heat" empty answer answers refl refl

cached_is_young_example :
    (true ≡ true)
    × (◌≡◌ {A = String} "house.heat" "house.heat")
    × ((fetch runner later owner false "house.heat"
          (fetch runner at_noon owner false "house.heat" empty).1).1
        ≡ (fetch runner at_noon owner false "house.heat" empty).1)
    × ((request : Request) × ((at : ℕ) × ((◌≡◌ {A = Option Request} (some heat) (some request))
            × (some 1000 ≡ some at)
            × (1059 < at + request.ttl_s))))
cached_is_young_example =
    cached_is_young runner later false "house.heat" (record answer { from_cache = true })
      (after runner at_noon owner false "house.heat" start) again refl

heat_is_valid : all (valid_assertion runner.digits) heat.assertions ≡ true
unfolding all valid_assertion check_path_field parse_path read_steps read_step read_name span_name
    starts_with
heat_is_valid = refl

fetch_returns_example :
    ((f : Fetch) × ((fetch runner at_noon owner false "house.heat" empty).0 ≡ ok f))
    ⊎ (((fetch runner at_noon owner false "house.heat" empty).0 ≡ err recursion_error)
        × AnsweredTooDeep runner owner "house.heat" empty)
fetch_returns_example = fetch_returns runner at_noon owner false "house.heat" empty said
  where
    said :
        (request : Request)
        → runner.store.request "house.heat" ≡ some request
        → all (valid_assertion runner.digits) request.assertions ≡ true
    said request e =
        subst (λ (q : Request). all (valid_assertion runner.digits) q.assertions ≡ true) is_heat
          heat_is_valid
      where
        is_heat : heat ≡ request
        is_heat = ground (arith, e)

abbrev one_flight : Flights
one_flight = record { inflight = ("house.heat", 0) ∷ []; created = 1; results = [] }

senders_bounded_example : senders "house.heat" (("house.heat", 0) ∷ []) ≤ 1 + times "house.heat" []
unfolding start_join dict_get dict_put
senders_bounded_example =
    senders_bounded "house.heat" (step (step begin (arrive "house.heat")) (arrive "house.heat"))

wait_after_leave_example :
    (wait_round "house.heat" 0 (leave "house.heat" 0 (some answer) one_flight)
      ≡ (shares answer, leave "house.heat" 0 (some answer) one_flight))
    × (wait_round "house.heat" 0 (leave "house.heat" 0 none one_flight)
        ≡ (waits 0, leave "house.heat" 0 none one_flight))
wait_after_leave_example = wait_after_leave "house.heat" 0 answer one_flight
