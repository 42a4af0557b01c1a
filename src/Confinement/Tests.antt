-- ===== src/Confinement/Tests.antt =====
-- A provider with a password grant, and a network that answers, as examples for the confined request.
use personal_world.Prelude.{
  ℕ, ◌+◌, ◌*◌, ◌^◌, ◌/◌, ◌==◌, nat_eq, ◌≤◌, Text, Bool, true, false, Option, none, some, [], ◌∷◌,
  ◌≡◌, ◌↔◌, refl, All, length, codes, same_text, if◌then◌else◌,
}
use personal_world.Value.{str, obj, end, field}
use personal_world.Config.Models.{
  Provider, http, password_grant, Request, auto, post, get, Effect, reads, writes,
}
use personal_world.Dispatch.Rows.{auth_failed, ConfinementError, RawResponse}
use personal_world.Dispatch.Outcome.{classify_outcome}
use personal_world.Confinement.Addresses.{
  Ip, v4, v6, IpOps, metadata, internal, classify_address, before_percent,
}
use personal_world.Confinement.Allowed.{IsAllowed, faces, IsAllowed-iff}
use personal_world.Confinement.Base.{Split, found, Env}
use personal_world.Confinement.Exchanges.{
  Purpose, login, request, complete, Stream, answered, Net, Wire,
}
use personal_world.Confinement.Sending.{confined_request}
use personal_world.Confinement.Written.{logins, requests}
use personal_world.Confinement.Calls.{rounds, writes_bounded}
use personal_world.Confinement.Bodies.{body_within_limit}
use personal_world.Confinement.Unsent.{write_failed_unsent}

abbrev numbers : Text → Option Ip
numbers t =
    if same_text t (codes "93.184.216.34")
    then some (v4 0x5DB8D822)
    else if same_text t (codes "::ffff:169.254.169.254")
    then some (v6 0xFFFFA9FEA9FE)
    else if same_text t (codes "2002:0a00:0001::")
    then some (v6 (0x20020A000001 * 2 ^ 80))
    else none

-- As much of the module ipaddress as the addresses above ask for
abbrev is_link : Ip → Bool
is_link (v4 n) = n / 2 ^ 16 == 0xA9FE
is_link (v6 n) = false

abbrev is_ten : Ip → Bool
is_ten (v4 n) = n / 2 ^ 24 == 10
is_ten (v6 n) = false

abbrev the_ip : IpOps
the_ip = record {
  parse = numbers;
  is_unspecified = λ ip. false;
  is_multicast = λ ip. false;
  is_loopback = λ ip. false;
  is_link_local = is_link;
  is_private = is_ten;
  is_reserved = λ ip. false;
}

abbrev the_split : Split
the_split = record {
  scheme = codes "http";
  hostname = some (codes "lights");
  port = some none;
  netloc = codes "lights";
  path = [];
  has_userinfo = false;
  fragment = [];
  query = [];
}

abbrev the_number : ℕ → Text
the_number n = if n == 500 then codes "500" else codes "80"

abbrev the_env : Env
the_env = record {
  ip = the_ip;
  urlsplit = λ t. the_split;
  lower = λ t. t;
  strip = λ t. t;
  rstrip_slash = λ t. t;
  encode_query = λ q. [];
  lookup = λ host port. found (codes "93.184.216.34" ∷ []);
  principal_ok = λ p. true;
  repr = codes;
  number = the_number;
  elapsed = λ note. 0;
  secret = λ ref. some (codes "user:word");
  header_name_ok = λ name. true;
  base64 = λ t. t;
  form = λ fields. [];
  dumps = λ v. [];
  loads = λ body. some (obj (field "access_token" (str "t") end));
}

abbrev token_provider : Provider
token_provider = record {
  id = "lights";
  kind = http;
  base_url = "http://lights";
  path_prefix = "";
  network = record { lan = true };
  governance = none;
  principal_id = none;
  tls_verify = true;
  auth = record {
    type = password_grant;
    header_name = none;
    secret_ref = some "env:LIGHTS";
    login_path = none;
    username_field = "username";
    password_field = "password";
    token_path = some "/token";
    token_field = "access_token";
  };
  max_bytes = 4;
}

abbrev a_post : Request
a_post = record {
  id = "lights.on";
  provider = "lights";
  method = post;
  path = "/on";
  query = [];
  headers = [];
  body = none;
  effect = auto;
  known_safe = false;
  ttl_s = 60;
  timeout_s = none;
  assertions = [];
}

abbrev a_get : Request
a_get = record a_post { method = get }

abbrev a_stream : ℕ → Stream
a_stream status = record {
  status = status;
  headers = [];
  encoding = [];
  declared = none;
  late = false;
  chunks = ((1 ∷ 2 ∷ []), false) ∷ ((3 ∷ []), false) ∷ [];
  ended = complete false;
}

abbrev by_purpose : ℕ → ℕ → Purpose → ℕ
by_purpose for_login for_request login = for_login
by_purpose for_login for_request request = for_request

-- A network that answers a login and the request with a status each
abbrev net_of : ℕ → ℕ → Net
net_of for_login for_request = record {
  http = λ before x. answered (a_stream (by_purpose for_login for_request x.purpose));
  late = λ site before. false;
}

abbrev start : Wire
start = record { written = []; held = [] }

abbrev counts : Net → Request → Effect → ℕ × ℕ
counts net r effect =
    let w = (confined_request the_env net token_provider r effect start).1.written in
    (logins w, requests w)

-- A refused write is not sent again, a refused read is, once.
write_refused : counts (net_of 200 401) a_post writes ≡ (1, 1)
unfolding confined_request logins requests same_text
write_refused = refl

read_refused : counts (net_of 200 401) a_get reads ≡ (2, 2)
unfolding confined_request logins requests same_text
read_refused = refl

read_answered : counts (net_of 200 200) a_get reads ≡ (1, 1)
unfolding confined_request logins requests same_text
read_answered = refl

-- A metadata address that is hidden in an IPv6 one, also for a provider of this network
hidden_metadata : classify_address the_ip true (codes "::ffff:169.254.169.254") ≡ some metadata
unfolding classify_address same_text
hidden_metadata = refl

hidden_internal : classify_address the_ip false (codes "2002:0a00:0001::") ≡ some internal
unfolding classify_address same_text
hidden_internal = refl

IsAllowed-iff_example : (classify_address the_ip false (codes "93.184.216.34") ≡ none) ↔ (
    (ip : Ip) × (the_ip.parse (before_percent (codes "93.184.216.34")) ≡ some ip)
    × All (IsAllowed the_ip false) (faces ip))
IsAllowed-iff_example = IsAllowed-iff the_ip false (codes "93.184.216.34")

writes_bounded_example :
    (requests
        (confined_request the_env (net_of 200 401) token_provider a_post writes start).1.written
      ≤ rounds writes + requests [])
    × (logins
          (confined_request the_env (net_of 200 401) token_provider a_post writes start).1.written
        ≤ rounds writes + logins [])
writes_bounded_example = writes_bounded the_env (net_of 200 401) token_provider a_post writes start

abbrev an_answer : RawResponse
an_answer = record { status_code = 200; headers = []; body = 1 ∷ 2 ∷ 3 ∷ []; duration_ms = 0 }

body_within_limit_example : length an_answer.body ≤ token_provider.max_bytes
unfolding confined_request same_text
body_within_limit_example =
    body_within_limit the_env (net_of 200 200) token_provider a_get reads start an_answer refl

abbrev login_failed : ConfinementError
login_failed = record {
  error_class = auth_failed;
  note = codes "token at /token answered 500";
  status_code = some 500;
  duration_ms = some 0;
  pre_send = false;
}

write_failed_unsent_example :
    requests
      (confined_request the_env (net_of 500 200) token_provider a_post writes start).1.written
    ≡ requests []
unfolding confined_request classify_outcome same_text
write_failed_unsent_example =
    write_failed_unsent the_env (net_of 500 200) token_provider a_post start login_failed refl refl
