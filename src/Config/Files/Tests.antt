-- ===== src/Config/Files/Tests.antt =====
-- A small configuration that is changed.
use personal_world.Prelude.{
  List, Option, String, true, false, Option, none, some, [], ◌∷◌, ◌≡◌, ◌≢◌, ◌↔◌, refl, arith,
  dict_get, dict_put, dict_del, all, elem, string_eq,
}
use personal_world.Config.Models.{
  no_auth, http, Provider, post, auto, Request, Action, write_access, always, optional,
  resolved_effect, action_version,
}
use personal_world.Config.Store.{version_of}
use personal_world.Config.Files.Objects.{
  requests, actions, Card, Object, Objects, get_object, put_object, del_object, FileStore, StoreOps,
}
use personal_world.Config.Files.References.{policy_ok, check_references, not_referenced}
use personal_world.Config.Files.Changes.{
  key_eq, Saved, save, delete, commit, check_delete, current_versions, changed_ids, differing,
  dropped,
}
use personal_world.Config.Files.Closed.{IsClosed, put-IsClosed}
use personal_world.Config.Files.Preserved.{changes-IsClosed}
use personal_world.Config.Files.Versions.{IsCurrent, version_under, save_reports, delete_reports}
use personal_world.Config.Files.Objects.{Kind, providers, cards, boards}
use personal_world.Value.{Value, obj, end}
use personal_world.Config.Files.Reload.{File, Disk}

abbrev ops : StoreOps
ops = record {
  valid = λ x. true;
  is_id = λ k name. true;
  written = λ x. some "new";
  digest = λ p. p.request.path;
  by_id = λ acts. acts;
}

abbrev shop : Provider
shop = record {
  id = "shop";
  kind = http;
  base_url = "https://shop.example";
  path_prefix = "";
  auth = record {
    type = no_auth;
    header_name = none;
    secret_ref = none;
    login_path = none;
    username_field = "";
    password_field = "";
    token_path = none;
    token_field = "";
  };
  network = record { lan = false };
  governance = none;
  principal_id = none;
  tls_verify = true;
  max_bytes = 2097152;
}

abbrev buy : String → Request
buy path = record {
  id = "shop.buy";
  provider = "shop";
  method = post;
  path = path;
  query = [];
  headers = [];
  body = none;
  effect = auto;
  known_safe = false;
  ttl_s = 0;
  timeout_s = none;
  assertions = [];
}

abbrev buying : Action
buying = record {
  id = "buying";
  request = "shop.buy";
  name = "Buy";
  access = write_access;
  approval = always;
  scope = "shop";
  idempotency = optional;
  exposed = true;
  owner_waives_approval = false;
}

abbrev order : Card
order = record {
  id = "order";
  title = "Order";
  request = some "shop.buy";
  requests = [];
  fields = [];
  status = none;
}

abbrev empty : Objects
empty = record {
  all_providers = [];
  all_requests = [];
  all_cards = [];
  all_boards = [];
  all_actions = [];
}

abbrev loaded : Objects
loaded = record {
  all_providers = ("shop", shop) ∷ [];
  all_requests = ("shop.buy", buy "/buy") ∷ [];
  all_cards = [];
  all_boards = [];
  all_actions = ("buying", buying) ∷ [];
}

abbrev store : FileStore
store = record {
  objects = loaded;
  etags = ((requests, "shop.buy"), "old") ∷ [];
  errors = [];
  versions = ("buying", some "/buy") ∷ [];
}

empty-IsClosed : IsClosed empty
unfolding dict_get
empty-IsClosed = record {
  of_request = λ k r g. absurd (ground (arith, g));
  of_card = λ k c g. absurd (ground (arith, g));
  of_board = λ k b g. absurd (ground (arith, g));
  of_action = λ k a g. absurd (ground (arith, g));
}

loaded-IsClosed : IsClosed loaded
unfolding put_object dict_put check_references dict_get all policy_ok resolved_effect
loaded-IsClosed = put-IsClosed (Object.action buying) _ refl (
    put-IsClosed (Object.request (buy "/buy")) _ refl
      (put-IsClosed (Object.provider shop) empty refl empty-IsClosed))

changes-IsClosed_example :
    IsClosed (save ops (Object.card order) none store).1.objects
    × IsClosed (delete ops requests "shop.buy" none store).1.objects
changes-IsClosed_example =
    changes-IsClosed ops (Object.card order) requests "shop.buy" none store loaded-IsClosed

abbrev answer : Saved
answer = record { etag = some "new"; changed = "buying" ∷ [] }

is_current : IsCurrent ops store
unfolding current_versions version_of dict_get action_version
is_current = refl

save_reports_example :
    IsCurrent ops (save ops (Object.request (buy "/order")) (some "old") store).1
    × ((elem {A = String} "buying" ("buying" ∷ []) ≡ true) ↔ (
        version_under ops loaded "buying"
        ≢ version_under ops
            (save ops (Object.request (buy "/order")) (some "old") store).1.objects
            "buying"))
unfolding save check_references all policy_ok resolved_effect dict_get dict_put commit put_object
    changed_ids differing dropped current_versions version_of action_version
save_reports_example =
    save_reports ops (Object.request (buy "/order")) (some "old") store "buying" {s = answer}
      is_current refl

delete_reported :
    IsCurrent ops (delete ops actions "buying" none store).1
    × ((elem {A = String} "buying" ("buying" ∷ []) ≡ true) ↔ (
        version_under ops loaded "buying"
        ≢ version_under ops (delete ops actions "buying" none store).1.objects "buying"))
unfolding delete check_delete not_referenced get_object dict_get dict_del commit del_object
    changed_ids differing dropped current_versions version_of action_version
delete_reported =
    delete_reports ops actions "buying" none store "buying"
      {s = record { etag = none; changed = "buying" ∷ [] }} is_current refl

-- The model of a provider reads every document as the shop, the others read none.
abbrev validated : Kind → Value → Option Object
validated providers v = some (Object.provider shop)
validated requests v = none
validated cards v = none
validated boards v = none
validated actions v = none

abbrev disk : Disk
disk = record { parse = λ raw. some (obj end); validate = validated; sha256 = λ raw. "hash" }

-- The request's file is broken, the action's is gone.
abbrev files : List File
files =
    record { kind = providers; stem = "shop"; folder = "providers"; bytes = some [] }
    ∷ record { kind = requests; stem = "shop.buy"; folder = "shop"; bytes = some [] }
    ∷ []
