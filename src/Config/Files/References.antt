-- ===== src/Config/Files/References.antt =====
-- `_check_references`, `_check_action_policy` and `_check_not_referenced` of worlds/config_store.py.
use personal_world.Prelude.{
  String, Bool, true, false, Option, none, some, List, [], ◌∷◌, ◌&&◌, ◌||◌, not, all, any, ◌==◌,
  string_eq, dict_get, is_some, if◌then◌else◌,
}
use personal_world.Config.Models.{
  Request, Action, resolved_effect, is_write, Access, read_access, write_access, Approval, never,
  always,
}
use personal_world.Config.Files.Objects.{
  Kind, providers, requests, cards, Card, BoardItem, Board, Object, Objects,
}

-- `Card.request_ids`
unfoldable pub request_ids : Card → List String
request_ids c = elim (c.request) [
  | some name ↦ if name == "" then c.requests else name ∷ []
  | none ↦ c.requests
]

abbrev is_read : Access → Bool
is_read read_access = true
is_read write_access = false

abbrev is_never : Approval → Bool
is_never never = true
is_never always = false

-- `_check_action_policy`
unfoldable pub policy_ok : Action → Request → Bool
unfolding resolved_effect
policy_ok a r =
    let write = is_write (resolved_effect r) in
    not (write && is_read a.access)
    && not (write && is_never a.approval && not a.owner_waives_approval)

abbrev pub has_request : Objects → String → Bool
has_request o name = is_some (dict_get name o.all_requests)

abbrev pub has_card : Objects → BoardItem → Bool
has_card o item = is_some (dict_get item.card o.all_cards)

abbrev pub known_request : Objects → Action → Option Request → Bool
known_request o a none = false
known_request o a (some r) = policy_ok a r

-- An action of the request that is saved, against the new request
abbrev pub fits : Request → String × Action → Bool
fits r p = not (p.1.request == r.id) || policy_ok p.1 r

-- `_check_references`: whether the object may stand beside the others
unfoldable pub check_references : Objects → Object → Bool
unfolding request_ids policy_ok all dict_get
check_references o (Object.provider p) = true
check_references o (Object.request r) =
    is_some (dict_get r.provider o.all_providers) && all (fits r) o.all_actions
check_references o (Object.card c) = all (has_request o) (request_ids c)
check_references o (Object.board b) = all (has_card o) b.items
check_references o (Object.action a) = known_request o a (dict_get a.request o.all_requests)

abbrev pub uses_provider : String → String × Request → Bool
uses_provider name p = p.1.provider == name

abbrev pub card_uses : String → String × Card → Bool
card_uses name p = any (λ r. r == name) (request_ids p.1)

abbrev pub action_uses : String → String × Action → Bool
action_uses name p = p.1.request == name

abbrev pub board_uses : String → String × Board → Bool
board_uses name p = any (λ (i : BoardItem). i.card == name) p.1.items

-- `_check_not_referenced`
unfoldable pub not_referenced : Objects → Kind → String → Bool
unfolding any request_ids
not_referenced o providers name = not (any (uses_provider name) o.all_requests)
not_referenced o requests name =
    not (any (card_uses name) o.all_cards) && not (any (action_uses name) o.all_actions)
not_referenced o cards name = not (any (board_uses name) o.all_boards)
not_referenced o k name = true
