-- ===== src/Config/Store.antt =====
-- The loaded configuration of worlds/config_store.py, as its readers see it: a lookup for each kind.
use personal_world.Prelude.{String, Option, none, some, List}
use personal_world.Config.Models.{Action, Request, Provider, Payload, action_version}

pub record ConfigStore : Type 0 where
  pub action : String → Option Action
  pub request : String → Option Request
  pub provider : String → Option Provider
  -- `iter_all`, its actions, sorted by id
  pub actions : List Action
  -- sha256 of the canonical JSON of a payload (pydantic, json and hashlib)
  pub digest : Payload → String

module _ (store : ConfigStore) where
  abbrev version_with : Action → Request → Option Provider → Option String
  version_with action request none = none
  version_with action request (some provider) =
      some (action_version store.digest action request provider)

  abbrev version_from : Action → Option Request → Option String
  version_from action none = none
  version_from action (some request) = version_with action request (store.provider request.provider)

  abbrev version_at : Option Action → Option String
  version_at none = none
  version_at (some action) = version_from action (store.request action.request)

  -- `action_version`, `_version_of`
  unfoldable pub version_of : String → Option String
  version_of action_id = version_at (store.action action_id)
