-- ===== src/Config/Files/Objects.antt =====
-- What `ConfigStore` of worlds/config_store.py holds in memory.
use personal_world.Prelude.{
  String, Bool, true, false, Option, none, some, List, string_eq, dict_get, dict_put, dict_del, map,
}
use personal_world.Prelude.Int.{ℤ}
use personal_world.Value.{Value}
use personal_world.Config.Models.{Provider, Request, Action, Payload}
use personal_world.Config.Store.{ConfigStore}

-- `KINDS`, by the names of their directories
pub data Kind : Type 0 where
  providers requests cards boards actions : Kind

abbrev pub kind_beq : Kind → Kind → Bool
kind_beq providers providers = true
kind_beq requests requests = true
kind_beq cards cards = true
kind_beq boards boards = true
kind_beq actions actions = true
kind_beq _ _ = false

pub data Format : Type 0 where
  number percent bytes duration relative_time text count : Format

-- `Field_`
pub record CardField : Type 0 where
  pub path : String
  pub label : String
  pub format : Format
  pub unit : Option String

pub data SourceState : Type 0 where
  healthy needs_attention degraded unavailable not_configured unknown : SourceState

-- A number above the value makes the card degraded, or else needs attention.
pub record Above : Type 0 where
  pub value : ℤ
  pub degrades : Bool

pub data Mode : Type 0 where
  first all_of any_of : Mode

pub record StatusMap : Type 0 where
  pub path : String
  pub healthy : List Value
  pub needs_attention : List Value
  pub mode : Mode
  pub empty_is_healthy : Bool
  pub above : Option Above

-- A card: `request` or else `requests`, without the words and the meter that the page shows
pub record Card : Type 0 where
  pub id : String
  pub title : String
  pub request : Option String
  pub requests : List String
  pub fields : List CardField
  pub status : Option StatusMap

pub record BoardItem : Type 0 where
  pub card : String
  pub hidden : Bool

pub record Board : Type 0 where
  pub id : String
  pub title : String
  pub home : Bool
  pub items : List BoardItem

pub data Object : Type 0 where
  provider : Provider → Object
  request : Request → Object
  card : Card → Object
  board : Board → Object
  action : Action → Object

abbrev pub kind_of : Object → Kind
kind_of (Object.provider p) = providers
kind_of (Object.request r) = requests
kind_of (Object.card c) = cards
kind_of (Object.board b) = boards
kind_of (Object.action a) = actions

abbrev pub id_of : Object → String
id_of (Object.provider p) = p.id
id_of (Object.request r) = r.id
id_of (Object.card c) = c.id
id_of (Object.board b) = b.id
id_of (Object.action a) = a.id

-- `_objects`
pub record Objects : Type 0 where
  pub all_providers : List (String × Provider)
  pub all_requests : List (String × Request)
  pub all_cards : List (String × Card)
  pub all_boards : List (String × Board)
  pub all_actions : List (String × Action)

abbrev pub wrap : {A : Type 0} → (A → Object) → Option A → Option Object
wrap f none = none
wrap f (some a) = some (f a)

-- `self._objects[kind].get(obj_id)`
unfoldable pub get_object : Kind → String → Objects → Option Object
unfolding dict_get
get_object providers name o = wrap Object.provider (dict_get name o.all_providers)
get_object requests name o = wrap Object.request (dict_get name o.all_requests)
get_object cards name o = wrap Object.card (dict_get name o.all_cards)
get_object boards name o = wrap Object.board (dict_get name o.all_boards)
get_object actions name o = wrap Object.action (dict_get name o.all_actions)

-- `self._objects[kind][obj.id] = obj`
unfoldable pub put_object : Object → Objects → Objects
put_object (Object.provider p) o = record o { all_providers = dict_put p.id p o.all_providers }
put_object (Object.request r) o = record o { all_requests = dict_put r.id r o.all_requests }
put_object (Object.card c) o = record o { all_cards = dict_put c.id c o.all_cards }
put_object (Object.board b) o = record o { all_boards = dict_put b.id b o.all_boards }
put_object (Object.action a) o = record o { all_actions = dict_put a.id a o.all_actions }

-- `self._objects[kind].pop(obj_id, None)`
unfoldable pub del_object : Kind → String → Objects → Objects
del_object providers name o = record o { all_providers = dict_del name o.all_providers }
del_object requests name o = record o { all_requests = dict_del name o.all_requests }
del_object cards name o = record o { all_cards = dict_del name o.all_cards }
del_object boards name o = record o { all_boards = dict_del name o.all_boards }
del_object actions name o = record o { all_actions = dict_del name o.all_actions }

-- An entry of `_errors`, with its kind and id
pub record BadFile : Type 0 where
  pub kind : Kind
  pub name : String

pub record FileStore : Type 0 where
  pub objects : Objects
  pub etags : List ((Kind × String) × String)
  pub errors : List BadFile
  pub versions : List (String × Option String)

-- `model_validate` of an object's own dump, the id patterns, the hash of the YAML that is written
-- (`none` where it cannot be written), the hash of a payload, and `sorted` by id.
pub record StoreOps : Type 0 where
  pub valid : Object → Bool
  pub is_id : Kind → String → Bool
  pub written : Object → Option String
  pub digest : Payload → String
  pub by_id : List Action → List Action

abbrev entry_action : String × Action → Action
entry_action p = p.1

-- The readers' view of the store
abbrev pub snapshot : StoreOps → Objects → ConfigStore
snapshot ops o = record {
  action = λ name. dict_get name o.all_actions;
  request = λ name. dict_get name o.all_requests;
  provider = λ name. dict_get name o.all_providers;
  actions = ops.by_id (map entry_action o.all_actions);
  digest = ops.digest;
}
