-- ===== src/Cards/Fetched.antt =====
-- What `CardService` of worlds/cards.py fetches for a card, and the documents that it reads.
use personal_world.Prelude.{
  ℕ, ◌+◌, Text, String, Bool, true, false, Option, none, some, List, [], ◌∷◌, ◌&&◌, not, ◌==◌,
  string_eq, leb, dict_get, dict_put, is_some, if◌then◌else◌,
}
use personal_world.Value.{Value, null, obj, Fields, end, field}
use personal_world.Tx.{Op, ◌>>=◌, pure}
use personal_world.Config.Models.{Request}
use personal_world.Config.Files.Objects.{
  Card, SourceState, needs_attention, degraded, unavailable, unknown,
}
use personal_world.Dispatch.Rows.{
  ErrorClass, timeout, connection, http_4xx, http_5xx, malformed, redirect_refused, too_large,
  confinement_denied, auth_failed,
}
use personal_world.Runner.Fetch.{Raised, Fetch, Runner, Kept, Clock}
use personal_world.Runner.Fetching.{Flight, fetch}
use personal_world.Cards.Keys.{SlugOps, text_eq}
use personal_world.Cards.States.{ShowOps, FieldValue}

-- A `CardService` with its runner; `part` is `rid.partition(".")[2] or rid`.
pub record Service : Type 0 where
  pub runner : Runner
  pub show : ShowOps
  pub slugs : SlugOps
  pub part : String → String

-- What a call reads of the clock and of the other calls: for each of its fetches, and for the values
pub record Reads : Type 0 where
  pub clock : ℕ → Clock
  pub flight : ℕ → Flight
  pub now : ℕ

pub record Envelope : Type 0 where
  pub card_id : String
  pub source_state : SourceState
  pub is_current : Bool  -- `freshness`
  pub fetched_at : Option ℕ
  pub last_good_at : Option ℕ
  pub values : List (Text × FieldValue)
  pub evidence : Fetch  -- `as_evidence()` takes its facts, without `data`

-- `SOURCE_STATE_FOR_ERROR`
abbrev pub state_for_error : Option ErrorClass → SourceState
state_for_error none = unknown
state_for_error (some auth_failed) = needs_attention
state_for_error (some http_4xx) = degraded
state_for_error (some malformed) = degraded
state_for_error (some timeout) = unavailable
state_for_error (some connection) = unavailable
state_for_error (some http_5xx) = unavailable
state_for_error (some redirect_refused) = unavailable
state_for_error (some too_large) = unavailable
state_for_error (some confinement_denied) = unavailable

abbrev pub Fetches : Type 0
Fetches = List (String × Fetch)

-- The loop of fetches
unfoldable pub fetch_all : Service → Reads → List String → ℕ → Fetches → Op Kept Raised Fetches
unfolding fetch dict_put
fetch_all s reads [] i fetches = pure fetches
fetch_all s reads (id ∷ ids) i fetches =
    fetch s.runner (reads.clock i) (reads.flight i) false id >>= λ f.
    fetch_all s reads ids (i + 1) (dict_put id f fetches)

abbrev not_ok : Option Fetch → Bool
not_ok none = false
not_ok (some f) = not f.ok

-- The first fetch that is not ok
unfoldable pub first_failure : Fetches → List String → Option Fetch
unfolding dict_get
first_failure fetches [] = none
first_failure fetches (id ∷ ids) =
    let rest = first_failure fetches ids in
    if not_ok (dict_get id fetches) then dict_get id fetches else rest

abbrev missing_provider : Service → Option Request → Bool
missing_provider s none = true
missing_provider s (some r) = not (is_some (s.runner.store.provider r.provider))

-- `_not_configured`
abbrev pub is_not_configured : Service → String → Bool
is_not_configured s id = missing_provider s (s.runner.store.request id)

abbrev is_denied : Option ErrorClass → Bool
is_denied (some confinement_denied) = true
is_denied _ = false

abbrev was_denied : Option Fetch → Bool
was_denied none = false
was_denied (some f) = is_denied f.error_class

abbrev pub is_unconfigured : Service → Fetches → String → Bool
is_unconfigured s fetches id = was_denied (dict_get id fetches) && is_not_configured s id

abbrev to_fields : List (String × Value) → Fields
to_fields [] = end
to_fields ((k, v) ∷ rest) = field k v (to_fields rest)

abbrev parts : Service → List (String × Value) → Fetches → List (String × Value)
parts s acc [] = acc
parts s acc ((id, f) ∷ fetches) = parts s (dict_put (s.part id) f.content acc) fetches

abbrev content_at : Option Fetch → Value
content_at none = null
content_at (some f) = f.content

abbrev one_request : Option String → Option String
one_request none = none
one_request (some r) = if r == "" then none else some r

abbrev document_of : Service → Fetches → Option String → Value
document_of s fetches (some r) = content_at (dict_get r fetches)
document_of s fetches none = obj (to_fields (parts s [] fetches))

-- `_document`
unfoldable pub document : Service → Card → Fetches → Value
unfolding dict_get dict_put
document s card fetches = document_of s fetches (one_request card.request)

abbrev pub LastGood : Type 0
LastGood = List (String × (Value × Option ℕ))

abbrev good_content : Option (Value × Option ℕ) → Value
good_content none = null
good_content (some g) = g.0

abbrev put_good : String → Option (Value × Option ℕ) → List (String × Value) → List (String × Value)
put_good key none acc = acc
put_good key (some g) acc = dict_put key g.0 acc

abbrev good_parts : Service → LastGood → List (String × Value) → Fetches → List (String × Value)
good_parts s good acc [] = acc
good_parts s good acc ((id, f) ∷ fetches) =
    good_parts s good
      (if f.ok
        then dict_put (s.part id) f.content acc
        else put_good (s.part id) (dict_get id good) acc)
      fetches

abbrev last_good_of : Service → LastGood → Fetches → Option String → Value
last_good_of s good fetches (some r) = good_content (dict_get r good)
last_good_of s good fetches none = obj (to_fields (good_parts s good [] fetches))

-- `_last_good_document`
unfoldable pub last_good_document : Service → LastGood → Card → Fetches → Value
unfolding dict_get dict_put
last_good_document s good card fetches = last_good_of s good fetches (one_request card.request)

abbrev stamp : Option (Value × Option ℕ) → Option ℕ
stamp none = none
stamp (some g) = g.1

abbrev earlier : Option ℕ → Option ℕ → Option ℕ
earlier none b = b
earlier (some a) none = some a
earlier (some a) (some b) = if leb a b then some a else some b

-- `_last_good_at`
unfoldable pub last_good_at : LastGood → List String → Option ℕ
unfolding dict_get
last_good_at good [] = none
last_good_at good (id ∷ ids) = earlier (stamp (dict_get id good)) (last_good_at good ids)
