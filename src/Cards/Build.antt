-- ===== src/Cards/Build.antt =====
-- `CardService.build` and `build_for` of worlds/cards.py, over the runner's fetches. The last good
-- values are read as the fetches of the call leave them.
use personal_world.Prelude.{
  ℕ, Text, String, Bool, true, false, Option, none, some, List, [], ◌∷◌, string_eq, any, codes,
  dict_get, dict_put,
}
use personal_world.Value.{Value, null}
use personal_world.Tx.{Result, ok, err, Op, ◌>>=◌}
use personal_world.Config.Files.Objects.{Card, CardField, SourceState, not_configured}
use personal_world.Config.Files.References.{request_ids}
use personal_world.Runner.Fetch.{Raised, Fetch, Kept}
use personal_world.Cards.Keys.{text_eq, unique_slug}
use personal_world.Cards.States.{source_state, FieldValue, field_value}
use personal_world.Cards.Fetched.{
  Service, Reads, Envelope, state_for_error, Fetches, fetch_all, first_failure, is_unconfigured,
  document, LastGood, last_good_document, last_good_at,
}

-- `_values`
unfoldable pub card_values :
    Service
    → Value
    → ℕ
    → List CardField
    → List (Text × ℕ)
    → List (Text × FieldValue)
    → Result Raised (List (Text × FieldValue))
unfolding unique_slug field_value dict_put
card_values s doc now [] taken acc = ok acc
card_values s doc now (f ∷ fields) taken acc =
    let key = unique_slug s.slugs (codes f.label) taken in
    elim (field_value s.show s.runner.digits doc f now) [
      | ok v ↦ card_values s doc now fields key.1 (dict_put key.0 v acc)
      | err e ↦ err e
    ]

abbrev pub with_values :
    Card
    → SourceState
    → Bool
    → Option ℕ
    → Fetch
    → Result Raised (List (Text × FieldValue))
    → Result Raised Envelope
with_values card state current good_at evidence (err e) = err e
with_values card state current good_at evidence (ok values) = ok (record {
  card_id = card.id;
  source_state = state;
  is_current = current;
  fetched_at = evidence.fetched_at;
  last_good_at = good_at;
  values = values;
  evidence = evidence;
})

abbrev pub envelope_with :
    Service → Reads → Card → SourceState → Bool → Value → Option ℕ → Fetch → Result Raised Envelope
envelope_with s reads card state current doc good_at evidence =
    with_values card state current good_at evidence (card_values s doc reads.now card.fields [] [])

abbrev pub with_state :
    Service
    → Reads
    → Card
    → Fetches
    → LastGood
    → Fetch
    → Result Raised SourceState
    → Result Raised Envelope
with_state s reads card fetches good f (err e) = err e
with_state s reads card fetches good f (ok state) =
    envelope_with s reads card state true (document s card fetches)
      (last_good_at good (request_ids card)) f

-- The three cases of `build_for`: not configured, a failure, and neither
abbrev pub by_case :
    Service
    → Reads
    → Card
    → Fetches
    → LastGood
    → Fetch
    → Bool
    → Option Fetch
    → Result Raised Envelope
by_case s reads card fetches good some_fetch true (some failure) =
    envelope_with s reads card not_configured false null none failure
by_case s reads card fetches good some_fetch true none =
    envelope_with s reads card not_configured false null none some_fetch
by_case s reads card fetches good some_fetch false (some failure) =
    envelope_with s reads card (state_for_error failure.error_class) false
      (last_good_document s good card fetches) (last_good_at good (request_ids card)) failure
by_case s reads card fetches good some_fetch false none =
    with_state s reads card fetches good some_fetch
      (source_state s.show s.runner.digits card.status (document s card fetches))

-- `fetches[request_ids[0]]`; a card has a request
abbrev pub first_fetch : Fetches → List String → Option Fetch
first_fetch fetches [] = none
first_fetch fetches (id ∷ ids) = dict_get id fetches

abbrev pub the_envelope : Result Raised Envelope → Result Raised (Option Envelope)
the_envelope (err e) = err e
the_envelope (ok e) = ok (some e)

abbrev pub envelope_at :
    Service → Reads → Card → Fetches → LastGood → Option Fetch → Result Raised (Option Envelope)
envelope_at s reads card fetches good none = ok none
envelope_at s reads card fetches good (some f) = the_envelope (
    by_case s reads card fetches good f (any (is_unconfigured s fetches) (request_ids card))
      (first_failure fetches (request_ids card)))

unfoldable pub envelope_of :
    Service → Reads → Card → Fetches → LastGood → Result Raised (Option Envelope)
unfolding dict_get any first_failure last_good_document last_good_at document source_state
    card_values
envelope_of s reads card fetches good =
    envelope_at s reads card fetches good (first_fetch fetches (request_ids card))

abbrev envelope_from : Service → Reads → Card → Fetches → Op Kept Raised (Option Envelope)
envelope_from s reads card fetches st = (envelope_of s reads card fetches st.last_good, st)

-- `build_for`; it gives none where the code raises an IndexError, at a card without a request
unfoldable pub build_for : Service → Reads → Card → Op Kept Raised (Option Envelope)
unfolding fetch_all envelope_of
build_for s reads card = fetch_all s reads (request_ids card) 0 [] >>= envelope_from s reads card
