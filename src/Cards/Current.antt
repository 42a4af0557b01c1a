-- ===== src/Cards/Current.antt =====
-- What `build_for` of worlds/cards.py has seen when it says that a card is healthy.
use text.Mathlib.TextEquality.{eq_iff}
use personal_world.Prelude.{
  Text, some_inj, ℕ, ◌+◌, String, Bool, true, false, Option, none, some, List, [], ◌∷◌, ◌≡◌, refl,
  sym, ap, ◌∙◌, arith, string_eq, any, All, dict_get, dict_put, get-put, is_some,
}
use personal_world.Value.{Value}
use personal_world.Tx.{Result, ok, err, ok_inj, when_done}
use personal_world.Config.Files.Objects.{Card, SourceState, healthy}
use personal_world.Config.Files.References.{request_ids}
use personal_world.Dispatch.Rows.{
  ErrorClass, timeout, connection, http_4xx, http_5xx, malformed, redirect_refused, too_large,
  confinement_denied, auth_failed,
}
use personal_world.Runner.Fetch.{Raised, Fetch, Kept}
use personal_world.Runner.Fetching.{fetch}
use personal_world.Cards.States.{source_state, FieldValue}
use personal_world.Cards.Honest.{IsHealthy, source_state-IsHealthy}
use personal_world.Cards.Build.{
  envelope_with, with_state, the_envelope, with_values, by_case, envelope_at, first_fetch,
  envelope_of, build_for,
}
use personal_world.Cards.Fetched.{
  Service, Reads, Envelope, Fetches, LastGood, state_for_error, fetch_all, first_failure,
  is_unconfigured, document,
}

module _ (s : Service) (reads : Reads) where
  -- What was fetched stays.
  fetch_all_keeps :
      (ids : List String) (i : ℕ) (acc out : Fetches) (j : String) (st : Kept)
      → (fetch_all s reads ids i acc st).0 ≡ ok out
      → is_some (dict_get j acc) ≡ true
      → is_some (dict_get j out) ≡ true
  unfolding fetch_all
  fetch_all_keeps [] i acc out j st h k = ap (λ z. is_some (dict_get j z)) (sym (ok_inj h)) ∙ k
  fetch_all_keeps (id ∷ ids) i acc out j st h k =
      when_done (fetch s.runner (reads.clock i) (reads.flight i) false id) _ st h (λ f _ l.
        fetch_all_keeps ids (i + 1) (dict_put id f acc) out j _ l
          (ground (arith, get-put id j f acc, k)))

  fetch_all_has :
      (ids : List String) (i : ℕ) (acc out : Fetches) (st : Kept)
      → (fetch_all s reads ids i acc st).0 ≡ ok out
      → All (λ j. is_some (dict_get j out) ≡ true) ids
  unfolding fetch_all
  fetch_all_has [] i acc out st h = tt
  fetch_all_has (id ∷ ids) i acc out st h =
      when_done (fetch s.runner (reads.clock i) (reads.flight i) false id) _ st h (λ f _ l. (
        fetch_all_keeps ids (i + 1) (dict_put id f acc) out id _ l
            (ground (arith, get-put id id f acc, eq_iff id id)),
        fetch_all_has ids (i + 1) (dict_put id f acc) out _ l,
      ))

-- The request was fetched, with an ok.
abbrev pub FetchedOk : Fetches → String → Type 0
FetchedOk fetches id = (f : Fetch) × (dict_get id fetches ≡ some f) × (f.ok ≡ true)

no_failure :
    (fetches : Fetches) (ids : List String)
    → All (λ j. is_some (dict_get j fetches) ≡ true) ids
    → first_failure fetches ids ≡ none
    → All (FetchedOk fetches) ids
unfolding first_failure
no_failure fetches [] a h = tt
no_failure fetches (id ∷ ids) a h = by_entry (dict_get id fetches) refl (no_failure fetches ids a.1)
  where
    by_entry :
        (o : Option Fetch)
        → dict_get id fetches ≡ o
        → (first_failure fetches ids ≡ none → All (FetchedOk fetches) ids)
        → All (FetchedOk fetches) (id ∷ ids)
    by_entry none e ih = absurd (ground (arith, a.0, e))
    by_entry (some f) e ih = ((f, e, ground (arith, h, e)), ih (ground (arith, h, e)))

error_not_healthy : (c : Option ErrorClass) → state_for_error c ≡ healthy → ⊥
error_not_healthy none h = ground (arith, h)
error_not_healthy (some timeout) h = ground (arith, h)
error_not_healthy (some connection) h = ground (arith, h)
error_not_healthy (some http_4xx) h = ground (arith, h)
error_not_healthy (some http_5xx) h = ground (arith, h)
error_not_healthy (some malformed) h = ground (arith, h)
error_not_healthy (some redirect_refused) h = ground (arith, h)
error_not_healthy (some too_large) h = ground (arith, h)
error_not_healthy (some confinement_denied) h = ground (arith, h)
error_not_healthy (some auth_failed) h = ground (arith, h)

values_say :
    (card : Card) (state : SourceState) (current : Bool) (at : Option ℕ) (f : Fetch)
    (o : Result Raised (List (Text × FieldValue))) (e : Envelope)
    → with_values card state current at f o ≡ ok e
    → (state ≡ e.source_state) × (current ≡ e.is_current)
values_say card state current at f (ok vs) e h = (
  ap (λ (z : Envelope). z.source_state) (ok_inj h),
  ap (λ (z : Envelope). z.is_current) (ok_inj h),
)
values_say card state current at f (err x) e h = absurd (ground (arith, h))

module _ (s : Service) (reads : Reads) (card : Card) (fetches : Fetches) (good : LastGood) where
  envelope_says :
      (state : SourceState) (current : Bool) (doc : Value) (at : Option ℕ) (f : Fetch)
      (e : Envelope)
      → envelope_with s reads card state current doc at f ≡ ok e
      → (state ≡ e.source_state) × (current ≡ e.is_current)
  envelope_says state current doc at f e h = values_say card state current at f _ e h

  -- Only the last of the three cases says healthy.
  by_case_healthy :
      (f : Fetch) (missing : Bool) (failure : Option Fetch) (e : Envelope)
      → by_case s reads card fetches good f missing failure ≡ ok e
      → e.source_state ≡ healthy
      → (failure ≡ none)
        × (e.is_current ≡ true)
        × (source_state s.show s.runner.digits card.status (document s card fetches) ≡ ok healthy)
  by_case_healthy f true (some x) e h k =
      absurd (ground (arith, (envelope_says _ _ _ _ _ e h).0, k))
  by_case_healthy f true none e h k = absurd (ground (arith, (envelope_says _ _ _ _ _ e h).0, k))
  by_case_healthy f false (some x) e h k =
      absurd (error_not_healthy x.error_class ((envelope_says _ _ _ _ _ e h).0 ∙ k))
  by_case_healthy f false none e h k =
      by_state (source_state s.show s.runner.digits card.status (document s card fetches)) h
    where
      by_state :
          (o : Result Raised SourceState)
          → with_state s reads card fetches good f o ≡ ok e
          → (◌≡◌ {A = Option Fetch} none none) × (e.is_current ≡ true) × (o ≡ ok healthy)
      by_state (err x) l = absurd (ground (arith, l))
      by_state (ok state) l =
          let (a, b) = envelope_says _ _ _ _ _ e l in (refl, sym b, ap ok (a ∙ k))

  the_envelope_is :
      (o : Result Raised Envelope) (e : Envelope) → the_envelope o ≡ ok (some e) → o ≡ ok e
  the_envelope_is (err x) e h = absurd (ground (arith, h))
  the_envelope_is (ok a) e h = ap ok (some_inj (ok_inj h))

  envelope_healthy :
      (e : Envelope)
      → envelope_of s reads card fetches good ≡ ok (some e)
      → e.source_state ≡ healthy
      → (first_failure fetches (request_ids card) ≡ none)
        × (e.is_current ≡ true)
        × (source_state s.show s.runner.digits card.status (document s card fetches) ≡ ok healthy)
  unfolding envelope_of
  envelope_healthy e h k = by_first (first_fetch fetches (request_ids card)) h
    where
      by_first :
          (o : Option Fetch)
          → envelope_at s reads card fetches good o ≡ ok (some e)
          → (first_failure fetches (request_ids card) ≡ none)
            × (e.is_current ≡ true)
            × (source_state s.show s.runner.digits card.status (document s card fetches)
                ≡ ok healthy)
      by_first none l = absurd (ground (arith, ok_inj l))
      by_first (some f) l =
          by_case_healthy f (any (is_unconfigured s fetches) (request_ids card))
            (first_failure fetches (request_ids card)) e (the_envelope_is _ e l) k

-- If a card that is built says that it is healthy, then it says that it is current, every one of its
-- requests was fetched in this call with an ok, and its status map calls the fetched document healthy.
pub healthy_is_current :
    (s : Service) (reads : Reads) (card : Card) (st : Kept) (e : Envelope)
    → (build_for s reads card st).0 ≡ ok (some e)
    → e.source_state ≡ healthy
    → (e.is_current ≡ true)
      × ((fetches : Fetches) × ((fetch_all s reads (request_ids card) 0 [] st).0 ≡ ok fetches)
          × All (FetchedOk fetches) (request_ids card)
          × IsHealthy s.show s.runner.digits card.status (document s card fetches))
unfolding build_for
healthy_is_current s reads card st e h k =
    when_done (fetch_all s reads (request_ids card) 0 []) _ st h (λ fetches l m.
      let (a, b, c) = envelope_healthy s reads card fetches _ e m k in
      (
        b,
        (
          fetches,
          l,
          no_failure fetches (request_ids card)
              (fetch_all_has s reads (request_ids card) 0 [] fetches st l) a,
          (source_state-IsHealthy s.show s.runner.digits card.status (document s card fetches)).0 c,
        ),
      ))
