-- ===== src/Runner/Laws/Endings.antt =====
-- The ways in which `fetch` of worlds/runner.py ends.
use personal_world.Prelude.{
  ℕ, ◌+◌, ◌<◌, String, Bool, true, false, none, some, List, ◌≡◌, ◌⊎◌, inl, inr, refl, arith, leb,
  string_eq, dict_get, dict_del, Bool-cases, Option-cases,
}
use personal_world.Tx.{Result, ok}
use personal_world.Config.Models.{
  Request, Provider, Effect, reads, writes, resolved_effect, is_write,
}
use personal_world.Runner.Fetch.{Raised, Fetch, Runner, Kept, Clock, failure}
use personal_world.Runner.Fetching.{
  Flight, owner, waited, fresh_cache, send_and_remember, fetch_allowed, fetch, has_lapsed,
}

-- A request that may be sent.
pub record MaySend (r : Runner) (request_id : String) (provider : Provider) (request : Request)
    : Type 0 where
  pub known : r.store.request request_id ≡ some request
  pub provided : r.store.provider request.provider ≡ some provider
  pub reading : resolved_effect request ≡ reads

-- A cached answer that has not lapsed.
pub record IsFresh (clock : Clock) (request_id : String) (request : Request) (st : Kept) (f : Fetch)
    : Type 0 where
  pub entry : dict_get request_id st.cache ≡ some f
  pub at : ℕ
  pub fetched : f.fetched_at ≡ some at
  pub young : clock.on_cache < at + request.ttl_s

pub data Ending (r : Runner) (clock : Clock) (flight : Flight) (request_id : String) (st : Kept)
    : Result Raised Fetch × Kept → Type 0 where
  quiet :
      (f : Fetch)
      → f.ok ≡ false
      → f.from_cache ≡ false
      → Ending r clock flight request_id st (ok f, st)
  shared :
      (f : Fetch)
      → flight ≡ waited (some f)
      → Ending r clock flight request_id st (ok (record f { from_cache = true }), st)
  cached :
      (provider : Provider) (request : Request) (f : Fetch)
      → MaySend r request_id provider request
      → flight ≡ owner
      → IsFresh clock request_id request st f
      → Ending r clock flight request_id st (ok (record f { from_cache = true }), st)
  sent :
      (provider : Provider) (request : Request) (cache : List (String × Fetch))
      → MaySend r request_id provider request
      → flight ≡ owner
      → (cache ≡ st.cache) ⊎ (cache ≡ dict_del request_id st.cache)
      → Ending r clock flight request_id st
          (send_and_remember r clock request_id provider request (record st { cache = cache }))

-- The ways in which the cache answers.
pub fresh_cache_cases :
    (clock : Clock) (request_id : String) (request : Request) (st : Kept)
    → ((f : Fetch) × IsFresh clock request_id request st f
        × (fresh_cache request_id request.ttl_s clock.on_cache st ≡ (some f, st)))
      ⊎ ((cache : List (String × Fetch)) × ((cache ≡ st.cache)
            ⊎ (cache ≡ dict_del request_id st.cache))
          × (fresh_cache request_id request.ttl_s clock.on_cache st
              ≡ (none, record st { cache = cache })))
unfolding fresh_cache
fresh_cache_cases clock request_id request st = elim (Bool-cases (leb request.ttl_s 0)) [
  | inl z ↦ inr (st.cache, inl refl, rw z refl)
  | inr z ↦ elim (Option-cases (dict_get request_id st.cache)) [
    | inl e ↦ inr (st.cache, inl refl, rw (z, e) refl)
    | inr (f, e) ↦ elim (Option-cases f.fetched_at) [
      | inl a ↦ inr (st.cache, inl refl, rw (z, e, a) refl)
      | inr (at, a) ↦ elim (Bool-cases (has_lapsed request.ttl_s clock.on_cache at)) [
        | inl l ↦ inr (dict_del request_id st.cache, inr refl, rw (z, e, a, l) refl)
        | inr l ↦ inl (
          f,
          record { entry = e; at = at; fetched = a; young = ground (arith, l) },
          rw (z, e, a, l) refl,
        )
      ]
    ]
  ]
]

module _ (r : Runner) (clock : Clock) (force : Bool) (request_id : String) (st : Kept) where
  allowed_ends :
      (flight : Flight) (provider : Provider) (request : Request)
      → MaySend r request_id provider request
      → Ending r clock flight request_id st
          (fetch_allowed r clock flight force request_id provider request st)
  unfolding fetch_allowed failure
  allowed_ends (waited none) provider request may = quiet _ refl refl
  allowed_ends (waited (some f)) provider request may = shared f refl
  allowed_ends owner provider request may = by_force force
    where
      by_force :
          (b : Bool)
          → Ending r clock owner request_id st
              (fetch_allowed r clock owner b request_id provider request st)
      by_force true = sent provider request st.cache may refl (inl refl)
      by_force false = elim (fresh_cache_cases clock request_id request st) [
        | inl (f, fresh, e) ↦ rw e (cached provider request f may refl fresh)
        | inr (cache, c, e) ↦ rw e (sent provider request cache may refl c)
      ]

  reads_of : (e : Effect) → is_write e ≡ false → e ≡ reads
  reads_of reads h = refl
  reads_of writes h = absurd (ground (arith, h))

  pub fetch_ends :
      (flight : Flight)
      → Ending r clock flight request_id st (fetch r clock flight force request_id st)
  unfolding fetch failure
  fetch_ends flight = elim (Option-cases (r.store.request request_id)) [
    | inl a ↦ rw a (quiet _ refl refl)
    | inr (request, a) ↦ elim (Option-cases (r.store.provider request.provider)) [
      | inl b ↦ rw (a, b) (quiet _ refl refl)
      | inr (provider, b) ↦ elim (Bool-cases (is_write (resolved_effect request))) [
        | inl c ↦ rw (a, b, c) (quiet _ refl refl)
        | inr c ↦
            rw (a, b, c)
              (allowed_ends flight provider request (record {
                known = a;
                provided = b;
                reading = reads_of (resolved_effect request) c;
              }))
      ]
    ]
  ]
