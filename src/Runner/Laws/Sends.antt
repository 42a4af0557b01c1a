-- ===== src/Runner/Laws/Sends.antt =====
-- What a call of `fetch` gives to the network.
use personal_world.Prelude.{ℕ, String, Bool, ◌∷◌, ◌≡◌, ◌⊎◌, inl, inr, refl, Bool-cases}
use personal_world.Tx.{Result, ok, err}
use personal_world.Config.Models.{Request, Provider}
use personal_world.Runner.Fetch.{Raised, Fetch, Runner, Kept, Clock}
use personal_world.Runner.Classify.{send_once}
use personal_world.Runner.Fetching.{Flight, owner, fetch, remember, remember_ok, send_and_remember}
use personal_world.Runner.Laws.Endings.{MaySend, Ending, quiet, shared, cached, sent, fetch_ends}

abbrev SendsOnce : Runner → Flight → String → Kept → Result Raised Fetch × Kept → Type 0
SendsOnce r flight request_id st p =
    (p.1.sends ≡ st.sends)
    ⊎ ((provider : Provider) × ((request : Request) × (MaySend r request_id provider request
            × (flight ≡ owner)
            × (p.1.sends ≡ (provider, request) ∷ st.sends))))

sends-remember_ok :
    (request_id : String) (ttl : ℕ) (p : Result Raised Fetch × Kept)
    → (remember_ok request_id ttl p).1.sends ≡ p.1.sends
unfolding remember
sends-remember_ok request_id ttl (err e, st) = refl
sends-remember_ok request_id ttl (ok f, st) = elim (Bool-cases f.ok) [
  | inl h ↦ rw h refl
  | inr h ↦ rw h refl
]

Ending-sends :
    (r : Runner) (clock : Clock) (flight : Flight) (request_id : String) (st : Kept)
    {p : Result Raised Fetch × Kept}
    → Ending r clock flight request_id st p
    → SendsOnce r flight request_id st p
unfolding send_and_remember send_once
Ending-sends r clock flight request_id st (quiet f o c) = inl refl
Ending-sends r clock flight request_id st (shared f w) = inl refl
Ending-sends r clock flight request_id st (cached provider request f may w fresh) = inl refl
Ending-sends r clock flight request_id st (sent provider request cache may w c) = inr (
  provider,
  (
    request,
    (
      may,
      w,
      sends-remember_ok request_id request.ttl_s
          (send_once r request_id provider request clock.on_send (record st { cache = cache })),
    ),
  ),
)

-- One `fetch` gives at most one thing to `send`: the request of that id, with its own provider, only
-- where its resolved effect is to read and where this call owns the flight.
pub fetch_sends :
    (r : Runner) (clock : Clock) (flight : Flight) (force : Bool) (request_id : String) (st : Kept)
    → ((fetch r clock flight force request_id st).1.sends ≡ st.sends)
      ⊎ ((provider : Provider) × ((request : Request) × (MaySend r request_id provider request
              × (flight ≡ owner)
              × ((fetch r clock flight force request_id st).1.sends
                  ≡ (provider, request) ∷ st.sends))))
fetch_sends r clock flight force request_id st =
    Ending-sends r clock flight request_id st (fetch_ends r clock force request_id st flight)
