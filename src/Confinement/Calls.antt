-- ===== src/Confinement/Calls.antt =====
-- What one call of `confined_request` writes.
use personal_world.Prelude.{ℕ, ◌+◌, ◌≤◌, ◌≡◌, arith, ap, string_eq}
use personal_world.Config.Models.{Provider, Request, Effect, reads, writes}
use personal_world.Confinement.Base.{Env}
use personal_world.Confinement.Guards.{Ready, prepare}
use personal_world.Confinement.Prepared.{IsPrepared, prepare_sound}
use personal_world.Confinement.Exchanges.{Exchange, Net, Wire}
use personal_world.Confinement.Sending.{send_ready, send, confined_request}
use personal_world.Confinement.Written.{
  logins, requests, requests-append, logins-append, Adds, Adds-lift, Adds-map,
}
use personal_world.Confinement.Confined.{IsConfined}
use personal_world.Confinement.Sent.{more, send_ready-Adds}

-- What `_prepare` gave, and an exchange that keeps to it
abbrev pub ConfinedCall : Env → Provider → Request → Effect → Exchange → Type 0
ConfinedCall env provider r effect x =
    (ready : Ready) × IsPrepared env provider r effect ready × IsConfined env provider r ready x

send-Adds :
    (env : Env) (net : Net) (provider : Provider) (r : Request) (effect : Effect) (s : Wire)
    → Adds
        (ConfinedCall env provider r effect)
        (1 + more effect)
        (1 + more effect)
        s
        (send env net provider r effect s).1
unfolding send
send-Adds env net provider r effect s =
    Adds-lift (prepare env provider r effect) (send_ready env net provider r effect) s
      (λ ready prepared.
        Adds-map (λ x c. (ready, prepare_sound env provider r effect prepared, c))
          (send_ready-Adds env net provider r ready effect s))

-- How often a call of an effect may write its request
abbrev pub rounds : Effect → ℕ
rounds writes = 1
rounds reads = 2

more-rounds : (effect : Effect) → 1 + more effect ≡ rounds effect
more-rounds reads = omega arith
more-rounds writes = omega arith

-- Whatever the network answers, and whatever credential is held, a call writes the request of a write
-- at most once and that of a read at most twice, with at most as many logins.
pub writes_bounded :
    (env : Env) (net : Net) (provider : Provider) (r : Request) (effect : Effect) (s : Wire)
    → (requests (confined_request env net provider r effect s).1.written
        ≤ rounds effect + requests s.written)
      × (logins (confined_request env net provider r effect s).1.written
          ≤ rounds effect + logins s.written)
unfolding confined_request
writes_bounded env net provider r effect s =
    let a = send-Adds env net provider r effect s in
    (
      omega (
        arith,
        ap requests a.written,
        requests-append a.fresh s.written,
        a.few_requests,
        more-rounds effect,
      ),
      omega (
        arith,
        ap logins a.written,
        logins-append a.fresh s.written,
        a.few_logins,
        more-rounds effect,
      ),
    )
