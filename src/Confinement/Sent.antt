-- ===== src/Confinement/Sent.antt =====
-- What one call of worlds/confinement.py writes: where it goes, and how often.
use personal_world.Prelude.{
  ℕ, ◌+◌, String, Text, Bool, true, false, not, Option, none, some, List, [], ◌≡◌, refl, arith, ap,
  string_eq, nat_beq,
}
use personal_world.Tx.{ok, Op, ◌>>=◌, lift}
use personal_world.Config.Models.{Provider, Request, Effect, reads, writes, post}
use personal_world.Dispatch.Rows.{RawResponse}
use personal_world.Confinement.Base.{Env, Stop}
use personal_world.Confinement.Urls.{build_url}
use personal_world.Confinement.Guards.{Ready}
use personal_world.Confinement.Credentials.{auth_headers, auth_pair}
use personal_world.Confinement.Exchanges.{
  login, request, Exchange, Net, at_write, at_exchange, at_login, Wire, typed, content_of,
  update_headers, exchange_of, write, exchange,
}
use personal_world.Confinement.Sending.{
  refusal, credential_header, log_in, or_log_in, take_session, send_with, replay, after_refusal,
  unless_refused, session_send, plain_send, send_ready,
}
use personal_world.Confinement.Login.{
  is_cookie, login_headers, login_form, issued, path_or, same_destination, ask_credential,
  authenticate, holds_session, auth_path,
}
use personal_world.Confinement.Sessions.{session_take, session_forget, session_key}
use personal_world.Confinement.Written.{
  requests, one_login, one_request, requests-append, Adds, Adds-none, Adds-one, Adds-more,
  Adds-then, Adds-bind, Adds-lift, Adds-require,
}
use personal_world.Confinement.Confined.{IsLoginTarget, IsConfined, login_target}

write-Adds :
    {P : Exchange → Type 0} (env : Env) (net : Net) (x : Exchange) (s : Wire)
    → P x
    → Adds P (one_login x.purpose) (one_request x.purpose) s (write env net x s).1
unfolding write
write-Adds {P} env net x s p = by_clock (net.late at_write s.written) refl
  where
    by_clock :
        (b : Bool)
        → net.late at_write s.written ≡ b
        → Adds P (one_login x.purpose) (one_request x.purpose) s (write env net x s).1
    by_clock true e = rw e (Adds-none (one_login x.purpose) (one_request x.purpose) refl)
    by_clock false e = rw e (Adds-one x refl p)

-- How many more rounds a call of each effect may go after a refusal
abbrev pub more : Effect → ℕ
more reads = 1
more writes = 0

module _ (env : Env) (net : Net) (provider : Provider) (r : Request) (ready : Ready) where
  abbrev Confined : Exchange → Type 0
  Confined = IsConfined env provider r ready

  abbrev AddsMost : ℕ → ℕ → Wire → Wire → Type 0
  AddsMost = Adds Confined

  exchange-Adds :
      (credential : List (String × Text)) (s : Wire)
      → AddsMost 0 1 s (exchange env net ready provider r credential s).1
  unfolding exchange
  exchange-Adds credential s = by_clock (net.late at_exchange s.written) refl
    where
      by_clock :
          (b : Bool)
          → net.late at_exchange s.written ≡ b
          → AddsMost 0 1 s (exchange env net ready provider r credential s).1
      by_clock true e = rw e (Adds-none 0 1 refl)
      by_clock false e = rw e (
          write-Adds env net
            (exchange_of env request ready provider r.method ready.target
              (typed (content_of env r.method r.body) (update_headers ready.headers credential))
              (content_of env r.method r.body))
            s (record { named = refl; verified = refl; limited = refl; carries = (refl, refl) }))

  ask_credential-Adds :
      (cookie : Bool) (pair : Text × Text) (path target : Text) (s : Wire)
      → auth_pair env provider.auth ≡ ok pair
      → IsLoginTarget env provider ready target
      → AddsMost 1 0 s (ask_credential env net provider ready cookie pair path target s).1
  unfolding ask_credential
  ask_credential-Adds cookie pair path target s paired aimed =
      Adds-bind
        (write env net (
          exchange_of env login ready provider post target (login_headers env ready)
            (some (env.form (login_form provider.auth pair)))))
        _ s
        (write-Adds env net _ s (record {
          named = refl;
          verified = refl;
          limited = refl;
          carries = (refl, refl, (pair, paired, refl), (target, refl, aimed));
        }))
        (λ a t.
          Adds-require (nat_beq a.status_code 200) _ (lift (issued env provider.auth cookie path a))
            t (λ _. Adds-none 0 0 refl))

  abbrev cookie : Bool
  cookie = is_cookie provider.auth.type

  authenticate-Adds : (s : Wire) → AddsMost 1 0 s (authenticate env net provider ready cookie s).1
  unfolding authenticate
  authenticate-Adds s = Adds-lift (auth_pair env provider.auth) _ s (λ pair paired.
      Adds-require (not (net.late at_login s.written)) _ _ s (λ _.
        Adds-lift (path_or cookie (auth_path provider.auth cookie)) _ s (λ path given.
          Adds-lift (build_url env provider path []) _ s (λ d built.
            Adds-require (same_destination d ready) _
              (ask_credential env net provider ready cookie pair path d.target) s
              (λ same.
                ask_credential-Adds cookie pair path d.target s paired
                  (login_target env provider ready given built same))))))

  log_in-Adds : (s : Wire) → AddsMost 1 0 s (log_in env net provider ready s).1
  unfolding log_in
  log_in-Adds s =
      Adds-bind (authenticate env net provider ready cookie) _ s (authenticate-Adds s)
        (λ a t. Adds-none 0 0 refl)

  or_log_in-Adds :
      (o : Option Text) (s : Wire) → AddsMost 1 0 s (or_log_in env net provider ready o s).1
  or_log_in-Adds (some c) s = Adds-none 1 0 refl
  or_log_in-Adds none s = log_in-Adds s

  take_session-Adds : (s : Wire) → AddsMost 1 0 s (take_session env net provider ready s).1
  unfolding take_session
  take_session-Adds s = or_log_in-Adds (session_take (session_key provider) s.held) s

  pub requests-take_session :
      (s : Wire) → requests (take_session env net provider ready s).1.written ≡ requests s.written
  requests-take_session s =
      let a = take_session-Adds s in
      omega (arith, ap requests a.written, requests-append a.fresh s.written, a.few_requests)

  replay-Adds : (s : Wire) → AddsMost 1 1 s (replay env net provider r ready s).1
  unfolding replay send_with
  replay-Adds s = Adds-bind (log_in env net provider ready) _ s (log_in-Adds s) (λ credential t.
      Adds-bind (send_with env net provider r ready credential) _ t
        (exchange-Adds (credential_header (is_cookie provider.auth.type) credential) t)
        (λ a u. Adds-none 0 0 refl))

  after_refusal-Adds :
      (effect : Effect) (a : RawResponse) (s : Wire)
      → AddsMost (more effect) (more effect) s (after_refusal env net provider r ready effect a s).1
  after_refusal-Adds writes a s = Adds-none 0 0 refl
  after_refusal-Adds reads a s =
      Adds-then (Adds-none 0 0 refl)
        (replay-Adds (record s { held = session_forget (session_key provider) s.held }))

  unless_refused-Adds :
      (effect : Effect) (a : RawResponse) (s : Wire)
      → AddsMost
          (more effect)
          (more effect)
          s
          (unless_refused env net provider r ready effect a s).1
  unless_refused-Adds effect a s =
      by_status (nat_beq a.status_code (refusal provider.auth.type)) refl
    where
      by_status :
          (b : Bool)
          → nat_beq a.status_code (refusal provider.auth.type) ≡ b
          → AddsMost
              (more effect)
              (more effect)
              s
              (unless_refused env net provider r ready effect a s).1
      by_status true e = rw e (after_refusal-Adds effect a s)
      by_status false e = rw e (Adds-none (more effect) (more effect) refl)

  session_send-Adds :
      (effect : Effect) (s : Wire)
      → AddsMost
          (1 + more effect)
          (1 + more effect)
          s
          (session_send env net provider r ready effect s).1
  unfolding session_send send_with
  session_send-Adds effect s = Adds-more (omega arith) (omega arith) (
      Adds-bind (take_session env net provider ready) after_session s (take_session-Adds s)
        (λ credential t.
          Adds-bind (send_with env net provider r ready credential)
            (unless_refused env net provider r ready effect) t
            (exchange-Adds (credential_header (is_cookie provider.auth.type) credential) t)
            (unless_refused-Adds effect)))
    where
      after_session : Text → Op Wire Stop RawResponse
      after_session credential =
          send_with env net provider r ready credential
          >>= unless_refused env net provider r ready effect

  plain_send-Adds : (s : Wire) → AddsMost 0 1 s (plain_send env net provider r ready s).1
  unfolding plain_send
  plain_send-Adds s =
      Adds-lift (auth_headers env provider.auth) _ s (λ credential _. exchange-Adds credential s)

  pub send_ready-Adds :
      (effect : Effect) (s : Wire)
      → AddsMost
          (1 + more effect)
          (1 + more effect)
          s
          (send_ready env net provider r effect ready s).1
  send_ready-Adds effect s = by_type (holds_session provider.auth.type) refl
    where
      by_type :
          (b : Bool)
          → holds_session provider.auth.type ≡ b
          → AddsMost
              (1 + more effect)
              (1 + more effect)
              s
              (send_ready env net provider r effect ready s).1
      by_type true e = rw e (session_send-Adds effect s)
      by_type false e = rw e (Adds-more (omega arith) (omega arith) (plain_send-Adds s))
