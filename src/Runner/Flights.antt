-- ===== src/Runner/Flights.antt =====
-- `_join` and `_leave` of worlds/runner.py, and any number of calls at once: each block under the
-- guard is one step.
use personal_world.Prelude.{
  ℕ, suc, String, Bool, true, false, Option, none, some, List, [], ◌∷◌, ◌&&◌, any, ◌≡◌, ◌==◌,
  string_eq, nat_eq, nat_beq, dict_get, dict_put, dict_del, if◌then◌else◌,
}
use personal_world.Runner.Fetch.{Fetch}

-- `_inflight`, with a flight as the number of its making, and the results of the flights that were left
pub record Flights : Type 0 where
  pub inflight : List (String × ℕ)
  pub created : ℕ
  pub results : List (ℕ × Option Fetch)

pub data Joined : Type 0 where
  owns waits : ℕ → Joined
  shares : Fetch → Joined

abbrev pub join_entry : String → Flights → Option ℕ → Joined × Flights
join_entry request_id st (some n) = (waits n, st)
join_entry request_id st none = (
  owns st.created,
  record st { inflight = dict_put request_id st.created st.inflight; created = suc st.created },
)

-- `_join`, up to its loop
unfoldable pub start_join : String → Flights → Joined × Flights
unfolding dict_get dict_put
start_join request_id st = join_entry request_id st (dict_get request_id st.inflight)

abbrev is_number : Option ℕ → ℕ → Bool
is_number none n = false
is_number (some m) n = nat_beq m n

-- `self._inflight.get(request_id) is flight`
abbrev pub is_registered : String → ℕ → Flights → Bool
is_registered request_id n st = is_number (dict_get request_id st.inflight) n

-- `flight.result`
abbrev pub result_of : Option (Option Fetch) → Option Fetch
result_of none = none
result_of (some r) = r

abbrev pub take_over : String → ℕ → Flights → Option Fetch → Joined × Flights
take_over request_id n st (some f) = (shares f, st)
take_over request_id n st none =
    if is_registered request_id n st
    then start_join request_id (record st { inflight = dict_del request_id st.inflight })
    else (waits n, st)

-- One round of the loop of `_join`, once the wait is over or has lasted too long
unfoldable pub wait_round : String → ℕ → Flights → Joined × Flights
unfolding start_join dict_del
wait_round request_id n st = take_over request_id n st (result_of (dict_get n st.results))

-- `_leave`
unfoldable pub leave : String → ℕ → Option Fetch → Flights → Flights
unfolding dict_get dict_put dict_del
leave request_id n result st = record st {
  results = dict_put n result st.results;
  inflight = if is_registered request_id n st then dict_del request_id st.inflight else st.inflight;
}

-- The calls that send and those that wait, with their flights, and the ids that were taken over
pub record Calls : Type 0 where
  pub flights : Flights
  pub sending : List (String × ℕ)
  pub waiting : List (String × ℕ)
  pub takeovers : List String

abbrev pub is_call : String → ℕ → String × ℕ → Bool
is_call request_id n p = (p.0 == request_id) && nat_beq p.1 n

unfoldable pub drop_call : String → ℕ → List (String × ℕ) → List (String × ℕ)
drop_call request_id n [] = []
drop_call request_id n (p ∷ calls) =
    if is_call request_id n p then calls else p ∷ drop_call request_id n calls

abbrev pub enroll : String → Joined × Flights → Calls → Calls
enroll request_id (owns n, st) s = record s { flights = st; sending = (request_id, n) ∷ s.sending }
enroll request_id (waits n, st) s = record s { flights = st; waiting = (request_id, n) ∷ s.waiting }
enroll request_id (shares f, st) s = record s { flights = st }

abbrev pub after_round : String → ℕ → Joined × Flights → Calls → Calls
after_round request_id n (owns m, st) s = record s {
  flights = st;
  sending = (request_id, m) ∷ s.sending;
  waiting = drop_call request_id n s.waiting;
  takeovers = request_id ∷ s.takeovers;
}
after_round request_id n (waits m, st) s = record s { flights = st }
after_round request_id n (shares f, st) s = record s {
  flights = st;
  waiting = drop_call request_id n s.waiting;
}

pub data Step (s : Calls) : Calls → Type 0 where
  arrive : (request_id : String) → Step s (enroll request_id (start_join request_id s.flights) s)
  round :
      (request_id : String) (n : ℕ)
      → any (is_call request_id n) s.waiting ≡ true
      → Step s (after_round request_id n (wait_round request_id n s.flights) s)
  go :
      (request_id : String) (n : ℕ) (result : Option Fetch)
      → any (is_call request_id n) s.sending ≡ true
      → Step s (record s {
        flights = leave request_id n result s.flights;
        sending = drop_call request_id n s.sending;
      })

abbrev pub no_calls : Calls
no_calls = record {
  flights = record { inflight = []; created = 0; results = [] };
  sending = [];
  waiting = [];
  takeovers = [];
}

pub data ReachCalls : Calls → Type 0 where
  begin : ReachCalls no_calls
  step : {s t : Calls} → ReachCalls s → Step s t → ReachCalls t
