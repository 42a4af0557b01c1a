-- ===== src/Runner/Laws/Sharing.antt =====
-- How many calls of `fetch` send for one request at a time.
use personal_world.Prelude.{
  ℕ, suc, ◌+◌, ◌≤◌, String, Bool, true, false, Option, none, some, List, [], ◌∷◌, any, ◌≡◌, inl,
  inr, refl, arith, sym, ap, subst, ◌∙◌, ◌==◌, string_eq, nat_eq, dict_get, dict_put, dict_del,
  get-put, get-del, is_some, Bool-cases, if◌then◌else◌,
}
use personal_world.Runner.Fetch.{Fetch}
use personal_world.Runner.Flights.{
  Flights, owns, waits, shares, start_join, join_entry, is_registered, result_of, take_over,
  wait_round, leave, Calls, is_call, drop_call, enroll, after_round, Step, arrive, round, go,
  ReachCalls, begin, step,
}

-- The calls that send for an id, and how often it was taken over
abbrev pub senders : String → List (String × ℕ) → ℕ
senders request_id [] = 0
senders request_id (p ∷ calls) =
    let rest = senders request_id calls in if p.0 == request_id then suc rest else rest

abbrev pub times : String → List String → ℕ
times request_id [] = 0
times request_id (t ∷ ids) =
    let rest = times request_id ids in if t == request_id then suc rest else rest

abbrev one_if : Bool → ℕ
one_if true = 1
one_if false = 0

abbrev registered : String → Flights → ℕ
registered request_id st = one_if (is_some (dict_get request_id st.inflight))

-- Each call that sends holds the registered flight, or was taken over.
abbrev IsShared : String → Calls → Type 0
IsShared request_id s =
    senders request_id s.sending ≤ registered request_id s.flights + times request_id s.takeovers

senders-drop_call :
    (request_id id : String) (n : ℕ) (calls : List (String × ℕ))
    → any (is_call id n) calls ≡ true
    → senders request_id calls
      ≡ one_if (id == request_id) + senders request_id (drop_call id n calls)
unfolding any drop_call
senders-drop_call request_id id n [] h = absurd (ground (arith, h))
senders-drop_call request_id id n (p ∷ calls) h = elim (Bool-cases (is_call id n p)) [
  | inl e ↦ ground (arith, e, string_eq.beq_iff p.0 id)
  | inr e ↦ ground (arith, e, senders-drop_call request_id id n calls (ground (arith, h, e)))
]

module _ (request_id : String) where
  same_id : (id : String) → (id == id) ≡ true
  same_id id = (string_eq.beq_iff id id).1 refl

  registered-put :
      (id : String) (n : ℕ) (st : Flights) (m : ℕ)
      → registered request_id (record st { inflight = dict_put id n st.inflight; created = m })
        ≡ (if id == request_id then 1 else registered request_id st)
  registered-put id n st m = ground (arith, get-put id request_id n st.inflight)

  registered-del :
      (id : String) (st : Flights)
      → registered request_id (record st { inflight = dict_del id st.inflight })
        ≡ (if id == request_id then 0 else registered request_id st)
  registered-del id st = ground (arith, get-del id request_id st.inflight)

  unregistered_joins :
      (id : String) (st : Flights)
      → dict_get id st.inflight ≡ none
      → start_join id st ≡ (
        owns st.created,
        record st { inflight = dict_put id st.created st.inflight; created = suc st.created },
      )
  unfolding start_join
  unregistered_joins id st e = rw e refl

  arrive-IsShared :
      (id : String) (s : Calls)
      → IsShared request_id s
      → IsShared request_id (enroll id (start_join id s.flights) s)
  unfolding start_join
  arrive-IsShared id s h = by_entry (dict_get id s.flights.inflight) refl
    where
      by_entry :
          (e : Option ℕ)
          → dict_get id s.flights.inflight ≡ e
          → IsShared request_id (enroll id (join_entry id s.flights e) s)
      by_entry (some n) e = h
      by_entry none e = ground (
        arith,
        h,
        e,
        string_eq.beq_iff id request_id,
        registered-put id s.flights.created s.flights (suc s.flights.created),
      )

  deleted : (id : String) (st : Flights) → dict_get id (dict_del id st.inflight) ≡ none
  deleted id st =
      get-del id id st.inflight ∙ ap (λ b. if b then none else dict_get id st.inflight) (same_id id)

  taken-IsShared :
      (id : String) (n : ℕ) (s : Calls)
      → IsShared request_id s
      → is_registered id n s.flights ≡ true
      → IsShared request_id (
          after_round id n
            (start_join id (record s.flights { inflight = dict_del id s.flights.inflight }))
            s)
  taken-IsShared id n s h r =
      subst (λ j. IsShared request_id (after_round id n j s))
        (sym (
          unregistered_joins id (record s.flights { inflight = dict_del id s.flights.inflight })
            (deleted id s.flights)))
        (ground (
          arith,
          h,
          registered-put id s.flights.created
              (record s.flights { inflight = dict_del id s.flights.inflight })
              (suc s.flights.created),
          registered-del id s.flights,
        ))

  round-IsShared :
      (id : String) (n : ℕ) (s : Calls)
      → IsShared request_id s
      → IsShared request_id (after_round id n (wait_round id n s.flights) s)
  unfolding wait_round
  round-IsShared id n s h = by_result (result_of (dict_get n s.flights.results))
    where
      by_result :
          (r : Option Fetch) → IsShared request_id (after_round id n (take_over id n s.flights r) s)
      by_result (some f) = h
      by_result none = elim (Bool-cases (is_registered id n s.flights)) [
        | inl r ↦ rw r (taken-IsShared id n s h r)
        | inr r ↦ rw r h
      ]

  leave-IsShared :
      (id : String) (n : ℕ) (result : Option Fetch) (s : Calls)
      → IsShared request_id s
      → any (is_call id n) s.sending ≡ true
      → IsShared request_id
          (record s { flights = leave id n result s.flights; sending = drop_call id n s.sending })
  unfolding leave
  leave-IsShared id n result s h there = elim (Bool-cases (is_registered id n s.flights)) [
    | inl r ↦ rw r (
        ground (
          arith,
          h,
          senders-drop_call request_id id n s.sending there,
          registered-del id s.flights,
        ))
    | inr r ↦ rw r (ground (arith, h, senders-drop_call request_id id n s.sending there))
  ]

  Step-IsShared : {s t : Calls} → Step s t → IsShared request_id s → IsShared request_id t
  Step-IsShared {s} (arrive id) h = arrive-IsShared id s h
  Step-IsShared {s} (round id n there) h = round-IsShared id n s h
  Step-IsShared {s} (go id n result there) h = leave-IsShared id n result s h there

  ReachCalls-IsShared : {s : Calls} → ReachCalls s → IsShared request_id s
  ReachCalls-IsShared begin = omega arith
  ReachCalls-IsShared (step r t) = Step-IsShared t (ReachCalls-IsShared r)

one_at_most : (b : Bool) → one_if b ≤ 1
one_at_most true = omega arith
one_at_most false = omega arith

-- However the calls arrive, wait, time out and leave, no more of them send for a request at a time than
-- one, and one for each time that a flight of that request was taken over.
pub senders_bounded :
    (request_id : String) {s : Calls}
    → ReachCalls s
    → senders request_id s.sending ≤ 1 + times request_id s.takeovers
senders_bounded request_id {s} r = omega (
  arith,
  ReachCalls-IsShared request_id r,
  one_at_most (is_some (dict_get request_id s.flights.inflight)),
)

unregistered_after_leave :
    (id : String) (n : ℕ) (result : Option Fetch) (st : Flights)
    → is_registered id n (leave id n result st) ≡ false
unfolding leave
unregistered_after_leave id n result st = elim (Bool-cases (is_registered id n st)) [
  | inl r ↦ rw r (ground (arith, deleted id id st))
  | inr r ↦ rw r r
]

result_after_leave :
    (id : String) (n : ℕ) (result : Option Fetch) (st : Flights)
    → result_of (dict_get n (leave id n result st).results) ≡ result
unfolding leave
result_after_leave id n result st = ground (arith, get-put n n result st.results)

-- After the owner of a flight has left with a result, a round of any call that waits for the
-- flight shares that result; after it has left without one, a round changes nothing and the call
-- waits for the same flight again.
pub wait_after_leave :
    (id : String) (n : ℕ) (f : Fetch) (st : Flights)
    → (wait_round id n (leave id n (some f) st) ≡ (shares f, leave id n (some f) st))
      × (wait_round id n (leave id n none st) ≡ (waits n, leave id n none st))
unfolding wait_round
wait_after_leave id n f st = (
  ap (take_over id n (leave id n (some f) st)) (result_after_leave id n (some f) st),
  ap (take_over id n (leave id n none st)) (result_after_leave id n none st)
      ∙ rw (unregistered_after_leave id n none st) refl,
)
