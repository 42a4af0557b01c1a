-- ===== src/Dispatch/Laws/Requests.antt =====
-- What `request_authorization` and `request_retry` store, and when the approval is waived.
use personal_world.Prelude.{
  ℕ, String, Bool, true, false, Option, none, some, [], ◌∷◌, ◌≡◌, ◌↔◌, ◌⊎◌, inl, inr, refl, arith,
  nat_eq, Option-cases, Bool-cases, ◌++◌,
}
use personal_world.Tx.{ok}
use personal_world.Table.{find_by, find_by-append}
use personal_world.Value.{Value}
use personal_world.Authn.Principal.{Principal, owner}
use personal_world.Config.Models.{
  Effect, writes, reads, Effect, resolved_effect, write_access, never,
}
use personal_world.Config.Store.{version_of}
use personal_world.Dispatch.Rows.{
  Authorization, pending, approved, policy_never, Db, Dispatcher, Execution, unknown, succeeded,
}
use personal_world.Dispatch.Base.{Target, target_of, find_auth, find_exec, auth_id, is_unsettled}
use personal_world.Dispatch.Request.{
  check_request, or_empty, auto_approved, request_authorization, new_authorization,
}
use personal_world.Dispatch.Recover.{request_retry, may_have_run, params_again}
use personal_world.Dispatch.Execute.{receipt}

-- When the policy waives the approval: the action is configured to need none, the request is no retry,
-- Project Home does not govern, and it reads, or it is the owner's, who waived it for a write action.
pub record MayWaive (d : Dispatcher) (p : Principal) (t : Target) (retry_of : Option ℕ)
    : Type 0 where
  pub needs_none : t.action.approval ≡ never
  pub no_retry : retry_of ≡ none
  pub ours : d.ph_governs t.provider ≡ false
  pub by_effect :
      (resolved_effect t.request ≡ reads)
      ⊎ ((p.kind ≡ owner)
          × (t.action.owner_waives_approval ≡ true)
          × (t.action.access ≡ write_access))

auto_approved-MayWaive :
    (d : Dispatcher) (p : Principal) (t : Target) (retry_of : Option ℕ)
    → (auto_approved d p t retry_of ≡ true) ↔ MayWaive d p t retry_of
unfolding auto_approved
auto_approved-MayWaive d p t retry_of = (
  λ h. record {
    needs_none = ground (arith, h);
    no_retry = ground (arith, h);
    ours = ground (arith, h);
    by_effect = of_effect (resolved_effect t.request) refl h;
  },
  λ m. reverse m.by_effect m.needs_none m.no_retry m.ours,
)
  where
    of_effect :
        (f : Effect)
        → resolved_effect t.request ≡ f
        → auto_approved d p t retry_of ≡ true
        → (resolved_effect t.request ≡ reads)
          ⊎ ((p.kind ≡ owner)
              × (t.action.owner_waives_approval ≡ true)
              × (t.action.access ≡ write_access))
    of_effect reads e h = inl e
    of_effect writes e h = inr (ground (arith, e, h), ground (arith, e, h), ground (arith, e, h))

    reverse :
        ((resolved_effect t.request ≡ reads)
          ⊎ ((p.kind ≡ owner)
              × (t.action.owner_waives_approval ≡ true)
              × (t.action.access ≡ write_access)))
        → t.action.approval ≡ never
        → retry_of ≡ none
        → d.ph_governs t.provider ≡ false
        → auto_approved d p t retry_of ≡ true
    reverse (inl e) a b c = ground (arith, e, a, b, c)
    reverse (inr (e, f, g)) a b c = ground (arith, e, f, g, a, b, c)

-- The row that a successful request answers with is the one that it inserted, under a fresh id.
pub request_ok :
    (d : Dispatcher) (p : Principal) (action_id : String) (params : Option Value)
    (key : Option String) (retry_of : Option ℕ) (warn : Bool) (now aid : ℕ) (db : Db)
    {b : Authorization}
    → (request_authorization d p action_id params key retry_of warn now aid db).0 ≡ ok b
    → (t : Target) × (version : String) × (target_of d.store action_id ≡ some t)
      × (version_of d.store action_id ≡ some version)
      × (check_request d p t (or_empty params) key ≡ ok tt)
      × (b ≡ new_authorization d p action_id t version (or_empty params) key retry_of warn now aid)
request_ok d p action_id params key retry_of warn now aid db {b = b} h =
    elim (Option-cases (target_of d.store action_id)) [
      | inl e ↦ absurd (unfold request_authorization in ground (arith, e))
      | inr (t, e) ↦ elim (Option-cases (version_of d.store action_id)) [
        | inl f ↦ absurd (unfold request_authorization in ground (arith, e, f))
        | inr (v, f) ↦ (
          t,
          v,
          e,
          f,
          unfold request_authorization in ground (arith, e, f),
          unfold request_authorization new_authorization find_by in
              ground (
                arith,
                e,
                f,
                find_by-append auth_id aid db.authorizations (
                    new_authorization d p action_id t v (or_empty params) key retry_of warn now aid
                    ∷ []),
              ),
        )
      ]
    ]

-- What is answered is what is stored, and nothing else is.
request_stored :
    (d : Dispatcher) (p : Principal) (action_id : String) (params : Option Value)
    (key : Option String) (retry_of : Option ℕ) (warn : Bool) (now aid : ℕ) (db : Db)
    {b : Authorization}
    → (request_authorization d p action_id params key retry_of warn now aid db).0 ≡ ok b
    → (find_auth aid db ≡ none)
      × ((request_authorization d p action_id params key retry_of warn now aid db).1
          ≡ record db { authorizations = db.authorizations ++ (b ∷ []) })
request_stored d p action_id params key retry_of warn now aid db {b} h =
    let (t, v, e, f, c, same) =
      request_ok d p action_id params key retry_of warn now aid db {b = b} h in
    elim (Option-cases (find_auth aid db)) [
      | inl g ↦ (g, unfold request_authorization in ground (arith, e, f, c, g, same))
      | inr (a, g) ↦
          absurd (unfold request_authorization new_authorization in ground (arith, h, e, f, c, g))
    ]

-- A successful request stores one row under a fresh id, and it waits for an approval, without
-- authority, except where the policy waives the approval: exactly there it is approved, by that
-- policy.
pub waiver_sound :
    (d : Dispatcher) (p : Principal) (action_id : String) (params : Option Value)
    (key : Option String) (retry_of : Option ℕ) (warn : Bool) (now aid : ℕ) (db : Db)
    {b : Authorization}
    → (request_authorization d p action_id params key retry_of warn now aid db).0 ≡ ok b
    → (find_auth aid db ≡ none)
      × ((request_authorization d p action_id params key retry_of warn now aid db).1
          ≡ record db { authorizations = db.authorizations ++ (b ∷ []) })
      × ((t : Target) × (target_of d.store action_id ≡ some t)
          × (((b.state ≡ approved)
                × (b.authority ≡ some policy_never)
                × (b.approved_at ≡ some now)
                × MayWaive d p t retry_of)
              ⊎ ((b.state ≡ pending)
                  × (b.authority ≡ none)
                  × (b.approved_at ≡ none)
                  × (¬ (MayWaive d p t retry_of)))))
unfolding new_authorization
waiver_sound d p action_id params key retry_of warn now aid db {b} h =
    let (t, v, e, f, c, same) =
      request_ok d p action_id params key retry_of warn now aid db {b = b} h in
    let (fresh, stored) =
      request_stored d p action_id params key retry_of warn now aid db {b = b} h in
    (
      fresh,
      stored,
      (
        t,
        e,
        elim (Bool-cases (auto_approved d p t retry_of)) [
          | inl w ↦ inl (
            ground (arith, same, w),
            ground (arith, same, w),
            ground (arith, same, w),
            (auto_approved-MayWaive d p t retry_of).0 w,
          )
          | inr w ↦ inr (
            ground (arith, same, w),
            ground (arith, same, w),
            ground (arith, same, w),
            λ m. ground (arith, w, (auto_approved-MayWaive d p t retry_of).1 m),
          )
        ],
      ),
    )

retry_as_request :
    (d : Dispatcher) (p : Principal) (eid now aid : ℕ) (db : Db) {b : Authorization}
    → (request_retry d p eid now aid db).0 ≡ ok b
    → (x : Execution) × (action_id : String) × (params : Option Value) × (find_exec eid db ≡ some x)
      × (is_unsettled x.state ≡ false)
      × ((request_authorization d p action_id params x.idempotency_key
            (some eid)
            (may_have_run x.state)
            now
            aid
            db).0
          ≡ ok b)
unfolding request_retry receipt
retry_as_request d p eid now aid db {b = b} h = elim (Option-cases (find_exec eid db)) [
  | inl e ↦ absurd (ground (arith, e))
  | inr (x, e) ↦ elim (Option-cases (find_auth x.authorization_id db)) [
    | inl f ↦ absurd (ground (arith, e, f))
    | inr (a, f) ↦ (
      x,
      a.action_id,
      params_again (d.codec.loads a.params_json),
      e,
      ground (arith, e, f),
      ground (arith, e, f),
    )
  ]
]

-- A retry always waits for a new approval, names the execution it repeats, and warns exactly where
-- that one may have run; an execution that is still under way cannot be retried.
retry_waits :
    (d : Dispatcher) (p : Principal) (eid now aid : ℕ) (db : Db) {b : Authorization}
    → (request_retry d p eid now aid db).0 ≡ ok b
    → (b.state ≡ pending)
      × (b.authority ≡ none)
      × (b.retry_of ≡ some eid)
      × ((x : Execution) × (find_exec eid db ≡ some x)
          × (is_unsettled x.state ≡ false)
          × ((b.previous_may_have_run ≡ true) ↔ ((x.state ≡ unknown) ⊎ (x.state ≡ succeeded))))
unfolding new_authorization auto_approved
retry_waits d p eid now aid db {b = b} h =
    let (x, action_id, params, e, u, r) = retry_as_request d p eid now aid db {b = b} h in
    let (t, version, target, current, checked, same) =
      request_ok d p action_id params x.idempotency_key (some eid) (may_have_run x.state) now aid db
        {b = b} r in
    (
      ground (arith, same),
      ground (arith, same),
      ground (arith, same),
      (x, e, u, ground (arith, same)),
    )
