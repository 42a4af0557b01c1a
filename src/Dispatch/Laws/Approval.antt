-- ===== src/Dispatch/Laws/Approval.antt =====
-- Who can approve what.
use personal_world.Prelude.{
  ℕ, ◌<◌, true, false, some, ◌≡◌, inl, inr, refl, arith, ◌&&◌, ◌==◌, nat_eq, Option-cases,
}
use personal_world.Tx.{ok}
use personal_world.Table.{find_by-update_where, find_by-key}
use text.Mathlib.TextEquality.{eq_iff}
use personal_world.Authn.Principal.{Principal, owner, session, has_step_up}
use personal_world.Config.Store.{version_of}
use personal_world.Dispatch.Rows.{Authorization, pending, Db, Dispatcher}
use personal_world.Dispatch.Base.{Target, target_of, find_auth, auth_id, is_pending}
use personal_world.Dispatch.Approve.{approve, approved_by_owner}

-- What `approve` demands of the caller and of the row, and what it writes.
pub record MayApprove (d : Dispatcher) (p : Principal) (step_up_now now : ℕ) (a : Authorization)
    : Type 0 where
  pub owner_caller : p.kind ≡ owner
  pub in_session : p.via ≡ session
  pub stepped_up : has_step_up p step_up_now ≡ true
  pub was_pending : a.state ≡ pending
  pub in_time : now < a.expires_at
  pub current : version_of d.store a.action_id ≡ some a.action_version
  pub target : Target
  pub resolved : target_of d.store a.action_id ≡ some target
  pub ours : d.ph_governs target.provider ≡ false

-- `approve` succeeds only for the owner in a browser session with fresh step-up, on a pending,
-- unexpired authorization of the current version that Project Home does not govern; the row then
-- reads as approved by that owner.
pub approve_sound :
    (d : Dispatcher) (p : Principal) (aid step_up_now now : ℕ) (db : Db) {b : Authorization}
    → (approve d p aid step_up_now now db).0 ≡ ok b
    → (a : Authorization) × (find_auth aid db ≡ some a)
      × MayApprove d p step_up_now now a
      × (b ≡ approved_by_owner p now a)
approve_sound d p aid step_up_now now db {b = b} h = elim (Option-cases (find_auth aid db)) [
  | inl e ↦ absurd (unfold approve in ground (arith, e))
  | inr (a, e) ↦ elim (Option-cases (target_of d.store a.action_id)) [
    | inl f ↦ absurd (unfold approve in ground (arith, e, f))
    | inr (t, f) ↦ elim (Option-cases (version_of d.store a.action_id)) [
      | inl g ↦ absurd (unfold approve in ground (arith, e, f, g))
      | inr (v, g) ↦ (
        a,
        e,
        record {
          owner_caller = unfold approve in ground (arith, e, f, g);
          in_session = unfold approve in ground (arith, e, f, g);
          stepped_up = unfold approve in ground (arith, e, f, g);
          was_pending = unfold approve in ground (arith, e, f, g);
          in_time = unfold approve in ground (arith, e, f, g);
          current = unfold approve in ground (arith, e, f, g, eq_iff v a.action_version);
          target = t;
          resolved = f;
          ours = unfold approve in ground (arith, e, f, g);
        },
        unfold approve in
            ground (
              arith,
              e,
              f,
              g,
              find_by-key auth_id aid db.authorizations e,
              find_by-update_where auth_id
                  (λ (x : Authorization). (auth_id x == aid) && is_pending x.state)
                  (approved_by_owner p now) (λ x. refl) aid db.authorizations,
            ),
      )
    ]
  ]
]
