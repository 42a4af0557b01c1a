-- ===== src/Dispatch/Laws/Recovery.antt =====
-- What `recover` settles, and what it must leave alone.
use text.Mathlib.TextEquality.{eq_iff}
use mathlib.Core.List.{Memᴰ}
use mathlib.Core.Bool.{false≢true}
use personal_world.Prelude.{
  ℕ, ◌+◌, ◌≤◌, ◌<◌, String, true, false, Option, none, some, List, [], ◌∷◌, ◌≡◌, ◌≢◌, ◌↔◌, ◌⊎◌, inl,
  inr, refl, arith, ◌&&◌, ◌||◌, ◌==◌, nat_eq, nat_beq_iff, elem, sym, ◌∙◌, Bool-cases,
}
use personal_world.Table.{find_by-update_where, map_row}
use personal_world.Dispatch.Rows.{
  Db, Dispatcher, Execution, unknown, Lease, Identity, lease_ttl_s, lease_renew_s,
}
use personal_world.Dispatch.Base.{find_exec, exec_id, is_unsettled, opt_is}
use personal_world.Dispatch.Recover.{recover, is_gone, alive_ids, orphaned, interrupted}

find-recover :
    (d : Dispatcher) (now k : ℕ) (db : Db)
    → find_exec k (recover d now db).1
      ≡ map_row
          (λ e.
            is_unsettled e.state && orphaned (d.instance_id ∷ alive_ids d now db.leases) e.owner_id)
          (λ e. record e { state = unknown; finished_at = some now; evidence = some interrupted })
          (find_exec k db)
unfolding recover
find-recover d now k db = find_by-update_where exec_id _ _ (λ e. refl) k db.executions

-- A process whose lease is not gone is among the living.
alive_mem :
    (d : Dispatcher) (now : ℕ) (leases : List Lease) {l : Lease}
    → Memᴰ l leases
    → is_gone d.identity now l ≡ false
    → elem l.instance_id (d.instance_id ∷ alive_ids d now leases) ≡ true
unfolding elem alive_ids
alive_mem d now [] m g = elim m [ ]
alive_mem d now (l' ∷ leases) {l = l} (Memᴰ.head e) g =
    ground (arith, e, g, nat_beq_iff d.instance_id l.instance_id)
alive_mem d now (l' ∷ leases) {l = l} (Memᴰ.tail m) g = ground (arith, alive_mem d now leases m g)

-- `recover` never touches an execution of its own process, nor one of a process whose lease shows
-- that it may live.
recover_spares_living :
    (d : Dispatcher) (now k : ℕ) (db : Db) {x : Execution} {o : ℕ}
    → find_exec k db ≡ some x
    → x.owner_id ≡ some o
    → (o ≡ d.instance_id)
      ⊎ ((l : Lease) × Memᴰ l db.leases × (l.instance_id ≡ o) × (is_gone d.identity now l ≡ false))
    → find_exec k (recover d now db).1 ≡ some x
recover_spares_living d now k db {x = x} {o = o} h own (inl e) =
    find-recover d now k db ∙ unfold elem in ground (arith, h, own, e)
recover_spares_living d now k db {x = x} {o = o} h own (inr (l, m, e, g)) =
    find-recover d now k db ∙ ground (arith, h, own, e, alive_mem d now db.leases m g)

-- An id that is alive has a lease that is not gone.
alive_has_lease :
    (d : Dispatcher) (now o : ℕ) (leases : List Lease)
    → elem o (alive_ids d now leases) ≡ true
    → (l : Lease) × Memᴰ l leases × (l.instance_id ≡ o) × (is_gone d.identity now l ≡ false)
unfolding elem alive_ids
alive_has_lease d now o [] h = cc
alive_has_lease d now o (l ∷ leases) h =
    elim (Bool-cases ((l.instance_id == d.instance_id) || is_gone d.identity now l)) [
      | inl e ↦ later (alive_has_lease d now o leases (ground (arith, h, e)))
      | inr e ↦ elim (Bool-cases (l.instance_id == o)) [
        | inl f ↦ (l, Memᴰ.head refl, ground (arith, f), ground (arith, e))
        | inr f ↦ later (alive_has_lease d now o leases (ground (arith, h, e, f)))
      ]
    ]
  where
    later :
        ((x : Lease) × Memᴰ x leases × (x.instance_id ≡ o) × (is_gone d.identity now x ≡ false))
        → (x : Lease) × Memᴰ x (l ∷ leases)
          × (x.instance_id ≡ o)
          × (is_gone d.identity now x ≡ false)
    later (x, m, e, g) = (x, Memᴰ.tail m, e, g)

-- An interrupted execution of a process that is not this one and has no living lease becomes UNKNOWN,
-- with its other columns kept; it is not sent again.
pub recover_settles_orphans :
    (d : Dispatcher) (now k : ℕ) (db : Db) {x : Execution} {o : ℕ}
    → find_exec k db ≡ some x
    → is_unsettled x.state ≡ true
    → x.owner_id ≡ some o
    → o ≢ d.instance_id
    → ((l : Lease) → Memᴰ l db.leases → l.instance_id ≡ o → is_gone d.identity now l ≡ true)
    → find_exec k (recover d now db).1
      ≡ some (record x { state = unknown; finished_at = some now; evidence = some interrupted })
recover_settles_orphans d now k db {x = x} {o = o} h waits own other gone =
    find-recover d now k db ∙ ground (arith, h, waits, own, dead)
  where
    dead : elem o (d.instance_id ∷ alive_ids d now db.leases) ≡ false
    dead = elim (Bool-cases (elem o (alive_ids d now db.leases))) [
      | inl e ↦
          let (l, m, i, g) = alive_has_lease d now o db.leases e in
          absurd (false≢true (sym g ∙ gone l m i))
      | inr e ↦ unfold elem in ground (arith, e, other)
    ]

-- A lease of another host is gone exactly when it has lapsed, whatever its process id or boot.
other_host_gone_iff :
    (me : Identity) (now : ℕ) (l : Lease)
    → ((host : String) → l.host ≡ some host → host ≢ me.host)
    → (is_gone me now l ≡ true) ↔ (l.heartbeat + lease_ttl_s ≤ now)
unfolding is_gone
other_host_gone_iff me now l far = (λ h. ground (arith, h, elsewhere), λ h. ground (arith, h))
  where
    at_host : (o : Option String) → l.host ≡ o → opt_is o me.host ≡ false
    at_host none e = refl
    at_host (some host) e = elim (Bool-cases (opt_is (some host) me.host)) [
      | inl s ↦ absurd (far host e ((eq_iff host me.host).0 s))
      | inr s ↦ s
    ]

    elsewhere : opt_is l.host me.host ≡ false
    elsewhere = at_host l.host refl

-- A lease of this boot that has beaten within the last beat's interval is never gone: a live process
-- cannot be settled early.
fresh_lease_lives :
    (me : Identity) (now : ℕ) (l : Lease)
    → l.boot_id ≡ some me.boot
    → now < l.heartbeat + lease_renew_s
    → is_gone me now l ≡ false
unfolding is_gone
fresh_lease_lives me now l boot fresh = ground (arith, boot, fresh, eq_iff me.boot me.boot)
