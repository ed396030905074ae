-- ===== src/Handlers/Events/Refusals.antt =====
-- What an action may do to the tables.
use billtracker_plugin.Base.{
  ◌≡◌, ◌≢◌, refl, Bool, true, Option, none, some, List, Bytes, codes, exists, update, same,
  same_sound, Bool-cases, ◌⊎◌, inl, inr,
}
use billtracker_plugin.Base.Int.{ℤ, id_is}
use billtracker_plugin.Errors.{Result, ok, err}
use billtracker_plugin.Models.Rows.{Instant, Tables}
use billtracker_plugin.Models.Database.{Db, pure, resume, attempt}
use billtracker_plugin.Models.Instances.{paid_now}
use billtracker_plugin.Models.Instances.Ensure.{MarksPaid, mark_paid_outcome}
use billtracker_plugin.Handlers.Auth.{Answer, server_error, served}
use billtracker_plugin.Handlers.Events.{scan_uid, mark_scanned, mark_in, action}

abbrev Unit0 : Type 0
Unit0 = Unit {0}

-- Either the instance is paid and the answer is 200, or the answer is another and nothing changed.
abbrev pub Marks : Instant → ℤ → Tables → Result (Answer Unit0) × Db → Type 0
Marks now id t after =
    (after.0 ≡ ok (served tt))
    × (exists (λ i. id_is id i.id) t.bill_instances ≡ true)
    × (after.1.tables
        ≡ record t { bill_instances = update (λ i. id_is id i.id) (paid_now now) t.bill_instances })

abbrev pub ChangesNothing : Tables → Result (Answer Unit0) × Db → Type 0
ChangesNothing t after = (after.0 ≢ ok (served tt)) × (after.1.tables ≡ t)

-- An action that marks names `mark_paid`, and the instance in its uid.
abbrev pub ActsOnly : Instant → Bytes → Option Bytes → Tables → Result (Answer Unit0) × Db → Type 0
ActsOnly now action_id body t after =
    ((uid : Bytes) × (id : ℤ) × (action_id ≡ codes "mark_paid")
      × (body ≡ some uid)
      × (scan_uid uid ≡ some id)
      × Marks now id t after)
    ⊎ ChangesNothing t after

module _ (now : Instant) (t : Tables) where
  answered :
      (id : ℤ) (x : Result Unit0 × Db)
      → MarksPaid now id t x
      → Marks now id t (resume x.0 (λ _. pure server_error) (λ _. pure (served tt)) x.1)
        ⊎ ChangesNothing t (resume x.0 (λ _. pure server_error) (λ _. pure (served tt)) x.1)
  unfolding pure
  answered id (ok u, db) (inl (e, there, tables)) = inl (refl, there, tables)
  answered id (ok u, db) (inr (e, bad, tables)) = cc
  answered id (err e, db) (inl (is, there, tables)) = cc
  answered id (err e, db) (inr (x, bad, tables)) = inr (λ p. cc, tables)

  scanned :
      (action_id uid : Bytes) (outages : List Bool) (o : Option ℤ)
      → action_id ≡ codes "mark_paid"
      → scan_uid uid ≡ o
      → ActsOnly now action_id
          (some uid)
          t
          (mark_scanned now o (record { tables = t; outages = outages }))
  unfolding attempt pure
  scanned action_id uid outages none e is = inr (λ p. cc, refl)
  scanned action_id uid outages (some id) e is =
      elim (answered id _ (mark_paid_outcome now id t outages)) [
        | inl marks ↦ inl (uid, id, e, refl, is, marks)
        | inr nothing ↦ inr nothing
      ]

  given :
      (action_id : Bytes) (outages : List Bool) (body : Option Bytes)
      → action_id ≡ codes "mark_paid"
      → ActsOnly now action_id body t (mark_in now body (record { tables = t; outages = outages }))
  unfolding pure
  given action_id outages none e = inr (λ p. cc, refl)
  given action_id outages (some uid) e = scanned action_id uid outages (scan_uid uid) e refl

  -- Whatever the action's name, its body and the database's failures, the handler answers 200 only
  -- where the name is `mark_paid`, the uid names an instance in the table, and just the rows with
  -- that id are paid as of now; with every other answer it has changed nothing.
  pub action_outcome :
      (action_id : Bytes) (body : Option Bytes) (outages : List Bool)
      → ActsOnly now action_id body t
          (action now action_id body (record { tables = t; outages = outages }))
  unfolding action pure
  action_outcome action_id body outages = elim (Bool-cases (same action_id (codes "mark_paid"))) [
    | inl e ↦ rw e (given action_id outages body (same_sound action_id (codes "mark_paid") e))
    | inr e ↦ rw e (inr (λ p. cc, refl))
  ]
