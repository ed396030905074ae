-- ===== src/Handlers/Bootstrap/HandMade/Kept.antt =====
-- `BootstrapBills` step by step, beside the bills of the settings page.
use billtracker_plugin.Base.{
  ℕ, ◌≡◌, sym, subst, Bool, true, false, not, ◌||◌, Option, some, none, List, [], ◌∷◌, Bytes,
  is_empty, first, ◌==◌, Bool-cases, Option-cases, ==_iff, first-passes, inl, inr,
}
use billtracker_plugin.Base.Int.{ℤ, pos, ltb_ℤ}
use billtracker_plugin.Errors.{Error, ok, ok-injective}
use billtracker_plugin.Clock.{Clock}
use billtracker_plugin.Connectors.{Registry}
use billtracker_plugin.Crypto.{Aead, encrypt}
use billtracker_plugin.Schedule.{BillDefinition}
use billtracker_plugin.Models.Rows.{Tables, VendorConnection}
use billtracker_plugin.Models.Database.{Db, Exec, Query, attempt, statement}
use billtracker_plugin.Models.Database.Keeps.{
  Keeps, Keeps-statement, Keeps-attempt, Keeps-ignoring, Keeps-pure, Keeps-lift, Keeps-if,
  at_resume,
}
use billtracker_plugin.Models.Vendors
use billtracker_plugin.Scheduler.{refresh_vendor_now, refresh_vendor_if_stale}
use billtracker_plugin.Handlers.Forms.{BillBootstrap}
use billtracker_plugin.Handlers.Bootstrap.{attach, attach_vendor_connection, follow_up, on_existing}
use billtracker_plugin.Handlers.Bootstrap.HandMade.{
  HandMade, Unused, update_amount-HandMade, update_bootstrap-HandMade, ensure_instance-HandMade,
  generate_instances_for-HandMade, vendors_upsert-HandMade, mark_synced-HandMade,
}

-- What a computation gives may be relied on behind it: `m` keeps `P`, and a value that it returns
-- from tables with `P` satisfies `Q`.
pub record Yields {A : Type 0} (P : Tables → Type 0) (Q : A → Type 0) (m : Exec A) : Type 0 where
  pub keeps : Keeps P m
  pub yields : (db : Db) (a : A) → P db.tables → (m db).0 ≡ ok a → Q a

module _ {A : Type 0} {P : Tables → Type 0} {Q : A → Type 0} where
  pub yields_outages :
      (q : Query A)
      → ((t : Tables) (a : A) → P t → (q t).0 ≡ ok a → Q a)
      → (t : Tables) (outages : List Bool) (a : A) → P t
      → (statement q (record { tables = t; outages = outages })).0 ≡ ok a
      → Q a
  unfolding statement
  yields_outages q k t [] a h e = k t a h e
  yields_outages q k t (false ∷ rest) a h e = k t a h e
  yields_outages q k t (true ∷ rest) a h e = cc

  pub statement-Yields :
      (q : Query A)
      → ((t : Tables) → P t → P (q t).1)
      → ((t : Tables) (a : A) → P t → (q t).0 ≡ ok a → Q a)
      → Yields P Q (statement q)
  statement-Yields q k y = record {
    keeps = Keeps-statement q k;
    yields = λ db a h e. yields_outages q y db.tables db.outages a h e;
  }

  pub Keeps-attempt-Yields :
      {B : Type 0} (m : Exec A) (handler : Error → Exec B) (f : A → Exec B)
      → Yields P Q m
      → ((e : Error) → Keeps P (handler e))
      → ((a : A) → Q a → Keeps P (f a))
      → Keeps P (attempt m handler f)
  unfolding attempt
  Keeps-attempt-Yields m handler f ym kh kf = record {
    at = λ db h.
        at_resume (m db).0 handler f (m db).1 kh (λ a e. kf a (ym.yields db a h e))
          (ym.keeps.at db h);
  }

module _ (ours : List BillDefinition) (read_file : Bytes → Option Bytes) (gcm : Aead)
    (random : Bytes → Option Bytes) (registry : Registry) (clock : Clock) (minutes days : ℤ) where
  refresh-HandMade :
      (conn : VendorConnection)
      → Unused conn.bill_definition_id ours
      → Keeps (HandMade ours) (refresh_vendor_now gcm registry clock conn)
  unfolding refresh_vendor_now
  refresh-HandMade conn free =
      let failed : (e : Error) → Keeps (HandMade ours) _ = λ e.
        Keeps-ignoring _ _ (mark_synced-HandMade ours clock.now conn.id [] (some e))
          (Keeps-pure tt) in
      Keeps-attempt _ _ _ (Keeps-lift _) failed λ connector.
        Keeps-attempt _ _ _ (Keeps-lift _) failed λ password.
          Keeps-attempt _ _ _ (Keeps-lift _) failed λ s.
            Keeps-ignoring _ _ (update_amount-HandMade ours _ _ free) (
              Keeps-ignoring _ _
                (Keeps-if (ltb_ℤ (pos 0) s.amount_cents) _ _
                  (λ _. ensure_instance-HandMade ours conn.bill_definition_id s.due_date)
                  (λ _. Keeps-pure tt))
                (Keeps-ignoring _ _ (mark_synced-HandMade ours _ _ _ none) (Keeps-pure tt)))

  get_by_bill-Yields :
      (bill : ℕ)
      → Yields (HandMade ours) (λ conn. conn.bill_definition_id ≡ bill) (Vendors.get_by_bill bill)
  unfolding Vendors.get_by_bill
  get_by_bill-Yields bill =
      statement-Yields _ (λ t h. h)
        (λ t conn h e.
          elim (Option-cases (first (λ v. v.bill_definition_id == bill) t.vendor_connections)) [
            | inl lost ↦ cc (rw lost at e)
            | inr (v, found) ↦
                let is : v ≡ conn = ok-injective (rw found at e) in
                subst (λ c. c.bill_definition_id ≡ bill) is
                  ((==_iff _ _).0 (first-passes _ t.vendor_connections v found))
          ])

  attach-HandMade :
      (bill : ℕ) (entry : BillBootstrap) (password : Bytes)
      → Unused bill ours
      → Keeps
          (HandMade ours)
          (attach read_file gcm random registry clock minutes days bill entry password)
  unfolding refresh_vendor_if_stale
  attach-HandMade bill entry password free =
      Keeps-if (is_empty entry.username || is_empty password) _ _ (λ _. Keeps-pure tt)
        (λ _.
          Keeps-attempt _ _ _ (Keeps-lift (encrypt gcm (random password) password))
            (λ _. Keeps-pure tt)
            (λ encrypted.
              Keeps-attempt _ _ _ (vendors_upsert-HandMade ours _) (λ _. Keeps-pure tt)
                (λ _.
                  Keeps-attempt-Yields _ _ _ (get_by_bill-Yields bill) (λ _. Keeps-pure tt)
                    (λ conn is.
                      Keeps-if _ _ _ (λ _. Keeps-pure tt)
                        (λ _. refresh-HandMade conn (subst (λ k. Unused k ours) (sym is) free))))))

  pub follow_up-HandMade :
      (entry : BillBootstrap) (def : BillDefinition)
      → Unused def.id ours
      → Keeps (HandMade ours) (follow_up read_file gcm random registry clock minutes days entry def)
  unfolding attach_vendor_connection
  follow_up-HandMade entry def free =
      Keeps-if (not (is_empty entry.connector)) _ _
        (λ _.
          Keeps-attempt _ _ (attach read_file gcm random registry clock minutes days def.id entry)
            (Keeps-lift _) (λ _. Keeps-pure tt)
            (λ password. attach-HandMade def.id entry password free))
        (λ _.
          Keeps-ignoring _ _ (generate_instances_for-HandMade ours clock def days) (Keeps-pure tt))

  pub on_existing-HandMade :
      (entry : BillBootstrap) (def existing : BillDefinition)
      → (existing.bootstrap_managed ≡ true → Unused existing.id ours)
      → Keeps
          (HandMade ours)
          (on_existing read_file gcm random registry clock minutes days entry def existing)
  on_existing-HandMade entry def existing free = elim (Bool-cases existing.bootstrap_managed) [
    | inl managed ↦
        let unused = free managed in
        rw managed (
          Keeps-attempt _ _ _ (update_bootstrap-HandMade ours existing.id _ unused)
            (λ _. Keeps-pure tt) (λ _. follow_up-HandMade entry _ unused))
    | inr theirs ↦ rw theirs (Keeps-pure tt)
  ]
