-- ===== src/Handlers/Bootstrap/HandMade/Numbers.antt =====
-- The numbers of the bills that bills.json manages, and of those it does not.
use billtracker_plugin.Base.{
  ◌≡◌, true, false, List, [], ◌∷◌, select, exists-nothing, All, All-imp, All-select, Distinct, ◌==◌,
  Bool-cases, inl, inr, arith, if◌then◌else◌,
}
use billtracker_plugin.Schedule.{BillDefinition}
use billtracker_plugin.Handlers.Bootstrap.HandMade.{by_hand, Unused}

-- The number of a bill that bills.json manages is that of no bill of the settings page.
abbrev pub Apart : List BillDefinition → BillDefinition → Type 0
Apart ours d = d.bootstrap_managed ≡ true → Unused d.id ours

module _ (x : BillDefinition) where
  none_shares :
      (ds : List BillDefinition)
      → All (λ y. (x.id == y.id) ≡ false) ds
      → Unused x.id (select by_hand ds)
  none_shares ds h =
      exists-nothing (λ y. y.id == x.id) (select by_hand ds)
        (All-imp _ (select by_hand ds) (λ y e. ground (arith, e)) (All-select _ by_hand ds h))

  one-Apart :
      (ours : List BillDefinition) (d : BillDefinition)
      → (x.id == d.id) ≡ false
      → Apart ours d
      → Apart (if by_hand x then x ∷ ours else ours) d
  one-Apart ours d e k managed = elim (Bool-cases (by_hand x)) [
    | inl mine ↦ rw (mine, e) (k managed)
    | inr theirs ↦ rw theirs (k managed)
  ]

  later-Apart :
      (ours ds : List BillDefinition)
      → All (λ y. (x.id == y.id) ≡ false) ds
      → All (Apart ours) ds
      → All (Apart (if by_hand x then x ∷ ours else ours)) ds
  later-Apart ours [] h k = tt
  later-Apart ours (d ∷ ds) h k = (one-Apart ours d h.0 k.0, later-Apart ours ds h.1 k.1)

pub select-Apart :
    (ds : List BillDefinition)
    → Distinct (λ a b. (a.id == b.id) ≡ false) ds
    → All (Apart (select by_hand ds)) ds
select-Apart [] h = tt
select-Apart (x ∷ ds) h = (
  λ managed. rw managed (none_shares x ds h.0),
  later-Apart x (select by_hand ds) ds h.0 (select-Apart ds h.1),
)
