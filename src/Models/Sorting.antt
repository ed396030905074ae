-- ===== src/Models/Sorting.antt =====
-- `ORDER BY`: insertion sort, which keeps the order of the table among rows that sort alike.
use billtracker_plugin.Base.{Bool, List, [], ◌∷◌, if◌then◌else◌, All, Bool-cases, inl, inr}

module _ {ℓ} {A : Type ℓ} (no_later : A → A → Bool) where
  insert : A → List A → List A
  insert x [] = x ∷ []
  insert x (y ∷ ys) = let rest = insert x ys in if no_later x y then x ∷ y ∷ ys else y ∷ rest

  unfoldable pub order_by : List A → List A
  unfolding insert
  order_by [] = []
  order_by (x ∷ xs) = insert x (order_by xs)

  module _ (P : A → Type 0) where
    insert-All : (x : A) (xs : List A) → P x → All P xs → All P (insert x xs)
    unfolding insert
    insert-All x [] px h = (px, tt)
    insert-All x (y ∷ ys) px h = elim (Bool-cases (no_later x y)) [
      | inl e ↦ rw e (px, h)
      | inr e ↦ rw e (h.0, insert-All x ys px h.1)
    ]

    -- What holds of every row holds of every row in another order.
    pub order_by-All : (xs : List A) → All P xs → All P (order_by xs)
    unfolding order_by
    order_by-All [] h = tt
    order_by-All (x ∷ xs) h = insert-All x (order_by xs) h.0 (order_by-All xs h.1)
