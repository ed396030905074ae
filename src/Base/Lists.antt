-- ===== src/Base/Lists.antt =====
-- Lists measured by native numbers, predicates over lists, and the row operations that the SQL
-- statements of internal/models come down to.
use Prim.Native.Nat.{ℕ, zero, suc, ◌+◌}
use mathlib.Core.Path.{◌≡◌, refl, ap, subst}
use mathlib.Core.Logic.{◌⊎◌, inl, inr}
use mathlib.Core.Bool.{Bool, true, false}
use mathlib.Core.Option.{Option, none, some, some-injective}
use mathlib.Core.List.{List, [], ◌∷◌, ◌++◌}
use native.Mathlib.Omega.{arith}
use billtracker_plugin.Base.Tests.{if◌then◌else◌, Bool-cases}

module _ {ℓ} {A : Type ℓ} where
  abbrev pub length : List A → ℕ
  length [] = 0
  length (x ∷ xs) = suc (length xs)

  pub length-append : (xs ys : List A) → length (xs ++ ys) ≡ length xs + length ys
  length-append [] ys = omega arith
  length-append (x ∷ xs) ys = omega (arith, length-append xs ys)

  abbrev pub take : ℕ → List A → List A
  take zero xs = []
  take (suc n) [] = []
  take (suc n) (x ∷ xs) = x ∷ take n xs

  abbrev pub drop : ℕ → List A → List A
  drop zero xs = xs
  drop (suc n) [] = []
  drop (suc n) (x ∷ xs) = drop n xs

  pub take-append : (xs ys : List A) → take (length xs) (xs ++ ys) ≡ xs
  take-append [] ys = refl
  take-append (x ∷ xs) ys = rw (take-append xs ys)

  pub drop-append : (xs ys : List A) → drop (length xs) (xs ++ ys) ≡ ys
  drop-append [] ys = refl
  drop-append (x ∷ xs) ys = drop-append xs ys

  -- Every row has the property.
  abbrev pub All {κ} : (A → Type κ) → List A → Type κ
  All P [] = Unit
  All P (x ∷ xs) = P x × All P xs

  -- Some row has the property, with the row kept.
  abbrev pub Any : (A → Type 0) → List A → Type 0
  Any P [] = ⊥
  Any P (x ∷ xs) = P x ⊎ Any P xs

  -- `SELECT … WHERE p`, in the order of the table.
  abbrev pub select : (A → Bool) → List A → List A
  select p [] = []
  select p (x ∷ xs) = let rest = select p xs in if p x then x ∷ rest else rest

  -- `SELECT … WHERE p LIMIT 1`, and the row that `QueryRow` takes of several.
  abbrev pub first : (A → Bool) → List A → Option A
  first p [] = none
  first p (x ∷ xs) = let rest = first p xs in if p x then some x else rest

  -- `UPDATE … SET f WHERE p`.
  abbrev pub update : (A → Bool) → (A → A) → List A → List A
  update p f [] = []
  update p f (x ∷ xs) = (if p x then f x else x) ∷ update p f xs

  abbrev pub exists : (A → Bool) → List A → Bool
  exists p [] = false
  exists p (x ∷ xs) = let rest = exists p xs in if p x then true else rest

  -- No two rows have one key, with `Apart` saying that two rows' keys differ.
  abbrev pub Distinct {κ} : (A → A → Type κ) → List A → Type κ
  Distinct Apart [] = Unit
  Distinct Apart (x ∷ xs) = All (Apart x) xs × Distinct Apart xs

module _ {ℓ} {A : Type ℓ} (P : A → Type 0) where
  pub All-append : (xs ys : List A) → All P xs → All P ys → All P (xs ++ ys)
  All-append [] ys hx hy = hy
  All-append (x ∷ xs) ys hx hy = (hx.0, All-append xs ys hx.1 hy)

  pub Any-append_right : (xs ys : List A) → Any P ys → Any P (xs ++ ys)
  Any-append_right [] ys h = h
  Any-append_right (x ∷ xs) ys h = inr (Any-append_right xs ys h)

  pub All-select : (p : A → Bool) (xs : List A) → All P xs → All P (select p xs)
  All-select p [] h = tt
  All-select p (x ∷ xs) h = elim (Bool-cases (p x)) [
    | inl e ↦ rw e (h.0, All-select p xs h.1)
    | inr e ↦ rw e (All-select p xs h.1)
  ]

  pub All-of_first : (p : A → Bool) (xs : List A) {x : A} → All P xs → first p xs ≡ some x → P x
  All-of_first p [] h e = cc
  All-of_first p (y ∷ xs) {x} h e = elim (Bool-cases (p y)) [
    | inl t ↦ subst P (some-injective y x (rw t at e)) h.0
    | inr t ↦ All-of_first p xs h.1 (rw t at e)
  ]

  pub All-update :
      (p : A → Bool) (f : A → A) (xs : List A)
      → ((x : A) → p x ≡ true → P x → P (f x))
      → All P xs
      → All P (update p f xs)
  All-update p f [] keep h = tt
  All-update p f (x ∷ xs) keep h = elim (Bool-cases (p x)) [
    | inl e ↦ rw e (keep x e h.0, All-update p f xs keep h.1)
    | inr e ↦ rw e (h.0, All-update p f xs keep h.1)
  ]

  pub All-imp {κ} : {Q : A → Type κ} (xs : List A) → ((x : A) → P x → Q x) → All P xs → All Q xs
  All-imp [] f h = tt
  All-imp (x ∷ xs) f h = (f x h.0, All-imp xs f h.1)

module _ {ℓ} {A : Type ℓ} where
  -- What a selection holds has passed the test.
  pub select-passes : (p : A → Bool) (xs : List A) → All (λ x. p x ≡ true) (select p xs)
  select-passes p [] = tt
  select-passes p (x ∷ xs) = elim (Bool-cases (p x)) [
    | inl e ↦ rw e (e, select-passes p xs)
    | inr e ↦ rw e (select-passes p xs)
  ]

  pub first-passes : (p : A → Bool) (xs : List A) (x : A) → first p xs ≡ some x → p x ≡ true
  first-passes p [] x e = cc
  first-passes p (y ∷ xs) x e = elim (Bool-cases (p y)) [
    | inl t ↦ subst (λ z. p z ≡ true) (some-injective y x (rw t at e)) t
    | inr t ↦ first-passes p xs x (rw t at e)
  ]

  pub exists-none : (p : A → Bool) (xs : List A) → exists p xs ≡ false → All (λ x. p x ≡ false) xs
  exists-none p [] h = tt
  exists-none p (x ∷ xs) h = elim (Bool-cases (p x)) [
    | inl e ↦ cc (rw e at h)
    | inr e ↦ (e, exists-none p xs (rw e at h))
  ]

  pub exists-nothing :
      (p : A → Bool) (xs : List A) → All (λ x. p x ≡ false) xs → exists p xs ≡ false
  exists-nothing p [] h = refl
  exists-nothing p (x ∷ xs) h = rw h.0 (exists-nothing p xs h.1)

  pub first-none : (p : A → Bool) (xs : List A) → first p xs ≡ none → All (λ x. p x ≡ false) xs
  first-none p [] h = tt
  first-none p (x ∷ xs) h = elim (Bool-cases (p x)) [
    | inl e ↦ cc (rw e at h)
    | inr e ↦ (e, first-none p xs (rw e at h))
  ]

  pub select-nothing : (p : A → Bool) (xs : List A) → All (λ x. p x ≡ false) xs → select p xs ≡ []
  select-nothing p [] h = refl
  select-nothing p (x ∷ xs) h = rw h.0 (select-nothing p xs h.1)

  pub select-append :
      (p : A → Bool) (xs ys : List A) → select p (xs ++ ys) ≡ select p xs ++ select p ys
  select-append p [] ys = refl
  select-append p (x ∷ xs) ys = elim (Bool-cases (p x)) [
    | inl e ↦ rw (e, select-append p xs ys)
    | inr e ↦ rw e (select-append p xs ys)
  ]

  pub exists-append_left :
      (p : A → Bool) (xs ys : List A) → exists p xs ≡ true → exists p (xs ++ ys) ≡ true
  exists-append_left p [] ys h = cc
  exists-append_left p (x ∷ xs) ys h = elim (Bool-cases (p x)) [
    | inl e ↦ rw e
    | inr e ↦ rw e (exists-append_left p xs ys (rw e at h))
  ]

  pub exists-append_right :
      (p : A → Bool) (xs ys : List A) → exists p ys ≡ true → exists p (xs ++ ys) ≡ true
  exists-append_right p [] ys h = h
  exists-append_right p (x ∷ xs) ys h = elim (Bool-cases (p x)) [
    | inl e ↦ rw e
    | inr e ↦ rw e (exists-append_right p xs ys h)
  ]

  pub length-update : (p : A → Bool) (f : A → A) (xs : List A) → length (update p f xs) ≡ length xs
  length-update p f [] = refl
  length-update p f (x ∷ xs) = ap suc (length-update p f xs)

  pub update-nothing :
      (p : A → Bool) (f : A → A) (xs : List A) → All (λ x. p x ≡ false) xs → update p f xs ≡ xs
  update-nothing p f [] h = refl
  update-nothing p f (x ∷ xs) h = rw (h.0, update-nothing p f xs h.1)

  -- An update that leaves alone what is looked for.
  pub exists-update :
      (q p : A → Bool) (f : A → A) (xs : List A)
      → ((x : A) → q (f x) ≡ q x)
      → exists q (update p f xs) ≡ exists q xs
  exists-update q p f [] same_q = refl
  exists-update q p f (x ∷ xs) same_q = elim (Bool-cases (p x)) [
    | inl e ↦ rw (e, same_q x, exists-update q p f xs same_q)
    | inr e ↦ rw (e, exists-update q p f xs same_q)
  ]

  -- A selection that keeps what is looked for.
  pub exists-select :
      (q p : A → Bool) (xs : List A)
      → ((x : A) → q x ≡ true → p x ≡ true)
      → exists q xs ≡ true
      → exists q (select p xs) ≡ true
  exists-select q p [] kept h = h
  exists-select q p (x ∷ xs) kept h = elim (Bool-cases (q x)) [
    | inl e ↦ rw (kept x e, e)
    | inr e ↦
        let rest = exists-select q p xs kept (rw e at h) in
        elim (Bool-cases (p x)) [ inl k ↦ rw (k, e) rest | inr k ↦ rw k rest ]
  ]

module _ {ℓ} {A : Type ℓ} (Apart : A → A → Type 0) where
  pub Distinct-concat :
      (xs : List A) (y : A)
      → Distinct Apart xs
      → All (λ x. Apart x y) xs
      → Distinct Apart (xs ++ y ∷ [])
  Distinct-concat [] y d h = (tt, tt)
  Distinct-concat (x ∷ xs) y d h =
      (All-append (Apart x) xs (y ∷ []) d.0 (h.0, tt), Distinct-concat xs y d.1 h.1)

  pub Distinct-select :
      (p : A → Bool) (xs : List A) → Distinct Apart xs → Distinct Apart (select p xs)
  Distinct-select p [] d = tt
  Distinct-select p (x ∷ xs) d = elim (Bool-cases (p x)) [
    | inl e ↦ rw e (All-select (Apart x) p xs d.0, Distinct-select p xs d.1)
    | inr e ↦ rw e (Distinct-select p xs d.1)
  ]

  -- An update that leaves the key alone.
  pub Distinct-update :
      (p : A → Bool) (f : A → A)
      → ((x y : A) → Apart x y → Apart (f x) y)
      → ((x y : A) → Apart x y → Apart x (f y))
      → (xs : List A) → Distinct Apart xs
      → Distinct Apart (update p f xs)
  Distinct-update p f left right [] d = tt
  Distinct-update p f left right (x ∷ xs) d = (head (p x), Distinct-update p f left right xs d.1)
    where
      tail : (z : A) → All (Apart z) xs → All (Apart z) (update p f xs)
      tail z h = All-update (Apart z) p f xs (λ y _. right z y) h

      head : (b : Bool) → All (Apart (if b then f x else x)) (update p f xs)
      head true = tail (f x) (All-imp (Apart x) xs (left x) d.0)
      head false = tail x d.0
