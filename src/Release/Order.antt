-- ===== src/Release/Order.antt =====
-- Versions are in a total order, and the newer one is never older.
use billtracker_plugin.Base.{
  Bool-cases, ℕ, ◌≡◌, refl, sym, ◌∙◌, inl, inr, Bool, true, false, not, Option, none, some, Bytes,
  arith, if◌then◌else◌, ◌==◌, ◌+◌, ltb,
}
use billtracker_plugin.Base.Int.{ℤ, pos, negsuc, ltb_ℤ, neg_ℤ, pos_part, neg_part}
use billtracker_plugin.Release.{
  Semver, cmp_int, differ, cmp_dev, compare_versions, parse_version, is_newer, is_later,
}

-- Whether `a` comes later than `b`.
abbrev pub later : Semver → Semver → Bool
later a b = ltb_ℤ (pos 0) (compare_versions a b)

-- Two integers differ when their cross sums do.
differ_lem : (a b : ℤ) → differ a b ≡ not (pos_part a + neg_part b == pos_part b + neg_part a)
differ_lem (pos a) (pos b) = ground arith
differ_lem (negsuc a) (negsuc b) = ground arith
differ_lem (pos a) (negsuc b) = ground arith
differ_lem (negsuc a) (pos b) = ground arith

same_sums : (a b : ℤ) → pos_part a + neg_part b ≡ pos_part b + neg_part a → a ≡ b
same_sums (pos a) (pos b) h = ground arith
same_sums (negsuc a) (negsuc b) h = ground arith
same_sums (pos a) (negsuc b) h = ground arith
same_sums (negsuc a) (pos b) h = ground arith

-- Lexicographic comparison of two ranks each.
abbrev step : ℕ → ℕ → ℤ → ℤ
step x y rest = if ltb x y then negsuc 0 else if ltb y x then pos 1 else rest

numbers_step :
    (a b : ℤ) (rest : ℤ)
    → (if differ a b then cmp_int a b else rest)
      ≡ step (pos_part a + neg_part b) (pos_part b + neg_part a) rest
unfolding cmp_int
numbers_step a b rest = rw (differ_lem a b) (ground arith)

-- The comparison, number by number and then by the mark.
abbrev lexicographic : Semver → Semver → ℤ
lexicographic a b =
    step (pos_part a.major + neg_part b.major) (pos_part b.major + neg_part a.major) (
      step (pos_part a.minor + neg_part b.minor) (pos_part b.minor + neg_part a.minor) (
        step (pos_part a.patch + neg_part b.patch) (pos_part b.patch + neg_part a.patch)
          (cmp_dev a.dev b.dev)))

compare_versions_lem : (a b : Semver) → compare_versions a b ≡ lexicographic a b
unfolding compare_versions
compare_versions_lem a b =
    rw (
      numbers_step a.major b.major _,
      numbers_step a.minor b.minor _,
      numbers_step a.patch b.patch _,
    )

equal :
    {a b : Semver}
    → a.major ≡ b.major
    → a.minor ≡ b.minor
    → a.patch ≡ b.patch
    → a.dev ≡ b.dev
    → a ≡ b
equal {a} {b} major minor patch dev = cc

-- Comparing the other way round gives the opposite result.
pub compare_versions_antisymmetric :
    (a b : Semver) → compare_versions b a ≡ neg_ℤ (compare_versions a b)
unfolding neg_ℤ
compare_versions_antisymmetric a b =
    rw (compare_versions_lem a b, compare_versions_lem b a) (ground arith)

step_zero : (x y : ℕ) (rest : ℤ) → step x y rest ≡ pos 0 → (x ≡ y) × (rest ≡ pos 0)
step_zero x y rest h = ground arith

cmp_dev_zero : (a b : Bool) → cmp_dev a b ≡ pos 0 → a ≡ b
cmp_dev_zero true true h = refl
cmp_dev_zero false false h = refl
cmp_dev_zero true false h = cc
cmp_dev_zero false true h = cc

-- Only equal versions compare as equal.
pub compare_versions_zero : (a b : Semver) → compare_versions a b ≡ pos 0 → a ≡ b
compare_versions_zero a b h =
    let h : lexicographic a b ≡ pos 0 = sym (compare_versions_lem a b) ∙ h in
    let (major, h) = step_zero _ _ _ h in
    let (minor, h) = step_zero _ _ _ h in
    let (patch, h) = step_zero _ _ _ h in
    equal (same_sums _ _ major) (same_sums _ _ minor) (same_sums _ _ patch) (cmp_dev_zero _ _ h)

abbrev Positive : ℤ → Type 0
Positive a = ltb_ℤ (pos 0) a ≡ true

-- One number of three versions, before ranks of which the last follows from the others.
step_transitive :
    (pa na pb nb pc nc : ℕ) (r s t : ℤ)
    → (Positive r → Positive s → Positive t)
    → Positive (step (pa + nb) (pb + na) r)
    → Positive (step (pb + nc) (pc + nb) s)
    → Positive (step (pa + nc) (pc + na) t)
step_transitive pa na pb nb pc nc r s t h = ground arith

cmp_dev_transitive :
    (a b c : Bool) → Positive (cmp_dev a b) → Positive (cmp_dev b c) → Positive (cmp_dev a c)
cmp_dev_transitive a b c = ground arith

sign_flips : (a : ℤ) → Positive a → ltb_ℤ (pos 0) (neg_ℤ a) ≡ false
unfolding neg_ℤ
sign_flips (pos a) h = ground arith
sign_flips (negsuc a) h = ground arith

-- A version later than one that is later than a third is later than the third.
pub later_transitive : (a b c : Semver) → later a b ≡ true → later b c ≡ true → later a c ≡ true
later_transitive a b c =
    rw (compare_versions_lem a b, compare_versions_lem b c, compare_versions_lem a c)
      (step_transitive _ (neg_part a.major) _ (neg_part b.major) _ (neg_part c.major) _ _ _ (
        step_transitive _ (neg_part a.minor) _ (neg_part b.minor) _ (neg_part c.minor) _ _ _ (
          step_transitive _ (neg_part a.patch) _ (neg_part b.patch) _ (neg_part c.patch) _ _ _
            (cmp_dev_transitive a.dev b.dev c.dev))))

later_asymmetric : (a b : Semver) → later a b ≡ true → later b a ≡ false
unfolding neg_ℤ
later_asymmetric a b = rw (compare_versions_antisymmetric a b) (sign_flips (compare_versions a b))

pub later_irreflexive : (a : Semver) → later a a ≡ false
later_irreflexive a = elim (Bool-cases (later a a)) [ inl h ↦ later_asymmetric a a h | inr h ↦ h ]

-- Whether an optional version is later than another, as `IsNewer` has it.
is_later_asymmetric : (c l : Option Semver) → is_later c l ≡ true → is_later l c ≡ false
is_later_asymmetric (some c) (some l) h = later_asymmetric l c h
is_later_asymmetric (some c) none h = cc
is_later_asymmetric none (some l) h = cc
is_later_asymmetric none none h = cc

is_later_transitive :
    (a b c : Option Semver) → is_later a b ≡ true → is_later b c ≡ true → is_later a c ≡ true
is_later_transitive (some a) (some b) (some c) h k = later_transitive c b a k h
is_later_transitive (some a) (some b) none h k = cc
is_later_transitive (some a) none c h k = cc
is_later_transitive none b c h k = cc

-- A version that is newer than another is not also older than it.
pub is_newer_asymmetric : (v w : Bytes) → is_newer v w ≡ true → is_newer w v ≡ false
unfolding is_newer
is_newer_asymmetric v w h = is_later_asymmetric (parse_version v) (parse_version w) h

-- A version newer than one that is newer than a third is newer than the third.
pub is_newer_transitive :
    (u v w : Bytes) → is_newer u v ≡ true → is_newer v w ≡ true → is_newer u w ≡ true
unfolding is_newer
is_newer_transitive u v w =
    is_later_transitive (parse_version u) (parse_version v) (parse_version w)

-- Being newer is a strict order on versions: a version newer than one that is newer than a third is
-- newer than the third, and the second is not newer than the first.
pub is_newer_strict_order :
    (u v w : Bytes)
    → is_newer u v ≡ true
    → is_newer v w ≡ true
    → (is_newer u w ≡ true) × (is_newer v u ≡ false)
is_newer_strict_order u v w h k = (is_newer_transitive u v w h k, is_newer_asymmetric u v h)
