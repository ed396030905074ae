-- ===== src/Base/Int.antt =====
-- Signed integers over the native numbers, under the library's names. Sums and orders go through
-- the two parts of an integer, which are numbers that `omega` reads. Go's `int64` wraps around.
use billtracker_plugin.Base.{
  ℕ, suc, ◌+◌, ◌-◌, ◌%◌, ◌^◌, ◌≤◌, ◌≡◌, Bool, true, false, ◌&&◌, arith, ltb, leb, ◌==◌,
  if◌then◌else◌,
}

-- `negsuc n` is -(n + 1).
pub data ℤ : Type 0 where
  pos : ℕ → ℤ
  negsuc : ℕ → ℤ

abbrev pub pos_part : ℤ → ℕ
pos_part (pos n) = n
pos_part (negsuc n) = 0

abbrev pub neg_part : ℤ → ℕ
neg_part (pos n) = 0
neg_part (negsuc n) = suc n

-- a - b, as an integer.
abbrev pub sub_ℕ : ℕ → ℕ → ℤ
sub_ℕ a b = if leb b a then pos (a - b) else negsuc (b - a - 1)

infixl 65 ◌+ℤ◌
infix 50 ◌≤ℤ◌
unfoldable pub ◌+ℤ◌ : ℤ → ℤ → ℤ
a +ℤ b = sub_ℕ (pos_part a + pos_part b) (neg_part a + neg_part b)

unfoldable pub neg_ℤ : ℤ → ℤ
neg_ℤ a = sub_ℕ (neg_part a) (pos_part a)

abbrev pub ◌≤ℤ◌ : ℤ → ℤ → Type 0
a ≤ℤ b = pos_part a + neg_part b ≤ pos_part b + neg_part a

abbrev pub ltb_ℤ : ℤ → ℤ → Bool
ltb_ℤ a b = ltb (pos_part a + neg_part b) (pos_part b + neg_part a)

-- Whether a row's id, never negative, is the number asked for.
abbrev pub id_is : ℤ → ℕ → Bool
id_is (pos n) k = n == k
id_is (negsuc n) k = false

-- The range of PostgreSQL's INTEGER.
abbrev pub fits_int4 : ℤ → Bool
fits_int4 a = leb (pos_part a) (2 ^ 31 - 1) && leb (neg_part a) (2 ^ 31)

-- The range of Go's int64, and of int on the platforms that the plugin is built for.
abbrev pub fits_int64 : ℤ → Bool
fits_int64 a = leb (pos_part a) (2 ^ 63 - 1) && leb (neg_part a) (2 ^ 63)

-- The int64 that holds the low 64 bits of `a`.
unfoldable pub wrap_int64 : ℤ → ℤ
wrap_int64 a =
    let bits = (pos_part a + (2 ^ 64 - neg_part a % 2 ^ 64)) % 2 ^ 64 in
    if ltb bits (2 ^ 63) then pos bits else negsuc (2 ^ 64 - bits - 1)

pub wrap_int64_fits : (a : ℤ) → fits_int64 a ≡ true → wrap_int64 a ≡ a
unfolding wrap_int64
wrap_int64_fits a h = ground arith
