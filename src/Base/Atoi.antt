-- ===== src/Base/Atoi.antt =====
-- Go's strconv.Atoi and time.Parse("2006-01-02", …), as far as the program uses them.
use Prim.Native.Nat.{ℕ, ◌+◌, ◌-◌, ◌*◌}
use mathlib.Core.Bool.{Bool, ◌&&◌}
use mathlib.Core.Option.{Option, none, some}
use mathlib.Core.List.{[], ◌∷◌}
use billtracker_plugin.Base.Tests.{leb, ◌==◌, if◌then◌else◌}
use billtracker_plugin.Base.Strings.{Bytes}
use billtracker_plugin.Base.Int.{ℤ, pos, neg_ℤ, fits_int64}

abbrev pub is_digit : ℕ → Bool
is_digit c = leb b'0' c && leb c b'9'

-- Digits, most significant first, behind a value; `none` at any other byte.
unfoldable pub digits_from : ℕ → Bytes → Option ℕ
digits_from n [] = some n
digits_from n (c ∷ s) =
    let rest = digits_from (n * 10 + (c - b'0')) s in if is_digit c then rest else none

abbrev pub digits : Bytes → Option ℕ
digits [] = none
digits (c ∷ s) = digits_from 0 (c ∷ s)

abbrev in_int64 : Option ℤ → Option ℤ
in_int64 none = none
in_int64 (some n) = if fits_int64 n then some n else none

abbrev as_positive : Option ℕ → Option ℤ
as_positive none = none
as_positive (some n) = some (pos n)

abbrev as_negative : Option ℕ → Option ℤ
as_negative none = none
as_negative (some n) = some (neg_ℤ (pos n))

abbrev signed : Bytes → Option ℤ
signed [] = none
signed (c ∷ s) =
    if c == b'-'
    then as_negative (digits s)
    else if c == b'+'
    then as_positive (digits s)
    else as_positive (digits (c ∷ s))

-- `strconv.Atoi`; `none` is an error.
unfoldable pub atoi : Bytes → Option ℤ
atoi s = in_int64 (signed s)
