-- ===== src/Money.antt =====
-- Amounts as decimal text: `parseMoneyToCents` of internal/simplefin/client.go, and
-- `parseDollarsToCents`, which internal/connectors/billeriq and columbiagaspa each have.
pub mod Text
use billtracker_plugin.Base.{
  ℕ, ◌+◌, ◌*◌, ◌/◌, ◌%◌, Bool, true, false, not, ◌&&◌, ◌||◌, Option, none, some, [], ◌∷◌, ◌++◌,
  Bytes, codes, is_empty, trim_space, length, take, ltb, leb, ◌==◌, if◌then◌else◌, select,
}
use billtracker_plugin.Base.Int.{ℤ, pos, negsuc, neg_ℤ, ◌+ℤ◌, wrap_int64}
use billtracker_plugin.Base.Atoi.{atoi, is_digit}
use billtracker_plugin.Base.Decimal.{decimal}
use billtracker_plugin.Clock.{scale}
use billtracker_plugin.Errors.{Result, ok, err, no_amount, bad_whole_part, bad_fraction}

abbrev with_head : ℕ → Bytes × Option Bytes → Bytes × Option Bytes
with_head c (whole, frac) = (c ∷ whole, frac)

-- `strings.Cut(s, ".")`.
unfoldable pub cut_dot : Bytes → Bytes × Option Bytes
cut_dot [] = ([], none)
cut_dot (c ∷ s) = let rest = cut_dot s in if c == b'.' then ([], some s) else with_head c rest

abbrev pub whole_text : Bytes → Bytes
whole_text whole = if is_empty whole then b'0' ∷ [] else whole

-- Two digits of cents; the digits behind them are dropped.
abbrev pub frac_text : Option Bytes → Bytes
frac_text none = b'0' ∷ b'0' ∷ []
frac_text (some frac) =
    if length frac == 1
    then frac ++ b'0' ∷ []
    else if ltb 2 (length frac)
    then take 2 frac
    else frac

-- `wholeCents*100 + fracCents`, in int64.
abbrev pub total : ℤ → ℤ → ℤ
total whole frac = wrap_int64 (wrap_int64 (scale 100 whole) +ℤ frac)

abbrev pub add_up : Bool → Option ℤ → Option ℤ → Result ℤ
add_up neg none frac = err bad_whole_part
add_up neg (some whole) none = err bad_fraction
add_up neg (some whole) (some frac) =
    ok (if neg then wrap_int64 (neg_ℤ (total whole frac)) else total whole frac)

abbrev of_cut : Bool → Bytes × Option Bytes → Result ℤ
of_cut neg (whole, frac) = add_up neg (atoi (whole_text whole)) (atoi (frac_text frac))

-- What both functions do once the sign is off the text.
abbrev pub of_unsigned : Bool → Bytes → Result ℤ
of_unsigned neg s = of_cut neg (cut_dot s)

abbrev pub of_signed : Bytes → Result ℤ
of_signed [] = err no_amount
of_signed (c ∷ s) =
    if c == b'-'
    then of_unsigned true s
    else if c == b'+'
    then of_unsigned false s
    else of_unsigned false (c ∷ s)

-- `parseMoneyToCents`.
unfoldable pub parse_money_to_cents : Bytes → Result ℤ
parse_money_to_cents s = of_signed (trim_space s)

-- What `[^0-9.\-]` does not match.
abbrev pub is_kept : ℕ → Bool
is_kept c = is_digit c || c == b'.' || c == b'-'

abbrev pub of_stripped : Bytes → Result ℤ
of_stripped [] = err no_amount
of_stripped (c ∷ s) = if c == b'-' then of_unsigned true s else of_unsigned false (c ∷ s)

-- `parseDollarsToCents`.
unfoldable pub parse_dollars_to_cents : Bytes → Result ℤ
parse_dollars_to_cents s = of_stripped (select is_kept s)
