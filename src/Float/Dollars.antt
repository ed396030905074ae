-- ===== src/Float/Dollars.antt =====
-- Amounts as the pages show them, and as `parseBillForm` reads them back.
use billtracker_plugin.Base.{
  ℕ, ◌+◌, ◌^◌, ◌<◌, ◌≡◌, refl, ap, ◌∙◌, Bool, true, false, arith, some, ◌∷◌, if◌then◌else◌,
}
use billtracker_plugin.Base.Int.{ℤ, pos, negsuc, neg_ℤ, pos_part, neg_part, ◌+ℤ◌}
use billtracker_plugin.Money.Text.{plain_money, money}
use billtracker_plugin.Float.{Float, fixed_2, two_places, format_cents_plain}
use billtracker_plugin.Float.Scan.{in_range, parse_float, made_cents, cents_of}
use billtracker_plugin.Float.Cents.{
  Hundredths, of_quotient-Hundredths, over_100-Hundredths, nearest-Hundredths,
  dollars_to_cents-Hundredths, dollars_to_cents_below,
}
use billtracker_plugin.Float.Parsed.{parse_float-plain_money, parse_float-minus}

fixed_2-Hundredths :
    (neg : Bool) (n : ℕ) (x : Float)
    → n < 2 ^ 50
    → Hundredths neg n x
    → fixed_2 x ≡ (if neg then b'-' ∷ plain_money n else plain_money n)
fixed_2-Hundredths false n x small h = ap fixed_2 h.is ∙ ap two_places (nearest-Hundredths small h)
fixed_2-Hundredths true n x small h =
    ap fixed_2 h.is ∙ ap (λ k. b'-' ∷ two_places k) (nearest-Hundredths small h)

-- `formatCentsPlain` shows an amount of less than 2 ^ 50 cents exactly: its sign, its dollars, a
-- point and the two digits of its cents.
pub format_cents_plain-money :
    (cents : ℤ)
    → pos_part cents < 2 ^ 50
    → neg_part cents < 2 ^ 50
    → format_cents_plain cents ≡ money cents
unfolding format_cents_plain
format_cents_plain-money (pos n) small _ =
    fixed_2-Hundredths false n _ small (over_100-Hundredths false n small)
format_cents_plain-money (negsuc n) _ small =
    fixed_2-Hundredths true (n + 1) _ (omega arith) (over_100-Hundredths true (n + 1) (omega arith))

in_range-Hundredths : (neg : Bool) (n : ℕ) (x : Float) → Hundredths neg n x → in_range x ≡ some x
in_range-Hundredths neg n x h = rw h.is refl

pub up_reads : (n : ℕ) → n < 2 ^ 50 → cents_of (format_cents_plain (pos n)) ≡ some (pos n)
unfolding cents_of
up_reads n small =
    let h = of_quotient-Hundredths false n small in
    ap (λ s. made_cents (parse_float s)) (format_cents_plain-money (pos n) small (omega arith))
    ∙ ap made_cents (parse_float-plain_money n ∙ in_range-Hundredths false n _ h)
    ∙ ap some (dollars_to_cents-Hundredths n _ small h)

below_reads :
    (n : ℕ) → n + 1 < 2 ^ 50 → cents_of (format_cents_plain (negsuc n)) ≡ some (neg_ℤ (pos n))
unfolding cents_of
below_reads n small =
    let h = of_quotient-Hundredths true (n + 1) small in
    ap (λ s. made_cents (parse_float s))
      (format_cents_plain-money (negsuc n) (omega arith) (omega arith))
    ∙ ap made_cents (parse_float-minus (n + 1) ∙ in_range-Hundredths true (n + 1) _ h)
    ∙ ap some (dollars_to_cents_below n _ small h)

one_up : (n : ℕ) → neg_ℤ (pos n) ≡ negsuc n +ℤ pos 1
unfolding neg_ℤ ◌+ℤ◌
one_up n = ground arith

-- The amount itself, and one cent more below 0.
abbrev pub read_back : ℤ → ℤ
read_back (pos n) = pos n
read_back (negsuc n) = negsuc n +ℤ pos 1

-- An amount of less than 2 ^ 50 cents on either side of 0, as `formatCentsPlain` shows it, is read by
-- `parseBillForm` as just that amount where it is not negative, and one cent too high where it is.
pub cents_of-format_cents_plain :
    (cents : ℤ)
    → pos_part cents < 2 ^ 50
    → neg_part cents < 2 ^ 50
    → cents_of (format_cents_plain cents) ≡ some (read_back cents)
cents_of-format_cents_plain (pos n) small _ = up_reads n small
cents_of-format_cents_plain (negsuc n) _ small = below_reads n (omega arith) ∙ ap some (one_up n)
