-- ===== src/Float/Parsed.antt =====
-- What `strconv.ParseFloat` reads in a text that is printed with two places.
use billtracker_plugin.Base.{
  ℕ, ◌+◌, ◌-◌, ◌*◌, ◌/◌, ◌%◌, ◌≡◌, refl, ap, ◌∙◌, Bool, true, false, arith, [], ◌∷◌, ◌++◌, Option,
  some, none, some-injective, Bytes, All, All-append, All-imp, exists-nothing, ◌==◌, same, map,
}
use billtracker_plugin.Money.Text.{plain_money}
use billtracker_plugin.Base.Atoi.{is_digit, digits, digits_from}
use billtracker_plugin.Base.Decimal.{decimal, decimal-All, digits-decimal}
use billtracker_plugin.Float.{Float, of_quotient}
use billtracker_plugin.Float.Scan.{
  Scan, mantissa, next, with_digit, of_digits, finished, nothing_read, in_range, special, lower,
  of_number, exponent, underscore_ok, parse_float,
}

next_digit :
    (scan : Scan) (c : ℕ)
    → is_digit c ≡ true
    → next false scan c ≡ with_digit false scan (some (c - b'0'))
next_digit scan c d = ground arith

mantissa_step :
    (scan after : Scan) (c : ℕ) (s : Bytes)
    → next false scan c ≡ some after
    → mantissa false scan (c ∷ s) ≡ mantissa false after s
unfolding mantissa
mantissa_step scan after c s e =
    ap (λ o. elim o [ none ↦ (scan, c ∷ s) | some t ↦ mantissa false t s ]) e

abbrev before_dot : ℕ → Bool → Scan
before_dot n seen = record { value = n; behind = 0; has_digits = seen; has_dot = false }

mantissa-digits :
    (a n : ℕ) (seen : Bool) (s rest : Bytes)
    → digits_from a s ≡ some n
    → (after : Bool) × (mantissa false (before_dot a seen) (s ++ rest)
        ≡ mantissa false (before_dot n after) rest)
unfolding digits_from
mantissa-digits a n seen [] rest e =
    (seen, ap (λ k. mantissa false (before_dot k seen) rest) (some-injective _ _ e))
mantissa-digits a n seen (c ∷ s) rest e =
    let d : is_digit c ≡ true = ground arith in
    let (after, is) = mantissa-digits (a * 10 + (c - b'0')) n true s rest (ground arith) in
    (
      after,
      mantissa_step (before_dot a seen) (before_dot (a * 10 + (c - b'0')) true) c (s ++ rest)
            (next_digit (before_dot a seen) c d)
          ∙ is,
    )

from_zero : (s : Bytes) {n : ℕ} → digits s ≡ some n → digits_from 0 s ≡ some n
from_zero [] e = cc
from_zero (c ∷ s) e = e

abbrev two_behind : ℕ → Scan
two_behind n = record { value = n; behind = 2; has_digits = true; has_dot = true }

abbrev cents_text : ℕ → Bytes
cents_text n = b'.' ∷ (b'0' + n / 10 % 10) ∷ (b'0' + n % 10) ∷ []

mantissa-cents_text :
    (n : ℕ) (seen : Bool)
    → mantissa false (before_dot (n / 100) seen) (cents_text n) ≡ (two_behind n, [])
unfolding mantissa
mantissa-cents_text n seen =
    let whole = before_dot (n / 100) seen in
    let dot = record whole { has_dot = true } in
    let tenths : Scan = record {
      value = n / 100 * 10 + n / 10 % 10;
      behind = 1;
      has_digits = true;
      has_dot = true;
    } in
    mantissa_step whole dot b'.' ((b'0' + n / 10 % 10) ∷ (b'0' + n % 10) ∷ []) refl
    ∙ mantissa_step dot tenths (b'0' + n / 10 % 10) ((b'0' + n % 10) ∷ []) (ground arith)
    ∙ mantissa_step tenths (two_behind n) (b'0' + n % 10) [] (ground arith)

module _ (n : ℕ) where
  abbrev read : Bool → Option Float
  read neg = in_range (of_quotient neg n 100)

  of_digits_decimal :
      (neg : Bool) (s : Bytes)
      → digits s ≡ some (n / 100)
      → of_digits neg (s ++ cents_text n)
        ≡ finished neg false (mantissa false nothing_read (s ++ cents_text n))
  unfolding digits_from
  of_digits_decimal neg [] e = cc
  of_digits_decimal neg (c ∷ []) e = ground arith
  of_digits_decimal neg (c ∷ d ∷ []) e = ground arith
  of_digits_decimal neg (c ∷ d ∷ f ∷ s) e = ground arith

  special_no : (s rest : Bytes) → digits s ≡ some (n / 100) → special (map lower (s ++ rest)) ≡ none
  unfolding same digits_from
  special_no [] rest e = cc
  special_no (c ∷ s) rest e = ground arith

  special_no_minus :
      (s rest : Bytes) → digits s ≡ some (n / 100) → special (map lower (b'-' ∷ s ++ rest)) ≡ none
  unfolding same digits_from
  special_no_minus [] rest e = cc
  special_no_minus (c ∷ s) rest e = ground arith

  finished_text :
      (neg : Bool) (s : Bytes)
      → digits s ≡ some (n / 100)
      → of_digits neg (s ++ cents_text n) ≡ read neg
  unfolding exponent
  finished_text neg s e =
      let (after, is) = mantissa-digits 0 (n / 100) false s (cents_text n) (from_zero s e) in
      of_digits_decimal neg s e
      ∙ ap (finished neg false) (is ∙ mantissa-cents_text n after)
      ∙ ap (λ (k : ℕ). in_range (of_quotient neg k 100)) (omega arith)

no_underscore : (s : Bytes) → All (λ c. (c == b'_') ≡ false) s → underscore_ok s ≡ true
no_underscore s h = rw (exists-nothing (λ c. c == b'_') s h) refl

plain_number :
    (s : Bytes)
    → special (map lower s) ≡ none
    → underscore_ok s ≡ true
    → parse_float s ≡ of_number s
unfolding parse_float
plain_number s name dashes = rw (name, dashes) refl

cents_text-All :
    (s : Bytes) (n : ℕ)
    → All (λ c. is_digit c ≡ true) s
    → All (λ c. (c == b'_') ≡ false) (s ++ cents_text n)
cents_text-All s n h =
    All-append (λ c. (c == b'_') ≡ false) s _ (All-imp _ s (λ c d. ground arith) h)
      (refl, (ground arith, (ground arith, tt)))

of_number-of_digits :
    (s rest : Bytes) {n : ℕ}
    → digits s ≡ some n
    → of_number (s ++ rest) ≡ of_digits false (s ++ rest)
unfolding digits_from
of_number-of_digits [] rest e = cc
of_number-of_digits (c ∷ s) rest e = ground arith

-- A text of n cents is read as the double nearest to n / 100.
pub parse_float-plain_money :
    (n : ℕ) → parse_float (plain_money n) ≡ in_range (of_quotient false n 100)
parse_float-plain_money n =
    let s = decimal (n / 100) in
    let e = digits-decimal (n / 100) in
    plain_number (plain_money n) (special_no n s (cents_text n) e)
      (no_underscore (plain_money n) (cents_text-All s n (decimal-All (n / 100))))
    ∙ of_number-of_digits s (cents_text n) e
    ∙ finished_text n false s e

pub parse_float-minus :
    (n : ℕ) → parse_float (b'-' ∷ plain_money n) ≡ in_range (of_quotient true n 100)
parse_float-minus n =
    let s = decimal (n / 100) in
    let e = digits-decimal (n / 100) in
    plain_number (b'-' ∷ plain_money n) (special_no_minus n s (cents_text n) e)
      (no_underscore (b'-' ∷ plain_money n) (refl, cents_text-All s n (decimal-All (n / 100))))
    ∙ finished_text n true s e
