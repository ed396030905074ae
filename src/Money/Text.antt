-- ===== src/Money/Text.antt =====
-- Amounts that are written out in cents, and how they are read back.
use billtracker_plugin.Base.{
  ◌<◌, ◌↔◌, sym, ℕ, ◌+◌, ◌/◌, ◌%◌, ◌^◌, ◌≤◌, ◌≡◌, refl, ap, ◌∙◌, Bool, true, false, some, [], ◌∷◌,
  ◌++◌, Bytes, is_space, trim_space-All, if◌then◌else◌, select, All, All-append, All-imp, arith,
}
use billtracker_plugin.Base.Int.{ℤ, pos, negsuc, neg_ℤ, ◌+ℤ◌, wrap_int64, fits_int64}
use billtracker_plugin.Base.Atoi.{atoi, digits, digits_from, is_digit}
use billtracker_plugin.Base.Decimal.{decimal, decimal-All, digits-decimal, atoi-decimal}
use billtracker_plugin.Errors.{ok}
use billtracker_plugin.Money.{
  cut_dot, whole_text, total, of_unsigned, of_signed, of_stripped, parse_money_to_cents, is_kept,
  parse_dollars_to_cents,
}

-- A number of cents with two digits behind the point.
abbrev pub plain_money : ℕ → Bytes
plain_money n = decimal (n / 100) ++ b'.' ∷ (b'0' + n / 10 % 10) ∷ (b'0' + n % 10) ∷ []

-- An amount in cents, as text.
abbrev pub money : ℤ → Bytes
money (pos n) = plain_money n
money (negsuc n) = b'-' ∷ plain_money (n + 1)

cut_dot-append :
    (whole frac : Bytes)
    → All (λ c. is_digit c ≡ true) whole
    → cut_dot (whole ++ b'.' ∷ frac) ≡ (whole, some frac)
unfolding cut_dot
cut_dot-append [] frac h = refl
cut_dot-append (c ∷ whole) frac h = ground (arith, cut_dot-append whole frac h.1)

two_digits : (n : ℕ) → atoi ((b'0' + n / 10 % 10) ∷ (b'0' + n % 10) ∷ []) ≡ some (pos (n % 100))
unfolding atoi digits_from
two_digits n = ground arith

-- The sum of the two parts wraps around as the number of cents does.
total_lem : (n : ℕ) → n ≤ 2 ^ 63 → total (pos (n / 100)) (pos (n % 100)) ≡ wrap_int64 (pos n)
unfolding wrap_int64 ◌+ℤ◌
total_lem n h = ground arith

whole_text_of_number : (s : Bytes) (n : ℕ) → digits s ≡ some n → whole_text s ≡ s
whole_text_of_number [] n e = cc
whole_text_of_number (c ∷ s) n e = refl

whole_text-decimal : (n : ℕ) → whole_text (decimal n) ≡ decimal n
whole_text-decimal n = whole_text_of_number (decimal n) n (digits-decimal n)

of_unsigned-plain_money :
    (neg : Bool) (n : ℕ)
    → n ≤ 2 ^ 63
    → of_unsigned neg (plain_money n)
      ≡ ok (if neg then wrap_int64 (neg_ℤ (wrap_int64 (pos n))) else wrap_int64 (pos n))
of_unsigned-plain_money neg n h = rw (
  cut_dot-append (decimal (n / 100)) _ (decimal-All (n / 100)),
  whole_text-decimal (n / 100),
  atoi-decimal (n / 100) (ground arith),
  two_digits n,
  ← total_lem n h,
)

-- Text that begins with digits has no sign to take off.
of_signed_of_number :
    (s : Bytes) (n : ℕ) (rest : Bytes)
    → digits s ≡ some n
    → of_signed (s ++ rest) ≡ of_unsigned false (s ++ rest)
unfolding digits_from
of_signed_of_number [] n rest e = cc
of_signed_of_number (c ∷ s) n rest e = ground arith

of_stripped_of_number :
    (s : Bytes) (n : ℕ) (rest : Bytes)
    → digits s ≡ some n
    → of_stripped (s ++ rest) ≡ of_unsigned false (s ++ rest)
unfolding digits_from
of_stripped_of_number [] n rest e = cc
of_stripped_of_number (c ∷ s) n rest e = ground arith

wrap_pos : (n : ℕ) → fits_int64 (pos n) ≡ true → wrap_int64 (pos n) ≡ pos n
unfolding wrap_int64
wrap_pos n h = ground arith

wrap_neg :
    (n : ℕ)
    → fits_int64 (negsuc n) ≡ true
    → wrap_int64 (neg_ℤ (wrap_int64 (pos (n + 1)))) ≡ negsuc n
unfolding wrap_int64 neg_ℤ
wrap_neg n h = ground arith

of_signed-money : (c : ℤ) → fits_int64 c ≡ true → of_signed (money c) ≡ ok c
of_signed-money (pos n) fits =
    of_signed_of_number (decimal (n / 100)) (n / 100) _ (digits-decimal (n / 100))
    ∙ of_unsigned-plain_money false n (ground arith)
    ∙ ap ok (wrap_pos n fits)
of_signed-money (negsuc n) fits =
    of_unsigned-plain_money true (n + 1) (ground arith) ∙ ap ok (wrap_neg n fits)

of_stripped-money : (c : ℤ) → fits_int64 c ≡ true → of_stripped (money c) ≡ ok c
of_stripped-money (pos n) fits =
    of_stripped_of_number (decimal (n / 100)) (n / 100) _ (digits-decimal (n / 100))
    ∙ of_unsigned-plain_money false n (ground arith)
    ∙ ap ok (wrap_pos n fits)
of_stripped-money (negsuc n) fits =
    of_unsigned-plain_money true (n + 1) (ground arith) ∙ ap ok (wrap_neg n fits)

plain_money-All : (n : ℕ) → All (λ b. is_space b ≡ false) (plain_money n)
plain_money-All n =
    All-append (λ b. is_space b ≡ false) (decimal (n / 100)) _
      (All-imp _ (decimal (n / 100)) (λ c h. ground arith) (decimal-All (n / 100)))
      (refl, (ground arith, (ground arith, tt)))

-- No byte of a printed amount is a space.
money-All : (c : ℤ) → All (λ b. is_space b ≡ false) (money c)
money-All (pos n) = plain_money-All n
money-All (negsuc n) = (refl, plain_money-All (n + 1))

select-All : (p : ℕ → Bool) (s : Bytes) → All (λ c. p c ≡ true) s → select p s ≡ s
select-All p [] h = refl
select-All p (c ∷ s) h = rw (h.0, select-All p s h.1)

plain_money-kept : (n : ℕ) → All (λ c. is_kept c ≡ true) (plain_money n)
plain_money-kept n =
    All-append (λ c. is_kept c ≡ true) (decimal (n / 100)) _
      (All-imp _ (decimal (n / 100)) (λ c h. rw h) (decimal-All (n / 100)))
      (refl, (ground arith, (ground arith, tt)))

-- An amount in cents that int64 holds, written with its sign, its units, a point and two digits, is
-- read by `parseMoneyToCents` as just that amount.
pub parse_money_to_cents-money :
    (c : ℤ) → fits_int64 c ≡ true → parse_money_to_cents (money c) ≡ ok c
unfolding parse_money_to_cents
parse_money_to_cents-money c fits =
    rw (trim_space-All (money c) (money-All c)) (of_signed-money c fits)

-- Text that is such an amount once all but digits, points and minus signs is left out of it, as in
-- "$1,234.50", is read by `parseDollarsToCents` as that amount.
pub parse_dollars_to_cents-money :
    (text : Bytes) (c : ℤ)
    → fits_int64 c ≡ true
    → select is_kept text ≡ money c
    → parse_dollars_to_cents text ≡ ok c
unfolding parse_dollars_to_cents
parse_dollars_to_cents-money text c fits kept = rw kept (of_stripped-money c fits)

-- The two parts of a large amount wrap around as the amount does.
total_wraps :
    (n : ℕ) → n / 100 < 2 ^ 63 → total (pos (n / 100)) (pos (n % 100)) ≡ wrap_int64 (pos n)
unfolding wrap_int64 ◌+ℤ◌
total_wraps n h = ground arith

of_unsigned_wraps :
    (n : ℕ) → n / 100 < 2 ^ 63 → of_unsigned false (plain_money n) ≡ ok (wrap_int64 (pos n))
of_unsigned_wraps n h = rw (
  cut_dot-append (decimal (n / 100)) _ (decimal-All (n / 100)),
  whole_text-decimal (n / 100),
  atoi-decimal (n / 100) (ground arith),
  two_digits n,
  total_wraps n h,
)

ok_injective : {a b : ℤ} → ok a ≡ ok b → a ≡ b
ok_injective e = cc

exact_below : (n : ℕ) → wrap_int64 (pos n) ≡ pos n → n < 2 ^ 63
unfolding wrap_int64
exact_below n e = ground arith

wrap_small : (n : ℕ) → n < 2 ^ 63 → wrap_int64 (pos n) ≡ pos n
unfolding wrap_int64
wrap_small n h = ground arith

parse_money_to_cents_wraps :
    (n : ℕ) → n / 100 < 2 ^ 63 → parse_money_to_cents (plain_money n) ≡ ok (wrap_int64 (pos n))
unfolding parse_money_to_cents
parse_money_to_cents_wraps n h =
    ap of_signed (trim_space-All (plain_money n) (plain_money-All n))
    ∙ of_signed_of_number (decimal (n / 100)) (n / 100) _ (digits-decimal (n / 100))
    ∙ of_unsigned_wraps n h

-- A printed amount of `n` cents, whose units are within int64, is read without an error: as the
-- int64 that it wraps around to, which is `n` just where `n` is below 2^63.
pub parse_money_to_cents_bound :
    (n : ℕ)
    → n / 100 < 2 ^ 63
    → (parse_money_to_cents (plain_money n) ≡ ok (wrap_int64 (pos n)))
      × ((parse_money_to_cents (plain_money n) ≡ ok (pos n)) ↔ (n < 2 ^ 63))
parse_money_to_cents_bound n h = (
  parse_money_to_cents_wraps n h,
  (
    λ e. exact_below n (ok_injective (sym (parse_money_to_cents_wraps n h) ∙ e)),
    λ lt. parse_money_to_cents_wraps n h ∙ ap ok (wrap_small n lt),
  ),
)
