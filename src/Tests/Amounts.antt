-- ===== src/Tests/Amounts.antt =====
-- Amounts as text and as doubles, and the edit form of the settings page.
use billtracker_plugin.Base.{
  ◌≡◌, refl, [], ◌∷◌, none, some, false, true, codes, same, trim_space, arith,
}
use billtracker_plugin.Base.Int.{pos, negsuc, neg_ℤ}
use billtracker_plugin.Errors.{ok}
use billtracker_plugin.Float.{
  finite, infinite, nan, of_quotient, nearest, places, dollars_to_cents, format_cents_plain,
}
use billtracker_plugin.Float.Scan.{
  mantissa, exponent, power_from, underscores_between, parse_float, cents_of,
}
use billtracker_plugin.Float.Dollars.{
  read_back, format_cents_plain-money, cents_of-format_cents_plain,
}
use billtracker_plugin.Money.Text.{money}
use billtracker_plugin.Models.Rows.{row_allowed, schedule_allowed}
use billtracker_plugin.Handlers.Forms.{parse_bill_form}
use billtracker_plugin.Handlers.Pages.Table.{settings_bill_def_row}
use billtracker_plugin.Handlers.Pages.Editing.{
  IsEditable, as_typed, edit_form, parse_bill_form-edit_form,
}
use billtracker_plugin.Handlers.Settings.{update_bill}
use billtracker_plugin.Handlers.Settings.Unchanged.{Grows, unchanged_edit_keeps}
use billtracker_plugin.Tests.Dates.{rent}
use billtracker_plugin.Tests.Jobs.{noon, rented}

-- The double nearest to one tenth.
tenth : parse_float (codes "0.1") ≡ some (finite false 7205759403792794 56)
unfolding parse_float mantissa exponent of_quotient nearest places same
tenth = refl

-- 1.005 is a little below what it says, and 12.345 just a half.
halves : (cents_of (codes "1.005") ≡ some (pos 100)) × (cents_of (codes "12.345") ≡ some (pos 1235))
unfolding cents_of parse_float mantissa exponent dollars_to_cents of_quotient nearest places same
halves = (refl, refl)

spellings :
    (cents_of (codes "1_000.5") ≡ some (pos 100050))
    × (cents_of (codes "1__0") ≡ none)
    × (cents_of (codes "0x1.8p1") ≡ some (pos 300))
    × (cents_of (codes "25e-1") ≡ some (pos 250))
    × (cents_of (codes "1.2.3") ≡ none)
unfolding cents_of parse_float mantissa exponent power_from underscores_between dollars_to_cents
    of_quotient nearest places same neg_ℤ
spellings = (refl, refl, refl, refl, refl)

-- Text for a value that is no number is accepted.
names : (parse_float (codes "-Inf") ≡ some (infinite true)) × (parse_float (codes "NaN") ≡ some nan)
unfolding parse_float same
names = (refl, refl)

format_cents_plain-money_example : format_cents_plain (negsuc 1233) ≡ money (negsuc 1233)
format_cents_plain-money_example =
    format_cents_plain-money (negsuc 1233) (omega arith) (omega arith)

cents_of-format_cents_plain_example :
    cents_of (format_cents_plain (negsuc 1233)) ≡ some (read_back (negsuc 1233))
cents_of-format_cents_plain_example =
    cents_of-format_cents_plain (negsuc 1233) (omega arith) (omega arith)

rent-IsEditable : IsEditable rent
unfolding row_allowed schedule_allowed trim_space
rent-IsEditable = record {
  cents = 100000;
  amount = refl;
  allowed = refl;
  scheduled_by_hand = λ e. cc;
  day = tt;
  plain_name = record { not_empty = refl; trimmed = refl; one_line = refl };
  plain_url = tt;
}

parse_bill_form-edit_form_example :
    parse_bill_form (edit_form (settings_bill_def_row rent)) ≡ ok (as_typed rent)
parse_bill_form-edit_form_example = parse_bill_form-edit_form rent rent-IsEditable

unchanged_edit_keeps_example :
    Grows rented.bill_definitions rented.bill_instances
      (update_bill noon
        (pos 90)
        (edit_form (settings_bill_def_row rent))
        (record { tables = rented; outages = false ∷ false ∷ true ∷ [] })).1.tables
unchanged_edit_keeps_example =
    unchanged_edit_keeps noon (pos 90) rent rent-IsEditable refl
      (record { tables = rented; outages = false ∷ false ∷ true ∷ [] }) refl (tt, tt) refl
