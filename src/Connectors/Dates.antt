-- ===== src/Connectors/Dates.antt =====
-- Go's time.ParseInLocation, for the layouts that the connectors try.
use billtracker_plugin.Base.{
  ℕ, ◌+◌, ◌-◌, ◌*◌, Bool, true, false, not, ◌&&◌, Option, none, some, List, [], ◌∷◌, Bytes, codes,
  leb, ◌==◌, if◌then◌else◌,
}
use billtracker_plugin.Base.Atoi.{is_digit}
use billtracker_plugin.Calendar.{Date, date, days_in_month}
use billtracker_plugin.Models.Rows.{between}

-- The parts of a layout: `01` and `1`, `January` and `Jan`, `2` and `02`, `2006`, a space, and
-- other text.
pub data Piece : Type 0 where
  zero_month num_month long_month short_month : Piece
  day_number zero_day long_year : Piece
  space : Piece
  literal : ℕ → Piece

abbrev pub Layout : Type 0
Layout = List Piece

abbrev digit : ℕ → ℕ
digit c = c - b'0'

-- `getnum`: one digit or two, or just two.
unfoldable pub get_num : Bool → Bytes → Option (ℕ × Bytes)
get_num fixed [] = none
get_num fixed (a ∷ []) = if is_digit a && not fixed then some (digit a, []) else none
get_num fixed (a ∷ b ∷ s) =
    if is_digit a && is_digit b
    then some (digit a * 10 + digit b, s)
    else if is_digit a && not fixed
    then some (digit a, b ∷ s)
    else none

abbrev lower : ℕ → ℕ
lower c = if leb b'A' c && leb c b'Z' then c + 32 else c

-- `match`: a prefix without regard to the case of letters.
unfoldable pub cut_name : Bytes → Bytes → Option Bytes
cut_name [] s = some s
cut_name (p ∷ ps) [] = none
cut_name (p ∷ ps) (c ∷ s) = let rest = cut_name ps s in if lower p == lower c then rest else none

abbrev numbered : ℕ → Option (ℕ × Bytes) → Option Bytes → Option (ℕ × Bytes)
numbered n other none = other
numbered n other (some rest) = some (n, rest)

-- `lookup`: the first name that the text begins with, numbered from `n`.
unfoldable pub lookup_name : ℕ → List Bytes → Bytes → Option (ℕ × Bytes)
lookup_name n [] s = none
lookup_name n (name ∷ names) s = numbered n (lookup_name (n + 1) names s) (cut_name name s)

abbrev pub long_month_names : List Bytes
long_month_names =
    codes "January"
    ∷ codes "February"
    ∷ codes "March"
    ∷ codes "April"
    ∷ codes "May"
    ∷ codes "June"
    ∷ codes "July"
    ∷ codes "August"
    ∷ codes "September"
    ∷ codes "October"
    ∷ codes "November"
    ∷ codes "December"
    ∷ []

abbrev pub short_month_names : List Bytes
short_month_names =
    codes "Jan"
    ∷ codes "Feb"
    ∷ codes "Mar"
    ∷ codes "Apr"
    ∷ codes "May"
    ∷ codes "Jun"
    ∷ codes "Jul"
    ∷ codes "Aug"
    ∷ codes "Sep"
    ∷ codes "Oct"
    ∷ codes "Nov"
    ∷ codes "Dec"
    ∷ []

unfoldable pub get_year : Bytes → Option (ℕ × Bytes)
get_year (a ∷ b ∷ c ∷ d ∷ s) =
    if is_digit a && is_digit b && is_digit c && is_digit d
    then some (((digit a * 10 + digit b) * 10 + digit c) * 10 + digit d, s)
    else none
get_year _ = none

unfoldable pub skip_spaces : Bytes → Bytes
skip_spaces [] = []
skip_spaces (c ∷ s) = let rest = skip_spaces s in if c == 32 then rest else c ∷ s

-- A space of the layout stands for one or more in the text, or for its end.
abbrev cut_spaces : Bytes → Option Bytes
cut_spaces [] = some []
cut_spaces (c ∷ s) = if c == 32 then some (skip_spaces s) else none

abbrev cut_literal : ℕ → Bytes → Option Bytes
cut_literal p [] = none
cut_literal p (c ∷ s) = if p == c then some s else none

abbrev set_month : Date → Option (ℕ × Bytes) → Option (Date × Bytes)
set_month t none = none
set_month t (some (m, s)) = if between 1 12 m then some (record t { month = m }, s) else none

abbrev set_day : Date → Option (ℕ × Bytes) → Option (Date × Bytes)
set_day t none = none
set_day t (some (d, s)) = some (record t { day = d }, s)

abbrev set_year : Date → Option (ℕ × Bytes) → Option (Date × Bytes)
set_year t none = none
set_year t (some (y, s)) = some (record t { year = y }, s)

abbrev unset : Date → Option Bytes → Option (Date × Bytes)
unset t none = none
unset t (some s) = some (t, s)

-- One part of the layout, on the text that is left.
abbrev read_piece : Piece → Date → Bytes → Option (Date × Bytes)
read_piece zero_month t s = set_month t (get_num true s)
read_piece num_month t s = set_month t (get_num false s)
read_piece long_month t s = set_month t (lookup_name 1 long_month_names s)
read_piece short_month t s = set_month t (lookup_name 1 short_month_names s)
read_piece day_number t s = set_day t (get_num false s)
read_piece zero_day t s = set_day t (get_num true s)
read_piece long_year t s = set_year t (get_year s)
read_piece space t s = unset t (cut_spaces s)
read_piece (literal p) t s = unset t (cut_literal p s)

-- A day that exists, with nothing behind it.
abbrev finished : Date → Bytes → Option Date
finished t [] = if between 1 (days_in_month t.year t.month) t.day then some t else none
finished t (c ∷ s) = none

abbrev go_on : (Date → Bytes → Option Date) → Option (Date × Bytes) → Option Date
go_on next none = none
go_on next (some (t, s)) = next t s

unfoldable pub read_layout : Layout → Date → Bytes → Option Date
read_layout [] t s = finished t s
read_layout (p ∷ ps) t s = go_on (read_layout ps) (read_piece p t s)

-- `time.ParseInLocation(layout, s, time.Local)`; `none` is an error.
abbrev pub parse_layout : Layout → Bytes → Option Date
parse_layout layout s = read_layout layout (date 1 1 1) s

-- "January 2, 2006" and "Jan 2, 2006".
abbrev pub long_form : Layout
long_form = long_month ∷ space ∷ day_number ∷ literal b',' ∷ space ∷ long_year ∷ []

abbrev pub short_form : Layout
short_form = short_month ∷ space ∷ day_number ∷ literal b',' ∷ space ∷ long_year ∷ []

-- "01/02/2006" and "1/2/2006".
abbrev pub padded_form : Layout
padded_form = zero_month ∷ literal b'/' ∷ zero_day ∷ literal b'/' ∷ long_year ∷ []

abbrev pub slashed_form : Layout
slashed_form = num_month ∷ literal b'/' ∷ day_number ∷ literal b'/' ∷ long_year ∷ []

-- "2006-01-02".
abbrev pub iso_form : Layout
iso_form = long_year ∷ literal b'-' ∷ zero_month ∷ literal b'-' ∷ zero_day ∷ []
