-- ===== src/Handlers/Events.antt =====
-- internal/handlers/events.go: the calendar events of unpaid bills, and the action that marks one
-- paid. Handlers.Auth puts the guard of the bearer token around both.
pub mod Taps
pub mod Refusals
use billtracker_plugin.Base.{
  ℕ, Bool, true, false, ◌||◌, Option, none, some, List, [], ◌∷◌, ◌++◌, map, Bytes, codes, same,
  is_space, cut_prefix, ◌==◌, if◌then◌else◌,
}
use billtracker_plugin.Base.Int.{ℤ}
use billtracker_plugin.Base.Atoi.{atoi, is_digit}
use billtracker_plugin.Base.Decimal.{decimal}
use billtracker_plugin.Float.{format_cents}
use billtracker_plugin.Errors.{Result, ok, err}
use billtracker_plugin.Calendar.{Date}
use billtracker_plugin.Models.Rows.{Instant, BillInstanceView}
use billtracker_plugin.Models.Database.{Exec, pure, attempt}
use billtracker_plugin.Models.Instances.{list_upcoming_unpaid, mark_paid}
use billtracker_plugin.Handlers.Forms.{parse_date}
use billtracker_plugin.Handlers.Auth.{Answer, bad_request, not_found, server_error, served}

-- `eventActionOut`.
pub record EventActionOut : Type 0 where
  pub id : Bytes
  pub label : Bytes
  pub requires_parent : Bool

-- `eventOut`: an all-day event on the day it starts, which ends a day later; the location and the
-- description are empty.
pub record EventOut : Type 0 where
  pub uid : Bytes
  pub summary : Bytes
  pub starts_at : Date
  pub all_day : Bool
  pub actions : List EventActionOut

-- `markPaidActions`.
unfoldable pub mark_paid_actions : List EventActionOut
mark_paid_actions =
    record { id = codes "mark_paid"; label = codes "Mark Paid"; requires_parent = true } ∷ []

abbrev pub uid_prefix : Bytes
uid_prefix = codes "bill-instance-"

-- `fmt.Sprintf("bill-instance-%d", …)`; ids are not negative.
unfoldable pub uid_of : ℕ → Bytes
uid_of id = uid_prefix ++ decimal id

abbrev pub event_out : BillInstanceView → EventOut
event_out inst = record {
  uid = uid_of inst.instance_id;
  summary = inst.name ++ codes " bill due (" ++ format_cents inst.amount_cents ++ codes ")";
  starts_at = inst.due_date;
  all_day = true;
  actions = mark_paid_actions;
}

abbrev list_events : Date → Exec (Answer (List EventOut))
list_events to =
    attempt (list_upcoming_unpaid to) (λ _. pure server_error)
      λ instances. pure (served (map event_out instances))

abbrev pub in_window : Option Date → Option Date → Exec (Answer (List EventOut))
in_window none to = pure bad_request
in_window (some from) none = pure bad_request
in_window (some from) (some to) = list_events to

-- `Events`, over its query parameters.
unfoldable pub events : Bytes → Bytes → Exec (Answer (List EventOut))
events from to = in_window (parse_date from) (parse_date to)

-- The longest beginning of digits.
unfoldable pub leading_digits : Bytes → Bytes
leading_digits [] = []
leading_digits (c ∷ s) = let rest = leading_digits s in if is_digit c then c ∷ rest else []

-- The text that `%d` takes: a sign and digits.
unfoldable pub number_text : Bytes → Bytes
number_text [] = []
number_text (c ∷ s) =
    if c == b'-' || c == b'+' then c ∷ leading_digits s else leading_digits (c ∷ s)

-- Before a number `Sscanf` skips spaces, and fails at the end of a line.
unfoldable pub scan_int : Bytes → Option ℤ
scan_int [] = none
scan_int (c ∷ s) =
    let further = scan_int s in
    if c == 10 then none else if is_space c then further else atoi (number_text (c ∷ s))

abbrev scan_behind : Option Bytes → Option ℤ
scan_behind none = none
scan_behind (some rest) = scan_int rest

-- `fmt.Sscanf(uid, "bill-instance-%d", …)`, which leaves what follows the number unread.
unfoldable pub scan_uid : Bytes → Option ℤ
scan_uid uid = scan_behind (cut_prefix uid uid_prefix)

abbrev pub mark_scanned : Instant → Option ℤ → Exec (Answer (Unit {0}))
mark_scanned now none = pure bad_request
mark_scanned now (some id) =
    attempt (mark_paid now id) (λ _. pure server_error) λ _. pure (served tt)

abbrev pub mark_in : Instant → Option Bytes → Exec (Answer (Unit {0}))
mark_in now none = pure bad_request
mark_in now (some uid) = mark_scanned now (scan_uid uid)

-- `Action`, over the action's id in the path and the uid in the body; `none` is a body that is no
-- JSON object of the right form.
unfoldable pub action : Instant → Bytes → Option Bytes → Exec (Answer (Unit {0}))
action now action_id uid =
    if same action_id (codes "mark_paid") then mark_in now uid else pure not_found

-- `Healthz`.
unfoldable pub healthz : Exec (Answer (Unit {0}))
healthz = pure (served tt)
