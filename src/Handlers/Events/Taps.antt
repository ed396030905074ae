-- ===== src/Handlers/Events/Taps.antt =====
-- A tap on an event: from its uid to the bill's instance, and the lists of events after it.
use billtracker_plugin.Base.{
  ℕ, ◌≡◌, ◌≢◌, refl, ap, sym, ◌∙◌, true, false, none, some, some-injective, List, [], ◌∷◌, map,
  Bytes, codes, All, All-imp, cut_prefix, cut_prefix-append, exists, ◌==◌, arith, same_refl,
}
use billtracker_plugin.Base.Int.{pos, id_is, fits_int64}
use billtracker_plugin.Base.Atoi.{atoi, is_digit, digits}
use billtracker_plugin.Base.Decimal.{decimal, decimal-All, digits-decimal, atoi-decimal}
use billtracker_plugin.Errors.{ok}
use billtracker_plugin.Calendar.{Date}
use billtracker_plugin.Models.Rows.{Instant, Tables}
use billtracker_plugin.Models.Database.{pure}
use billtracker_plugin.Models.Database.Quiet.{quiet, attempt_ok}
use billtracker_plugin.Models.Instances.{list_upcoming_unpaid, mark_paid}
use billtracker_plugin.Models.Instances.Listed.{
  IsListed, paid_tables, mark_paid-quiet, paid_left_unlisted,
}
use billtracker_plugin.Handlers.Forms.{parse_date}
use billtracker_plugin.Handlers.Auth.{served}
use billtracker_plugin.Handlers.Events.{
  EventOut, event_out, uid_prefix, uid_of, in_window, events, leading_digits, number_text, scan_int,
  scan_uid, mark_scanned, action,
}

leading_digits-All : (s : Bytes) → All (λ c. is_digit c ≡ true) s → leading_digits s ≡ s
unfolding leading_digits
leading_digits-All [] h = refl
leading_digits-All (c ∷ s) h = rw (h.0, leading_digits-All s h.1)

-- Digits are taken whole, with no sign and no space before them.
scan_int-All : (s : Bytes) → All (λ c. is_digit c ≡ true) s → digits s ≢ none → scan_int s ≡ atoi s
unfolding scan_int number_text
scan_int-All [] h some_digit = absurd (some_digit refl)
scan_int-All (c ∷ s) h some_digit = ground (arith, leading_digits-All (c ∷ s) h, h.0)

some_number : (n : ℕ) → digits (decimal n) ≢ none
some_number n e = cc (e, digits-decimal n)

-- The uid of an event is read back as the id of its instance, for every id that int64 holds.
pub scan_uid-uid_of : (id : ℕ) → fits_int64 (pos id) ≡ true → scan_uid (uid_of id) ≡ some (pos id)
unfolding scan_uid uid_of
scan_uid-uid_of id fits =
    rw (cut_prefix-append uid_prefix (decimal id))
      (scan_int-All (decimal id) (decimal-All id) (some_number id) ∙ atoi-decimal id fits)

-- Different instances have different uids.
uid_apart : (id k : ℕ) → (id == k) ≡ false → uid_of id ≢ uid_of k
unfolding uid_of
uid_apart id k differ e =
    let texts : some (decimal id) ≡ some (decimal k) =
      sym (cut_prefix-append uid_prefix (decimal id))
      ∙ ap (λ u. cut_prefix u uid_prefix) e
      ∙ cut_prefix-append uid_prefix (decimal k) in
    let numbers : some id ≡ some k =
      sym (digits-decimal id)
      ∙ ap digits (some-injective (decimal id) (decimal k) texts)
      ∙ digits-decimal k in
    ground (arith, numbers)

All-map :
    {A B : Type 0} (P : B → Type 0) (f : A → B) (xs : List A)
    → All (λ x. P (f x)) xs
    → All P (map f xs)
All-map P f [] h = tt
All-map P f (x ∷ xs) h = (h.0, All-map P f xs h.1)

mark_scanned-quiet :
    (now : Instant) (k : ℕ) (t : Tables)
    → exists (λ i. id_is (pos k) i.id) t.bill_instances ≡ true
    → mark_scanned now (some (pos k)) (quiet t) ≡ (ok (served tt), quiet (paid_tables now k t))
unfolding pure
mark_scanned-quiet now k t there =
    attempt_ok (mark_paid now (pos k)) _ _ (quiet t) (quiet (paid_tables now k t)) tt
      (mark_paid-quiet now k t there)

-- The action on an event's uid marks the event's instance paid, and no other.
action-uid_of :
    (now : Instant) (k : ℕ) (t : Tables)
    → fits_int64 (pos k) ≡ true
    → exists (λ i. id_is (pos k) i.id) t.bill_instances ≡ true
    → action now (codes "mark_paid") (some (uid_of k)) (quiet t)
      ≡ (ok (served tt), quiet (paid_tables now k t))
unfolding action
action-uid_of now k t fits there =
    rw (same_refl (codes "mark_paid"), scan_uid-uid_of k fits) (mark_scanned-quiet now k t there)

-- The events of a window in which no event has the uid.
abbrev pub LacksEvent : Bytes → Bytes → Bytes → Tables → Type 0
LacksEvent uid from to t =
    (es : List EventOut) × (events from to (quiet t) ≡ (ok (served es), quiet t))
    × All (λ e. e.uid ≢ uid) es

events-IsListed :
    (from_text to_text : Bytes) (from to : Date) (k : ℕ) (t : Tables)
    → parse_date from_text ≡ some from
    → parse_date to_text ≡ some to
    → IsListed (λ id. (id == k) ≡ false) to t
    → LacksEvent (uid_of k) from_text to_text t
unfolding events pure
events-IsListed from_text to_text from to k t from_is to_is (views, listed, apart) = (
  map event_out views,
  ap (λ o. in_window o (parse_date to_text) (quiet t)) from_is
      ∙ ap (λ o. in_window (some from) o (quiet t)) to_is
      ∙ attempt_ok (list_upcoming_unpaid to) _ _ (quiet t) (quiet t) views listed,
  All-map (λ e. e.uid ≢ uid_of k) event_out views
      (All-imp _ views (λ v. uid_apart v.instance_id k) apart),
)

-- A tap on the event of an instance in the table, on a database that fails nothing, is answered
-- with 200 and marks that instance paid; in the state that it leaves, no list of events, whatever
-- its window, has the event any more.
pub tapped_event_goes :
    (now : Instant) (k : ℕ) (t : Tables) (from_text to_text : Bytes) (from to : Date)
    → fits_int64 (pos k) ≡ true
    → exists (λ i. id_is (pos k) i.id) t.bill_instances ≡ true
    → parse_date from_text ≡ some from
    → parse_date to_text ≡ some to
    → (action now (codes "mark_paid") (some (uid_of k)) (quiet t)
        ≡ (ok (served tt), quiet (paid_tables now k t)))
      × LacksEvent (uid_of k) from_text to_text (paid_tables now k t)
tapped_event_goes now k t from_text to_text from to fits there from_is to_is = (
  action-uid_of now k t fits there,
  events-IsListed from_text to_text from to k (paid_tables now k t) from_is to_is
      (paid_left_unlisted now to k t),
)
