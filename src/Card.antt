-- ===== src/Card.antt =====
-- apps/web/components/dashboard/ShippingAuctionCard.tsx: the schedule of a card, its button and the
-- answers to its two requests. The times are instants: the two texts as the card reads them.
pub mod Actions
mod Tests
use reverse_auction.Common.{
  ℕ, ◌+◌, ◌*◌, ◌/◌, ◌%◌, ltb, leb, Bool, true, false, not, ◌&&◌, Option, none, some, List, [], ◌∷◌,
  ℤ, String, pos, pos_part, ◌-ℤ◌, ◌+ℤ◌, ltb_ℤ, leb_ℤ, eqb_ℤ, str_eq, ◌+s◌, show_ℕ, pad, or_value,
  if◌then◌else◌,
}
use reverse_auction.Slice.{given_id}

-- `startTime` and `endTime`: a time that is missing is now, or a day from now.
pub record Times : Type 0 where
  pub start : Option ℤ
  pub end : Option ℤ

abbrev pub start_of : Times → ℤ → ℤ
start_of t now = or_value t.start now

abbrev pub end_of : Times → ℤ → ℤ
end_of t now = or_value t.end (now +ℤ pos 86400000)

abbrev pub join_time : Times → ℤ → ℤ
join_time t now = start_of t now -ℤ pos (5 * 60000)

pub data ActionText : Type 0 where
  loading closed enter_console join_live register unregister registration_closed : ActionText

pub data TimeLabel : Type 0 where
  checking_schedule ended ends_in time_left_to_register : TimeLabel

-- `actionText`, `isClosed`, `timeLabel` and `timeDiff`
pub record Schedule : Type 0 where
  pub action_text : ActionText
  pub is_closed : Bool
  pub time_label : TimeLabel
  pub time_diff : ℤ

-- A branch for an auction that is not over: what a registered user can do, and what another one can
-- do until the registration closes.
abbrev pub open_schedule : Bool → Bool → ActionText → ActionText → TimeLabel → ℤ → Schedule
open_schedule is_registered early mine others label diff = record {
  action_text = if is_registered then mine else if early then others else registration_closed;
  is_closed = not is_registered && not early;
  time_label = label;
  time_diff = diff;
}

unfoldable pub schedule : Times → Bool → ℤ → Schedule
schedule t is_registered now =
    if eqb_ℤ now (pos 0)
    then record {
      action_text = loading;
      is_closed = false;
      time_label = checking_schedule;
      time_diff = pos 0;
    }
    else if ltb_ℤ (end_of t now) now
    then record { action_text = closed; is_closed = true; time_label = ended; time_diff = pos 0 }
    else if leb_ℤ (start_of t now) now
    then open_schedule is_registered (ltb_ℤ now (join_time t now)) enter_console join_live ends_in
        (end_of t now -ℤ now)
    else open_schedule is_registered (ltb_ℤ now (join_time t now)) unregister register
        time_left_to_register (join_time t now -ℤ now)

pub data Phase : Type 0 where
  completed live upcoming : Phase

-- `phase`
unfoldable pub phase_of : Times → ℤ → Phase
phase_of t now =
    if ltb_ℤ (end_of t now) now
    then completed
    else if leb_ℤ (start_of t now) now
    then live
    else upcoming

-- `displayTime`
abbrev hours_and_minutes : ℕ → String
hours_and_minutes secs = show_ℕ (secs % 86400 / 3600) +s "h " +s show_ℕ (secs % 3600 / 60) +s "m"

abbrev days_first : ℕ → String → String
days_first days rest = if ltb 0 days then show_ℕ days +s "d " +s rest else rest

unfoldable pub display_time : ℤ → String
display_time diff =
    if ltb_ℤ (pos 0) diff
    then days_first (pos_part diff / 1000 / 86400) (hours_and_minutes (pos_part diff / 1000))
    else ""

-- `formatCountdown`
abbrev clock_text : ℕ → String
clock_text secs =
    pad (secs % 86400 / 3600) +s ":" +s pad (secs % 3600 / 60) +s ":" +s pad (secs % 60)

unfoldable pub format_countdown : ℤ → String
format_countdown diff =
    if leb_ℤ diff (pos 0)
    then "00:00:00"
    else days_first (pos_part diff / 1000 / 86400) (clock_text (pos_part diff / 1000))

-- `startTimer` and `joinTimer`, for a browser that formats dates with `format_date`.
unfoldable pub start_timer : (ℤ → String) → Times → ℤ → String
start_timer format_date t now =
    if ltb_ℤ (pos 0) (start_of t now -ℤ now)
    then format_date (start_of t now) +s " (in " +s format_countdown (start_of t now -ℤ now) +s ")"
    else "Started"

unfoldable pub join_timer : (ℤ → String) → Times → ℤ → String
join_timer format_date t now =
    if ltb_ℤ (pos 0) (join_time t now -ℤ now)
    then format_date (join_time t now)
      +s " (in "
      +s format_countdown (join_time t now -ℤ now)
      +s ")"
    else "Closed"

pub data ToastType : Type 0 where
  success error info : ToastType

-- The card's own state.
pub record CardState : Type 0 where
  pub toast_msg : String
  pub toast_type : ToastType
  pub show_join_modal : Bool
  pub show_leave_modal : Bool
  pub show_success_modal : Bool

pub data Command : Type 0 where
  refetch go_to_login go_to_auction : Command

-- `handleActionClick`
unfoldable pub handle_action_click : ActionText → CardState → CardState × List Command
handle_action_click register s = (record s { show_join_modal = true }, [])
handle_action_click unregister s = (record s { show_leave_modal = true }, [])
handle_action_click enter_console s = (s, go_to_auction ∷ [])
handle_action_click join_live s = (record s { show_join_modal = true }, [])
handle_action_click _ s = (s, [])

-- What the server answers to a request to join or leave, or that the card has no id.
pub data Reply : Type 0 where
  accepted unauthorized no_id : Reply
  refused : Option String → Reply

abbrev join_failed : String → CardState → CardState × List Command
join_failed m s =
    if str_eq m "You have already joined this auction"
    then (
      record s {
        toast_msg = "You are already registered!";
        toast_type = info;
        show_join_modal = false;
      },
      refetch ∷ [],
    )
    else (record s { toast_msg = m; toast_type = error; show_join_modal = false }, [])

abbrev sent_to_login : CardState × List Command → CardState × List Command
sent_to_login (s, commands) = (s, go_to_login ∷ commands)

unfoldable pub join_reply : Reply → CardState → CardState × List Command
join_reply accepted s = (
  record s {
    toast_msg = "Successfully registered for auction!";
    toast_type = success;
    show_join_modal = false;
    show_success_modal = true;
  },
  refetch ∷ [],
)
join_reply unauthorized s = sent_to_login (join_failed "Authentication required. Redirecting..." s)
join_reply no_id s = join_failed "No auction ID" s
join_reply (refused m) s = join_failed (or_value (given_id m) "Failed to register") s

abbrev leave_failed : String → CardState → CardState × List Command
leave_failed m s = (record s { toast_msg = m; toast_type = error; show_leave_modal = false }, [])

unfoldable pub leave_reply : Reply → CardState → CardState × List Command
leave_reply accepted s = (
  record s {
    toast_msg = "Successfully unregistered from auction.";
    toast_type = info;
    show_leave_modal = false;
  },
  refetch ∷ [],
)
leave_reply unauthorized s =
    sent_to_login (leave_failed "Authentication required. Redirecting..." s)
leave_reply no_id s = leave_failed "No auction ID" s
leave_reply (refused m) s = leave_failed (or_value (given_id m) "Failed to unregister") s
