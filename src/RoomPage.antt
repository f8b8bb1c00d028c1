-- ===== src/RoomPage.antt =====
-- apps/web/app/auction/[id]/page.tsx: the page of one auction, from its registration to the choice
-- of what it shows. The answers of the server are events. Every event renders the page again, and
-- `useMutation` of @tanstack/react-query returns a new object at every render, so the effect that
-- joins runs after every event.
pub mod Joining
pub mod Views
mod Tests
use reverse_auction.Common.{
  ℕ, zero, suc, ◌*◌, Bool, true, false, not, ◌&&◌, ◌||◌, Option, none, some, List, [], ◌∷◌, ◌++◌,
  String, ℤ, pos, ◌-ℤ◌, ltb_ℤ, leb_ℤ, str_eq, or_value, if◌then◌else◌,
}
use reverse_auction.Slice.{given_id}

-- What the page reads of the auction; its times are instants.
pub record Listing : Type 0 where
  pub start : ℤ
  pub end : ℤ
  pub is_registered : Bool

-- The membership query: it loads, or it has found an auction or none.
pub data Membership : Type 0 where
  loading : Membership
  found : Option Listing → Membership

pub record Page : Type 0 where
  pub membership : Membership
  pub has_joined : Bool
  pub join_pending : Bool
  pub join_error : String
  pub now : ℤ

pub data Command : Type 0 where
  post_join post_leave refetch go_to_login : Command

-- The server's answer to a request to join or to leave: unauthorized is a status of 401 or 403, and
-- a refusal of either kind may have the `error` of its body.
pub data Reply : Type 0 where
  accepted : Reply
  unauthorized refused : Option String → Reply

pub data Event : Type 0 where
  membership_loaded : Option Listing → Event
  clock_ticked : ℤ → Event
  join_clicked leave_clicked error_closed : Event
  join_replied leave_replied : Reply → Event

unfoldable pub initial_page : Page
initial_page = record {
  membership = loading;
  has_joined = false;
  join_pending = false;
  join_error = "";
  now = pos 0;
}

-- `auction?.is_registered`
abbrev pub registered : Membership → Bool
registered (found (some l)) = l.is_registered
registered _ = false

-- The effect that rehydrates a registration.
abbrev pub auto_join : Page × List Command → Page × List Command
auto_join (s, commands) =
    if registered s.membership && not s.has_joined && not s.join_pending
    then (record s { join_pending = true }, commands ++ post_join ∷ [])
    else (s, commands)

abbrev pub already : String
already = "You have already joined this auction"

-- `joinMutation.onError`
abbrev pub join_failed : String → Page → Page
join_failed m s =
    if str_eq m already then record s { has_joined = true } else record s { join_error = m }

-- `joinMutation`, once the server has answered.
abbrev pub join_reply : Reply → Page → Page × List Command
join_reply accepted s = (record s { has_joined = true; join_pending = false }, refetch ∷ [])
join_reply (unauthorized m) s = (
  join_failed "Authentication required. Redirecting..." (record s { join_pending = false }),
  go_to_login ∷ [],
)
join_reply (refused m) s = (
  join_failed (or_value (given_id m) "Failed to join auction") (record s { join_pending = false }),
  [],
)

-- `leaveMutation`, once the server has answered; it treats every refusal the same.
abbrev pub leave_reply : Reply → Page → Page × List Command
leave_reply accepted s = (record s { has_joined = false }, refetch ∷ [])
leave_reply (unauthorized m) s =
    (record s { join_error = or_value (given_id m) "Could not unregister" }, [])
leave_reply (refused m) s =
    (record s { join_error = or_value (given_id m) "Could not unregister" }, [])

abbrev pub handle : Event → Page → Page × List Command
handle (membership_loaded o) s = (record s { membership = found o }, [])
handle (clock_ticked t) s = (record s { now = t }, [])
handle join_clicked s = (record s { join_pending = true }, post_join ∷ [])
handle leave_clicked s = (s, post_leave ∷ [])
handle error_closed s = (record s { join_error = "" }, [])
handle (join_replied r) s = join_reply r s
handle (leave_replied r) s = leave_reply r s

-- An event, and the effect after the render.
unfoldable pub step : Event → Page → Page × List Command
step e s = auto_join (handle e s)

abbrev pub continue : List Command → Page × List Command → Page × List Command
continue done (s, todo) = (s, done ++ todo)

pub run : List Event → Page → Page × List Command
unfolding step
run [] s = (s, [])
run (e ∷ events) s = continue (step e s).1 (run events (step e s).0)

-- `useAuctionSocket(hasJoined ? id : '')`
unfoldable pub socket_id : String → Page → String
socket_id id s = if s.has_joined then id else ""

pub data Phase : Type 0 where
  completed live upcoming : Phase

-- `phase`
unfoldable pub phase_of : ℤ → ℤ → ℤ → Phase
phase_of now start end =
    if leb_ℤ end now then completed else if leb_ℤ start now then live else upcoming

abbrev pub is_completed : Phase → Bool
is_completed completed = true
is_completed _ = false

abbrev pub is_live : Phase → Bool
is_live live = true
is_live _ = false

abbrev pub join_deadline : ℤ → ℤ
join_deadline start = start -ℤ pos (5 * 60000)

-- `canRegister`
unfoldable pub can_register : ℤ → ℤ → ℤ → Bool
can_register now start end =
    not (is_completed (phase_of now start end)) && ltb_ℤ now (join_deadline start)

-- What the page shows. The lobby has the button to leave, the one to join, or neither.
pub data View : Type 0 where
  spinner not_found opening room : View
  lobby : Phase → (can_leave can_join : Bool) → View

abbrev lobby_of : Page → Listing → Phase → View
lobby_of s l completed =
    lobby completed false (not s.has_joined && can_register s.now l.start l.end)
lobby_of s l live = lobby live false (not s.has_joined && can_register s.now l.start l.end)
lobby_of s l upcoming =
    lobby upcoming s.has_joined (not s.has_joined && can_register s.now l.start l.end)

abbrev pub listing_view : Page → Listing → Phase → View
listing_view s l p =
    if is_live p && l.is_registered && not s.has_joined
    then opening
    else if not s.has_joined || not (is_live p)
    then lobby_of s l p
    else room

abbrev pub membership_view : Page → Membership → View
membership_view s loading = spinner
membership_view s (found none) = not_found
membership_view s (found (some l)) = listing_view s l (phase_of s.now l.start l.end)

unfoldable pub view : Page → View
view s = membership_view s s.membership
