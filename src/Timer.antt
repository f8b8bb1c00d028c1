-- ===== src/Timer.antt =====
-- apps/web/hooks/useTimerWorker.ts, apps/web/hooks/useServerTimeSync.ts and
-- apps/web/components/auction/CountdownTimer.tsx: the worker that counts down to the next phase,
-- the effect that starts and stops it, and the clock that the room shows.
pub mod Phases
pub mod Stuck
pub mod Display
mod Tests
use Prim.Native.String.{count}
use reverse_auction.Common.{
  ℕ, zero, suc, ◌+◌, ◌-◌, ◌*◌, ◌/◌, ◌%◌, Bool, true, false, ◌&&◌, Option, none, some, List, [], ◌∷◌,
  String, ℤ, pos, pos_part, ◌+ℤ◌, ◌-ℤ◌, leb_ℤ, ltb, leb, max_ℤ, if◌then◌else◌, show_ℕ, ◌+s◌,
}
use reverse_auction.Slice.{
  AuctionState, AuctionStatus, waiting, active, ended, truthy, update_auction_status, set_time_skew,
}

-- The payload of the worker's START message.
pub record Payload : Type 0 where
  pub start_time : Option ℤ
  pub end_time : Option ℤ
  pub time_skew : ℤ
  pub status : AuctionStatus

-- `ticking` is false once the worker has cleared its interval.
pub record Worker : Type 0 where
  pub payload : Payload
  pub ticking : Bool

-- What the worker posts on a tick.
pub record Message : Type 0 where
  pub remaining : ℤ
  pub needs_update : Bool

-- `Math.max(0, t - now)`, and whether it is `<= 0`.
abbrev until : ℤ → ℤ → Message
until now t =
    let remaining = max_ℤ (pos 0) (t -ℤ now) in
    record { remaining = remaining; needs_update = leb_ℤ remaining (pos 0) }

abbrev idle : Message
idle = record { remaining = pos 0; needs_update = false }

abbrev aim : ℤ → Option ℤ → Message
aim now none = idle
aim now (some t) = until now t

abbrev by_status : AuctionStatus → ℤ → Payload → Message
by_status waiting now p = aim now (truthy p.start_time)
by_status active now p = aim now (truthy p.end_time)
by_status ended now p = idle

-- One round of the worker's interval, at the worker's clock.
pub tick : ℤ → Payload → Message
tick now p = by_status p.status (now +ℤ p.time_skew) p

-- The hook's own state: what it returns, and the worker that runs.
pub record TimerState : Type 0 where
  pub time_left : ℤ
  pub worker : Option Worker

abbrev pub payload_of : AuctionState → Payload
payload_of s = record {
  start_time = s.start_time;
  end_time = s.end_time;
  time_skew = s.time_skew;
  status = s.auction_status;
}

abbrev start_unless : Option ℤ → AuctionStatus → Payload → Option Worker
start_unless none status p = none
start_unless (some t) ended p = none
start_unless (some t) _ p = some (record { payload = p; ticking = true })

-- The effect, run on mount and whenever one of its dependencies changed: the old worker is
-- terminated, and a new one starts unless there is no end time or the auction has ended.
pub run_effect : AuctionState → TimerState → TimerState
run_effect s t = record t {
  worker = start_unless (truthy s.end_time) s.auction_status (payload_of s);
}

abbrev pub same_status : AuctionStatus → AuctionStatus → Bool
same_status waiting waiting = true
same_status active active = true
same_status ended ended = true
same_status _ _ = false

-- The room: the store and the hook.
pub record Room : Type 0 where
  pub store : AuctionState
  pub timer : TimerState

-- React runs the effect again if the reducer changed the status; it changes no other dependency.
abbrev rerun : AuctionState → AuctionState → TimerState → Room
rerun old new t =
    if same_status old.auction_status new.auction_status
    then record { store = new; timer = t }
    else record { store = new; timer = run_effect new t }

-- `onmessage`: the remaining time is kept, and a message that asks for it updates the status at the
-- clock `seen` of the page.
abbrev on_message : ℤ → Message → Worker → Room → Room
on_message seen m w r =
    let w' : Worker = record {
      payload = w.payload;
      ticking = if m.needs_update then false else w.ticking;
    } in
    let t : TimerState = record { time_left = m.remaining; worker = some w' } in
    if m.needs_update
    then rerun r.store (update_auction_status seen r.store) t
    else record { store = r.store; timer = t }

abbrev tick_worker : ℤ → ℤ → Option Worker → Room → Room
tick_worker at seen none r = r
tick_worker at seen (some w) r = if w.ticking then on_message seen (tick at w.payload) w r else r

-- One interval: the worker reads its clock at `at`, and the page handles the message at `seen`.
pub interval : ℤ → ℤ → Room → Room
interval at seen r = tick_worker at seen r.timer.worker r

pub run : List (ℤ × ℤ) → Room → Room
run [] r = r
run ((at, seen) ∷ rounds) r = run rounds (interval at seen r)

-- useServerTimeSync.ts: the skew that the hook sets, and its `isSyncing` flag afterwards.
pub sync_time : AuctionState → AuctionState × Bool
sync_time s = (set_time_skew (pos 0) s, false)

-- CountdownTimer.tsx; the time left is a whole number, so `Math.floor` leaves it.
pub record Countdown : Type 0 where
  pub hours : ℕ
  pub minutes : ℕ
  pub seconds : ℕ
  pub milliseconds : ℕ
  pub is_urgent : Bool
  pub label : String
  pub text : String

-- `s.padStart(width, '0')`, for the few characters that a number part lacks.
abbrev pad_start : ℕ → String → String
pad_start width s =
    if leb width (count s) then s else if leb width (count s + 1) then "0" +s s else "00" +s s

abbrev pub safe_time : ℤ → ℕ
safe_time left = pos_part left

abbrev label_of : AuctionStatus → String
label_of waiting = "Starts In:"
label_of active = "Ends In:"
label_of ended = "Auction Ended"

abbrev is_active : AuctionStatus → Bool
is_active active = true
is_active _ = false

unfoldable pub countdown : AuctionStatus → ℤ → Countdown
countdown status left =
    let t = safe_time left in
    let hours = t / 3600000 in
    let minutes = t % 3600000 / 60000 in
    let seconds = t % 60000 / 1000 in
    let milliseconds = t % 1000 in
    record {
      hours = hours;
      minutes = minutes;
      seconds = seconds;
      milliseconds = milliseconds;
      is_urgent = is_active status && ltb 0 t && leb t 20000;
      label = label_of status;
      text =
          pad_start 2 (show_ℕ hours)
          +s ":"
          +s pad_start 2 (show_ℕ minutes)
          +s ":"
          +s pad_start 2 (show_ℕ seconds)
          +s "."
          +s pad_start 3 (show_ℕ milliseconds);
    }
