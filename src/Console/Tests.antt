-- ===== src/Console/Tests.antt =====
-- Runs of the bid form, and the theorems at concrete rooms.
use reverse_auction.Common.{
  ◌≡◌, refl, ◌↔◌, ◌⊎◌, true, false, none, some, String, pos, ◌+ℤ◌, ◌-ℤ◌, arith,
}
use reverse_auction.Numeric.{fin, to_number, to_fixed}
use reverse_auction.Slice.{
  reverse, AuctionState, active, initial_state, Decision, ReconcilePayload, add_optimistic,
  reconcile, reducer,
}
use reverse_auction.Engine.{is_better_bid}
use reverse_auction.Console.{
  change_amount, on_error, close_toast, Console, Browser, error, up, down, adjust, submit,
  optimistic, silent, awaiting, notice, console_state, live_and_connected, next_valid, can_bid,
}
use reverse_auction.Console.Passes.{sent}
use reverse_auction.Console.Submit.{Ready, submit_iff, IsClamped, sent-is_better_bid, sent_clamped}
use reverse_auction.Console.Adjust.{adjust_up_down}
use reverse_auction.Console.Mine.{IsShown, start, next, notice-IsShown}

abbrev room : AuctionState
room = record initial_state {
  auction_id = some "a1";
  current_price = some (pos 10000);
  minimum_bid_step = pos 500;
  is_connected = true;
  auction_status = active;
  is_participant = true;
}

abbrev browser : Browser
browser = record {
  now = pos 10;
  sent_at = pos 11;
  uuid = "uuid-1";
  user_id = some "u1";
  user_name = none;
}

abbrev typed : String → Console
typed text = record { bid_amount = text; toast = none }

refused_test :
    (submit browser room (typed "98")).0.toast
    ≡ some (record { message = "Your bid must be at most $95.00."; type = error })
unfolding submit can_bid next_valid to_number to_fixed initial_state ◌-ℤ◌
refused_test = refl

toast_test :
    (close_toast (on_error none (change_amount "9" (typed ""))) ≡ typed "9")
    × ((on_error (some "Too late") (typed "")).toast
        ≡ some (record { message = "Too late"; type = error }))
unfolding close_toast on_error change_amount
toast_test = (refl, refl)

state_test : console_state room ≡ live_and_connected
unfolding console_state initial_state
state_test = refl

submit_iff_example :
    ((submit browser room (typed "95")).1 ≡ sent browser "a1" (pos 9500))
    ↔ Ready room "95" "a1" (pos 9500)
submit_iff_example = submit_iff browser room (typed "95") "a1" (pos 9500)

sends : (submit browser room (typed "95")).1 ≡ sent browser "a1" (pos 9500)
unfolding submit can_bid next_valid to_number initial_state ◌-ℤ◌
sends = refl

free : ¬ IsClamped room (pos 10000)
unfolding initial_state ◌-ℤ◌
free (back, low) = omega (arith, low)

sent-is_better_bid_example : is_better_bid reverse (pos 10000) (pos 9500) (pos 500) ≡ true
unfolding initial_state
sent-is_better_bid_example =
    sent-is_better_bid browser room (typed "95") "a1" (pos 9500) (pos 10000) refl (omega arith) free
      sends

abbrev low_room : AuctionState
low_room = record room { current_price = some (pos 300) }

sends_low : (submit browser low_room (typed "0.01")).1 ≡ sent browser "a1" (pos 1)
unfolding submit can_bid next_valid to_number initial_state ◌-ℤ◌
sends_low = refl

clamped : IsClamped low_room (pos 300)
unfolding initial_state ◌-ℤ◌
clamped = (refl, omega arith)

sent_clamped_test : is_better_bid reverse (pos 300) (pos 1) (pos 500) ≡ false
unfolding initial_state
sent_clamped_test =
    sent_clamped browser low_room (typed "0.01") "a1" (pos 1) (pos 300) refl clamped sends_low

reads : to_number "95" ≡ fin (pos 9500)
unfolding to_number
reads = refl

adjust_up_down_test :
    (to_number (adjust up room (typed "95")).bid_amount ≡ fin (pos 9500 +ℤ pos 500))
    × (to_number (adjust down room (adjust up room (typed "95"))).bid_amount ≡ fin (pos 9500))
unfolding initial_state
adjust_up_down_test = adjust_up_down room (typed "95") (pos 9500) reads (omega arith) (omega arith)

abbrev decision : ReconcilePayload
decision = record {
  id = some "u110";
  status = Decision.confirmed;
  amount = pos 9500;
  bidder = "u1";
  timestamp = pos 10;
}

abbrev shown : AuctionState
shown =
    reducer (pos 12) "f"
      (reducer (pos 11) "f" initial_state (add_optimistic (optimistic browser (pos 9500))))
      (reconcile decision)

shown-IsShown : IsShown shown
shown-IsShown =
    next (pos 12) "f" (reconcile decision)
      (next (pos 11) "f" (add_optimistic (optimistic browser (pos 9500))) start refl) refl

notice-IsShown_test : (notice shown ≡ silent) ⊎ (notice shown ≡ awaiting)
notice-IsShown_test = notice-IsShown shown shown-IsShown
