-- ===== src/Timer/Stuck.antt =====
-- The moment at which useTimerWorker.ts and the slice disagree: the worker asks for an update when
-- no time is left, and `updateAuctionStatus` calls the auction ended only after that moment.
use reverse_auction.Common.{
  ◌≡◌, refl, sym, true, false, ap, some, List, [], ◌∷◌, ℤ, ◌≤ℤ◌, ◌+ℤ◌, arith, ◌∙◌,
}
use reverse_auction.Slice.{
  AuctionState, AuctionStatus, waiting, active, ended, truthy, status_at, update_auction_status,
}
use reverse_auction.Timer.{Worker, Room, payload_of, interval, run, until, on_message, same_status}
use reverse_auction.Timer.Phases.{counting, target, until_due, tick-target}

abbrev stopped : AuctionState → Worker
stopped s = record { payload = payload_of s; ticking = false }

-- Once the worker has cleared its interval, no further round does anything.
run-stopped :
    (rounds : List (ℤ × ℤ)) (s : AuctionState) (left : ℤ)
    → let r : Room = record {
      store = s;
      timer = record { time_left = left; worker = some (stopped s) };
    } in
      run rounds r ≡ r
unfolding run interval
run-stopped [] s left = refl
run-stopped ((at, seen) ∷ rounds) s left = run-stopped rounds s left

active_at_end : (now start end : ℤ) → start ≤ℤ end → now ≡ end → status_at now start end ≡ active
active_at_end now start end h e = rw e (ground arith)

update_at_end :
    (now start end : ℤ) (s : AuctionState)
    → s.auction_status ≡ active
    → truthy s.start_time ≡ some start
    → truthy s.end_time ≡ some end
    → start ≤ℤ end
    → now +ℤ s.time_skew ≡ end
    → update_auction_status now s ≡ s
unfolding update_auction_status
update_at_end now start end s act p q h e =
    rw (p, q)
      (ap (λ (x : AuctionStatus). record s { auction_status = x })
        (active_at_end (now +ℤ s.time_skew) start end h e ∙ sym act))

same_status_refl : (a : AuctionStatus) → same_status a a ≡ true
same_status_refl waiting = refl
same_status_refl active = refl
same_status_refl ended = refl

interval_stops :
    (now start end left : ℤ) (s : AuctionState)
    → s.auction_status ≡ active
    → truthy s.start_time ≡ some start
    → truthy s.end_time ≡ some end
    → start ≤ℤ end
    → now +ℤ s.time_skew ≡ end
    → interval now now
        (record { store = s; timer = record { time_left = left; worker = some (counting s) } })
      ≡ record {
        store = s;
        timer = record {
          time_left = (until (now +ℤ s.time_skew) end).remaining;
          worker = some (stopped s);
        };
      }
unfolding interval
interval_stops now start end left s act p q h e =
    let aims : target s ≡ some end = ground arith in
    let due : end ≤ℤ now +ℤ s.time_skew = rw e (omega arith) in
    rw
      (
        tick-target now end s aims,
        until_due (now +ℤ s.time_skew) end due,
        on_message,
        update_at_end now start end s act p q h e,
        same_status_refl s.auction_status,
      )
      refl

-- A room whose auction is active and whose worker counts. If worker and page read the clock at the
-- very end of the auction, the page finds it still active, the worker has stopped, and no later
-- round ends the auction, however late.
pub run_stuck :
    (now start end left : ℤ) (s : AuctionState) (rounds : List (ℤ × ℤ))
    → s.auction_status ≡ active
    → truthy s.start_time ≡ some start
    → truthy s.end_time ≡ some end
    → start ≤ℤ end
    → now +ℤ s.time_skew ≡ end
    → (run ((now, now) ∷ rounds) (record {
      store = s;
      timer = record { time_left = left; worker = some (counting s) };
    })).store.auction_status
      ≡ active
unfolding run
run_stuck now start end left s rounds act p q h e =
    ap (λ (r : Room). r.store.auction_status)
      (ap (run rounds) (interval_stops now start end left s act p q h e) ∙ run-stopped rounds s _)
    ∙ act
