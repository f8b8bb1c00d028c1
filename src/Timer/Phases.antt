-- ===== src/Timer/Phases.antt =====
-- The worker of useTimerWorker.ts and the phases of the room.
use reverse_auction.Common.{
  ◌≡◌, ◌≢◌, ◌↔◌, refl, sym, ◌∙◌, inl, inr, true, false, Option, none, some, ℤ, pos, ◌≤ℤ◌, ◌<ℤ◌,
  ◌+ℤ◌, ◌-ℤ◌, arith, -ℤ_parts, Bool-cases, eq_of_parts,
}
use reverse_auction.Slice.{
  AuctionState, AuctionStatus, waiting, active, ended, truthy, update_auction_status,
}
use reverse_auction.Slice.Status.{InPhase, update_auction_status-InPhase}
use reverse_auction.Timer.{
  Worker, TimerState, Room, payload_of, tick, run_effect, interval, same_status, rerun, tick_worker,
  on_message, until,
}

-- The worker, where there is one, counts for the times and the status of the store, and there is
-- none once the auction has ended.
abbrev Fits : AuctionState → Option Worker → Type 0
Fits s none = Unit
Fits s (some w) = (w.payload ≡ payload_of s) × (s.auction_status ≢ ended)

abbrev pub IsSynced : Room → Type 0
IsSynced r = Fits r.store r.timer.worker

run_effect-IsSynced :
    (s : AuctionState) (t : TimerState) → IsSynced (record { store = s; timer = run_effect s t })
unfolding run_effect
run_effect-IsSynced s t = ground arith

update-payload :
    (seen : ℤ) (s : AuctionState)
    → same_status s.auction_status (update_auction_status seen s).auction_status ≡ true
    → payload_of (update_auction_status seen s) ≡ payload_of s
unfolding update_auction_status
update-payload seen s h = ground arith

same_status-ended : (a b : AuctionStatus) → same_status a b ≡ true → a ≢ ended → b ≢ ended
same_status-ended waiting waiting e h k = cc
same_status-ended active active e h k = cc
same_status-ended ended b e h k = h refl
same_status-ended waiting active e h k = cc
same_status-ended waiting ended e h k = cc
same_status-ended active waiting e h k = cc
same_status-ended active ended e h k = cc

rerun-IsSynced :
    (seen : ℤ) (s : AuctionState) (w : Worker) (t : TimerState)
    → t.worker ≡ some w
    → w.payload ≡ payload_of s
    → s.auction_status ≢ ended
    → IsSynced (rerun s (update_auction_status seen s) t)
rerun-IsSynced seen s w t e same live =
    elim (Bool-cases (same_status s.auction_status (update_auction_status seen s).auction_status)) [
      | inl kept ↦
          rw (kept, rerun)
            (rw e (same ∙ sym (update-payload seen s kept), same_status-ended _ _ kept live))
      | inr changed ↦ rw (changed, rerun) (run_effect-IsSynced (update_auction_status seen s) t)
    ]

tick_worker-IsSynced :
    (at seen : ℤ) (o : Option Worker) (r : Room)
    → Fits r.store o
    → IsSynced r
    → IsSynced (tick_worker at seen o r)
tick_worker-IsSynced at seen none r f h = h
tick_worker-IsSynced at seen (some w) r f h = elim (Bool-cases w.ticking) [
  | inr stopped ↦ rw (stopped, tick_worker) h
  | inl live ↦
      rw (live, tick_worker)
        (elim (Bool-cases (tick at w.payload).needs_update) [
          | inr quiet ↦ rw (quiet, on_message) f
          | inl due ↦ rw (due, on_message) (rerun-IsSynced seen r.store _ _ refl f.0 f.1)
        ])
]

-- Every interval leaves the worker in step with the store: it counts for the store's times and
-- status, and none runs for an ended auction.
pub interval-IsSynced : (at seen : ℤ) (r : Room) → IsSynced r → IsSynced (interval at seen r)
unfolding interval
interval-IsSynced at seen r h = tick_worker-IsSynced at seen r.timer.worker r h h

-- The time that a phase waits for: the start while waiting, the end while active.
abbrev pub target : AuctionState → Option ℤ
target s = elim s.auction_status [
  | waiting ↦ truthy s.start_time
  | active ↦ truthy s.end_time
  | ended ↦ none
]

pub tick-target :
    (at t : ℤ) (s : AuctionState)
    → target s ≡ some t
    → tick at (payload_of s) ≡ until (at +ℤ s.time_skew) t
unfolding tick
tick-target at t s e = ground arith

until_early : (now t : ℤ) → now <ℤ t → (until now t).remaining ≡ t -ℤ now
until_early now t h = ground (arith, -ℤ_parts t now, eq_of_parts (pos 0) (t -ℤ now))

until_quiet : (now t : ℤ) → now <ℤ t → (until now t).needs_update ≡ false
until_quiet now t h = ground (arith, -ℤ_parts t now)

pub until_due : (now t : ℤ) → t ≤ℤ now → (until now t).needs_update ≡ true
until_due now t h = ground (arith, -ℤ_parts t now)

rerun-store : (old new : AuctionState) (t : TimerState) → (rerun old new t).store ≡ new
rerun-store old new t = ground arith

-- The worker that counts for the store, as the effect starts it.
abbrev pub counting : AuctionState → Worker
counting s = record { payload = payload_of s; ticking = true }

module _ (at seen t : ℤ) (r : Room) (runs : r.timer.worker ≡ some (counting r.store))
    (aims : target r.store ≡ some t) where
  -- Before the time that the phase waits for, a round shows the exact time left to it and changes
  -- neither the store nor the worker.
  pub interval_counts :
      at +ℤ r.store.time_skew <ℤ t
      → ((interval at seen r).store ≡ r.store)
        × ((interval at seen r).timer.worker ≡ some (counting r.store))
        × ((interval at seen r).timer.time_left ≡ t -ℤ (at +ℤ r.store.time_skew))
  unfolding interval
  interval_counts h =
      rw
        (
          runs,
          tick_worker,
          tick-target at t r.store aims,
          until_quiet (at +ℤ r.store.time_skew) t h,
        )
        (refl, refl, until_early _ t h)

  interval_updates :
      t ≤ℤ at +ℤ r.store.time_skew → (interval at seen r).store ≡ update_auction_status seen r.store
  unfolding interval
  interval_updates h =
      rw (runs, tick_worker, tick-target at t r.store aims, until_due (at +ℤ r.store.time_skew) t h)
        (rerun-store r.store (update_auction_status seen r.store) _)

  -- From that time on, a round puts the room in phase `a` exactly when the page's clock, corrected
  -- by the skew, lies in that phase of the auction's window.
  pub interval-InPhase :
      (start end : ℤ) (a : AuctionStatus)
      → truthy r.store.start_time ≡ some start
      → truthy r.store.end_time ≡ some end
      → t ≤ℤ at +ℤ r.store.time_skew
      → ((interval at seen r).store.auction_status ≡ a)
        ↔ InPhase a (seen +ℤ r.store.time_skew) start end
  interval-InPhase start end a p q h =
      rw (interval_updates h) (update_auction_status-InPhase seen r.store a start end p q)
