-- ===== src/RoomPage/Views.antt =====
-- What page.tsx of an auction shows, and when its registration is open.
use reverse_auction.Common.{
  ◌*◌, ◌≡◌, ◌↔◌, refl, true, none, some, ℤ, pos, ◌-ℤ◌, ◌≤ℤ◌, ◌<ℤ◌, arith, -ℤ_parts,
}
use reverse_auction.RoomPage.{
  Page, Listing, Membership, loading, found, Phase, completed, live, upcoming, phase_of,
  can_register, room, view, listing_view, membership_view,
}

-- The conditions of the bidding room.
pub record IsInRoom (s : Page) : Type 0 where
  pub listing : Listing
  pub shown : s.membership ≡ found (some listing)
  pub joined : s.has_joined ≡ true
  pub started : listing.start ≤ℤ s.now
  pub running : s.now <ℤ listing.end

phase_of-live :
    (now start end : ℤ) → (phase_of now start end ≡ live) ↔ ((start ≤ℤ now) × (now <ℤ end))
unfolding phase_of
phase_of-live now start end = ground arith

listing_room :
    (s : Page) (l : Listing) (p : Phase)
    → (listing_view s l p ≡ room) ↔ ((p ≡ live) × (s.has_joined ≡ true))
listing_room s l completed = ground arith
listing_room s l upcoming = ground arith
listing_room s l live = ground arith

room-IsInRoom : (s : Page) → view s ≡ room → IsInRoom s
unfolding view
room-IsInRoom s e = go s.membership refl e
  where
    go : (m : Membership) → s.membership ≡ m → membership_view s m ≡ room → IsInRoom s
    go loading q e = cc
    go (found none) q e = cc
    go (found (some l)) q e =
        let (now_live, joined) = (listing_room s l (phase_of s.now l.start l.end)).0 e in
        let (started, running) = (phase_of-live s.now l.start l.end).0 now_live in
        record { listing = l; shown = q; joined = joined; started = started; running = running }

IsInRoom-room : (s : Page) → IsInRoom s → view s ≡ room
unfolding view
IsInRoom-room s r = rw r.shown (
    (listing_room s r.listing (phase_of s.now r.listing.start r.listing.end)).1
      ((phase_of-live s.now r.listing.start r.listing.end).1 (r.started, r.running), r.joined))

-- The page shows the bidding room exactly when the auction is loaded, the user has joined, and the
-- clock is at or after the start and before the end.
pub view-room_iff : (s : Page) → (view s ≡ room) ↔ IsInRoom s
view-room_iff s = (room-IsInRoom s, IsInRoom-room s)

-- The registration of an auction that starts before it ends is open exactly until five minutes
-- before its start.
pub can_register_iff :
    (now start end : ℤ)
    → start <ℤ end
    → (can_register now start end ≡ true) ↔ (now <ℤ (start -ℤ pos (5 * 60000)))
unfolding can_register phase_of
can_register_iff now start end h = ground (arith, -ℤ_parts start (pos (5 * 60000)))
