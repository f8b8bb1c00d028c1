-- ===== src/Lib.antt =====
-- The web client (apps/web) of the reverse-auction platform: the bidding room, the forms, the market,
-- the listings of sellers and the session.
--
-- A page of an auction subscribes to a socket, feeds the server's events into a Redux slice, runs a
-- timer that moves the slice from phase to phase, and shows a bid form, a leaderboard and the winner.
-- Auctions are made by three forms, or from a seller's listing that an administrator has reviewed; they
-- are found on the home page and by the search, and joined from their cards and pages.
-- A user signs in or up, and guards decide which pages are shown.
-- The parts and the files that model them:
--   Slice    apps/web/store/slices/auctionSlice.ts: the room's state and its seven reducers
--            (initAuction, updateAuctionStatus, setConnectionStatus, setTimeSkew, addOptimisticBid,
--            reconcileBid, endAuction)
--   Feed     apps/web/hooks/useAuctionSocket.ts: the actions that each event of the server dispatches
--   Timer    apps/web/hooks/useTimerWorker.ts, apps/web/hooks/useServerTimeSync.ts and
--            apps/web/components/auction/CountdownTimer.tsx
--   Console  apps/web/components/auction/BiddingConsole.tsx: the bid form (adjust, submit)
--   Board    apps/web/components/auction/Leaderboard.tsx, WinnerModal.tsx and AuditLedger.tsx
--   Socket   apps/web/contexts/SocketContext.tsx: the provider of sockets, with its reference counts
--   RoomPage apps/web/app/auction/[id]/page.tsx: joining, leaving, and what the page shows
--   Card     apps/web/components/dashboard/ShippingAuctionCard.tsx: schedule, button and requests
--   Guard    apps/web/hooks/useConcurrencyGuard.ts: the tabs of one browser and their messages
--   Session  apps/web/app/login/page.tsx, app/admin/login/page.tsx, app/signup/page.tsx,
--            components/UserMenu.tsx, contexts/AuthContext.tsx, components/AuthGuard.tsx and
--            components/AdminGuard.tsx
--   Home     apps/web/app/page.tsx and components/dashboard/DashboardOverview.tsx: phases, prices,
--            categories, filters and sections
--   History  apps/web/app/history/page.tsx: the auctions a user took part in, by tab and page
--   Report   apps/web/app/auction/bidinfo/[id]/page.tsx and components/auction/BidHistoryGraph.tsx
--   Shell    apps/web/store/slices/uiSlice.ts, and the frame of the pages: components/Sidebar.tsx,
--            Header.tsx, AppShell.tsx and Dashboard.tsx
--   Listing  apps/http-server/src/services/listing.rs and the pages that call it:
--            apps/web/app/sell/[id]/edit/page.tsx, app/seller/dashboard/page.tsx and
--            components/admin/ListingReviewQueue.tsx; the payload of apps/http-server/src/types.rs;
--            the schedule call step by step in Listing/Schedule; app/sell/new/page.tsx in Listing/New
--   Search   apps/web/components/SearchResults.tsx: the searches, answered in any order
--   Profile  apps/web/components/profile/UserProfile.tsx: the name that is saved and read
--   Shipment apps/web/components/shipment/NewShipmentForm.tsx, its submit in Shipment/Sending
--   ForwardForm  apps/web/components/auction/NewForwardAuctionForm.tsx
--   AuctionForm  apps/web/components/auction/NewAuctionForm.tsx, apps/web/schemas/auction.ts and
--            apps/web/constants/auction.ts
--   Media    the previews of files that the three forms hold
--   LocalTime  parseLocalTime of the two forms, and the text that setAuctionDuration writes
--   Engine   apps/auction-engine/src/types.rs: is_better_bid, which the bid form is compared with
--   Numeric  Number(text) and toFixed(2) of the language
--   Dates    the language's Date in a time zone of fixed offset, by the proleptic Gregorian calendar
--   Common   the helpers that all parts share
--
-- How the code is read. Money is a whole number of cents and time a whole number of milliseconds, both
-- integers without a bound: the binary rounding of JavaScript's numbers is not modelled. What a reducer
-- or a handler reads from the browser (the clock, random ids, local storage) is an argument. Reducers
-- and handlers are functions from state to state, or to state and commands where they call socket.io,
-- fetch or the store; a run is a list of calls. A sort is the insertion sort that a stable sort agrees
-- with. Lower case, white space and the lengths that the server validates are those of ASCII; a
-- channel between tabs hands each of them its messages in the order in which they were posted.
-- Every loop is over a list or the characters of a text, but for the printing of a number, which
-- runs on fuel: n + 1 steps for n, of which each divides by ten (or by a thousand, where commas are
-- put), and Common/Decimal and Home/Money read it back.
--
-- Not modelled: the markup and styles, the server's other services in Rust, the failures of its
-- database, the virtual list of the audit ledger, and the pages listed as such in the project's
-- manifest.
pub mod Common
pub mod Slice
pub mod Feed
pub mod Timer
pub mod Numeric
pub mod Engine
pub mod Console
pub mod Board
pub mod Socket
pub mod Dates
pub mod LocalTime
pub mod Media
pub mod Shipment
pub mod AuctionForm
pub mod ForwardForm
pub mod RoomPage
pub mod Card
pub mod Guard
pub mod Session
pub mod Home
pub mod History
pub mod Report
pub mod Shell
pub mod Listing
pub mod Search
pub mod Profile
