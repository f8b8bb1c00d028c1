-- ===== src/Socket.antt =====
-- apps/web/contexts/SocketContext.tsx: the provider that keeps one socket for each auction, counts
-- its subscribers, and asks the gateway for a single-use ticket before every connection. Sockets
-- are numbers in the order of their creation; what the provider asks of socket.io, of `fetch` and
-- of the store are commands, and what they answer are the handlers' calls.
pub mod Subscriptions
pub mod Registry
pub mod Consistent
pub mod Orphans
pub mod Strict
mod Tests
use reverse_auction.Common.{
  ℕ, suc, ◌+◌, ◌-◌, Bool, true, false, not, Option, none, some, List, [], ◌∷◌, ◌++◌, map, String,
  ltb, leb, or_value, str_eq, lookup, put, remove, if◌then◌else◌, ◌+s◌,
}
use reverse_auction.Slice.{given_id}
use reverse_auction.Feed.{BidRequest}

-- The refs and the state of the provider, and the number of the next socket.
pub record Provider : Type 0 where
  pub ref_counts : List (String × ℕ)
  pub sockets : List (String × ℕ)
  pub is_connected : Bool
  pub fresh : ℕ

-- What the browser and the build give: `serverUserId`, the two keys of `localStorage`, and the two
-- variables of the environment.
pub record Client : Type 0 where
  pub server_user_id : Option String
  pub stored_user_id : Option String
  pub stored_token : Option String
  pub socket_url : Option String
  pub api_url : Option String

-- What a subscription's closures hold.
pub record Session : Type 0 where
  pub socket : ℕ
  pub auction_id : String
  pub gateway : String
  pub token : String

-- The options of `io` that are not constants.
pub record Auth : Type 0 where
  pub auction_id : String
  pub user_id : String
  pub token : String

pub data Command : Type 0 where
  create : ℕ → (gateway : String) → Auth → Command
  request_ticket : Session → Command
  use_ticket : ℕ → (ticket : String) → Command
  connect : ℕ → Command
  disconnect : ℕ → Command
  wait : Session → (delay : ℕ) → Command
  report : Bool → Command
  emit : ℕ → BidRequest → Command
  listen : ℕ → (event : String) → Command
  unlisten : ℕ → (event : String) → Command

unfoldable pub initial_provider : Provider
initial_provider = record { ref_counts = []; sockets = []; is_connected = false; fresh = 0 }

-- `a || b || 'http://localhost:8080'`
abbrev or_text : Option String → String → String
or_text a d = or_value (given_id a) d

unfoldable pub gateway_url : Client → String
gateway_url c = or_text c.socket_url (or_text c.api_url "http://localhost:8080")

abbrev pub session : Client → ℕ → String → Session
session c socket auction_id = record {
  socket = socket;
  auction_id = auction_id;
  gateway = gateway_url c;
  token = or_text c.stored_token "";
}

abbrev auth : Client → String → Auth
auth c auction_id = record {
  auction_id = auction_id;
  user_id = or_text c.server_user_id (or_text c.stored_user_id "");
  token = or_text c.stored_token "";
}

-- `refCounts.current.get(auctionId) ?? 0`
abbrev pub count_of : String → Provider → ℕ
count_of id p = or_value (lookup id p.ref_counts) 0

abbrev pub counted : String → Provider → Provider
counted id p = record p { ref_counts = put id (count_of id p + 1) p.ref_counts }

-- The part of a subscription that makes a socket, where the auction has none.
abbrev pub open_socket : Client → String → Option ℕ → Provider → Provider × List Command
open_socket c id (some h) p = (p, [])
open_socket c id none p = (
  record p { sockets = put id p.fresh p.sockets; fresh = suc p.fresh },
  create p.fresh (gateway_url c) (auth c id) ∷ request_ticket (session c p.fresh id) ∷ [],
)

unfoldable pub subscribe : Client → String → Provider → Provider × List Command
subscribe c id p = open_socket c id (lookup id p.sockets) (counted id p)

-- The first ticket arrives: the socket connects if the auction has a subscriber.
unfoldable pub on_ticket : Session → String → Provider → Provider × List Command
on_ticket s ticket p = (
  p,
  use_ticket s.socket ticket
      ∷ (if ltb 0 (count_of s.auction_id p) then connect s.socket ∷ [] else []),
)

-- The first ticket is refused, or the request fails.
unfoldable pub on_refusal : Session → Provider → Provider × List Command
on_refusal s p = (record p { sockets = remove s.auction_id p.sockets }, [])

unfoldable pub on_connect : Session → Provider → Provider × List Command
on_connect s p = (record p { is_connected = true }, report true ∷ [])

unfoldable pub on_disconnect : Session → (reason : String) → Provider → Provider × List Command
on_disconnect s reason p = (
  record p { is_connected = false },
  report false ∷ (if str_eq reason "io client disconnect" then [] else wait s 2000 ∷ []),
)

-- The two seconds after a lost connection are over.
unfoldable pub on_delay : Session → Provider → Provider × List Command
on_delay s p = (p, if ltb 0 (count_of s.auction_id p) then request_ticket s ∷ [] else [])

-- A later ticket arrives; a later refusal is only logged.
unfoldable pub on_renewal : Session → String → Provider → Provider × List Command
on_renewal s ticket p = (p, use_ticket s.socket ticket ∷ connect s.socket ∷ [])

abbrev pub close : Option ℕ → List Command
close none = []
close (some h) = disconnect h ∷ []

-- The count that `unsubscribe` leaves; a count that is missing is read as 1. One that is stored is
-- positive, so the subtraction is exact.
abbrev pub left : String → Provider → ℕ
left id p = or_value (lookup id p.ref_counts) 1 - 1

unfoldable pub unsubscribe : String → Provider → Provider × List Command
unsubscribe id p =
    if ltb 0 (left id p) then (record p { ref_counts = put id (left id p) p.ref_counts }, []) else (
      record p { sockets = remove id p.sockets; ref_counts = remove id p.ref_counts },
      close (lookup id p.sockets),
    )

-- The provider unmounts.
unfoldable pub unmount : Provider → Provider × List Command
unmount p = (record p { sockets = []; ref_counts = [] }, map (λ e. disconnect e.1) p.sockets)

-- `onEvent`, its cleanup, and `emitEvent`; the socket's own flag `connected` is an argument.
abbrev at_socket : (ℕ → Command) → Option ℕ → List Command
at_socket f none = []
at_socket f (some h) = f h ∷ []

unfoldable pub on_event : String → (event : String) → Provider → List Command
on_event id event p = at_socket (λ h. listen h event) (lookup id p.sockets)

unfoldable pub off_event : String → (event : String) → Provider → List Command
off_event id event p = at_socket (λ h. unlisten h event) (lookup id p.sockets)

abbrev emit_on : (ℕ → Bool) → BidRequest → Option ℕ → List Command
emit_on is_open r none = []
emit_on is_open r (some h) = if is_open h then emit h r ∷ [] else []

unfoldable pub emit_event : (ℕ → Bool) → String → BidRequest → Provider → List Command
emit_event is_open id r p = emit_on is_open r (lookup id p.sockets)

-- The calls that reach the provider, in any order.
pub data Call : Type 0 where
  subscribe_call : Client → String → Call
  unsubscribe_call : String → Call
  ticket_call : Session → (ticket : String) → Call
  refusal_call : Session → Call
  connect_call : Session → Call
  disconnect_call : Session → (reason : String) → Call
  delay_call : Session → Call
  renewal_call : Session → (ticket : String) → Call
  unmount_call : Call

unfoldable pub answer : Call → Provider → Provider × List Command
answer (subscribe_call c id) p = subscribe c id p
answer (unsubscribe_call id) p = unsubscribe id p
answer (ticket_call s ticket) p = on_ticket s ticket p
answer (refusal_call s) p = on_refusal s p
answer (connect_call s) p = on_connect s p
answer (disconnect_call s reason) p = on_disconnect s reason p
answer (delay_call s) p = on_delay s p
answer (renewal_call s ticket) p = on_renewal s ticket p
answer unmount_call p = unmount p

abbrev pub continue : List Command → Provider × List Command → Provider × List Command
continue done (p, todo) = (p, done ++ todo)

pub answer_all : List Call → Provider → Provider × List Command
unfolding answer
answer_all [] p = (p, [])
answer_all (c ∷ calls) p = continue (answer c p).1 (answer_all calls (answer c p).0)
