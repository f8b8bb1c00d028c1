-- ===== src/Socket/Tests.antt =====
-- Runs of the socket provider, and the theorems at concrete calls.
use reverse_auction.Common.{◌≡◌, refl, true, none, some, List, [], ◌∷◌, pos}
use reverse_auction.Feed.{BidRequest}
use reverse_auction.Socket.{
  Provider, Client, Call, subscribe_call, unsubscribe_call, ticket_call, answer, answer_all,
  count_of, session, subscribe, unsubscribe, on_ticket, on_refusal, emit_event, on_event,
  initial_provider, gateway_url,
}
use reverse_auction.Socket.Subscriptions.{balance, count-answer_all}
use reverse_auction.Socket.Registry.{IsConsistent}
use reverse_auction.Socket.Consistent.{answer-IsConsistent, initial_provider-IsConsistent}
use reverse_auction.Socket.Strict.{Leaks, remount-Leaks, on_refusal-loses}

abbrev client : Client
client = record {
  server_user_id = none;
  stored_user_id = some "u1";
  stored_token = some "jwt";
  socket_url = some "";
  api_url = none;
}

abbrev visit : List Call
visit =
    subscribe_call client "a1"
    ∷ subscribe_call client "a1"
    ∷ unsubscribe_call "a1"
    ∷ ticket_call (session client 0 "a1") "t1"
    ∷ []

url_test : gateway_url client ≡ "http://localhost:8080"
unfolding gateway_url
url_test = refl

visit_test : (answer_all visit initial_provider).0.sockets ≡ ("a1", 0) ∷ []
unfolding answer_all answer subscribe unsubscribe on_ticket initial_provider
visit_test = refl

count-answer_all_example :
    count_of "a1" (answer_all visit initial_provider).0
    ≡ balance "a1" visit (count_of "a1" initial_provider)
count-answer_all_example = count-answer_all "a1" visit initial_provider

answer-IsConsistent_example : IsConsistent (answer (subscribe_call client "a1") initial_provider).0
answer-IsConsistent_example =
    answer-IsConsistent (subscribe_call client "a1") initial_provider initial_provider-IsConsistent

abbrev elsewhere : List Call
elsewhere = subscribe_call client "b" ∷ unsubscribe_call "a1" ∷ []

remount-Leaks_example : Leaks client "a1" "t1" (answer_all elsewhere initial_provider).0
unfolding answer_all answer subscribe unsubscribe initial_provider
remount-Leaks_example = remount-Leaks client "a1" "t1" elsewhere refl

abbrev request : BidRequest
request = record {
  auction_id = "a1";
  bidder_id = "u1";
  username = none;
  amount = pos 500;
  timestamp = pos 7;
}

abbrev subscribed : Provider
subscribed = (subscribe client "a1" initial_provider).0

on_refusal-loses_test :
    (count_of "a1" (on_refusal (session client 0 "a1") subscribed).0 ≡ count_of "a1" subscribed)
    × (emit_event (λ h. true) "a1" request (on_refusal (session client 0 "a1") subscribed).0 ≡ [])
    × (on_event "a1" "bid_update" (on_refusal (session client 0 "a1") subscribed).0 ≡ [])
on_refusal-loses_test =
    on_refusal-loses (session client 0 "a1") subscribed (λ h. true) request "bid_update"
