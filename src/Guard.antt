-- ===== src/Guard.antt =====
-- apps/web/hooks/useConcurrencyGuard.ts: the tabs of one browser that watch an auction, each with its
-- instance of the hook, and the `BroadcastChannel` of each auction. A message posted on a channel
-- waits in the inbox of every other instance that has the channel open; each inbox keeps its order,
-- and the browser picks whose message is handled next. The tabs are a family: an index that no tab
-- has taken holds a tab whose channel is closed.
pub mod Mail
pub mod Pairs
pub mod Detection
pub mod Flag
pub mod Alone
pub mod Settling
mod Tests
use reverse_auction.Common.{
  ℕ, ◌==◌, Bool, true, false, ◌&&◌, Option, none, some, List, [], ◌∷◌, ◌++◌, String, str_eq,
  if◌then◌else◌,
}

-- The messages, each with the `instanceId` of its sender.
pub data Message : Type 0 where
  ping pong : String → Message

-- One instance of the hook; `inbox` holds what its channel has still to hand to `onmessage`.
pub record Tab : Type 0 where
  pub auction_id : String
  pub instance_id : String
  pub is_open : Bool
  pub has_conflict : Bool
  pub inbox : List Message

abbrev pub Tabs : Type 0
Tabs = ℕ → Tab

abbrev pub unmounted : Tab
unmounted = record {
  auction_id = "";
  instance_id = "";
  is_open = false;
  has_conflict = false;
  inbox = [];
}

abbrev pub no_tabs : Tabs
no_tabs k = unmounted

abbrev pub update : ℕ → Tab → Tabs → Tabs
update k t tabs j = if j == k then t else tabs j

-- Whether an instance has the channel of an auction open.
abbrev pub listens : Tab → String → Bool
listens t auction = t.is_open && str_eq t.auction_id auction

abbrev pub receive : Message → Tab → Tab
receive m t = record t { inbox = t.inbox ++ m ∷ [] }

-- `channel.postMessage` by instance `k`: never to itself.
unfoldable pub post_message : Message → ℕ → Tabs → Tabs
post_message m k tabs j =
    if j == k
    then tabs j
    else if listens (tabs j) (tabs k).auction_id
    then receive m (tabs j)
    else tabs j

-- `handleMessage`: the new state of the instance, and the message that it posts.
unfoldable pub handle_message : Message → Tab → Tab × Option Message
handle_message (ping sender) t =
    if str_eq sender t.instance_id
    then (t, none)
    else (record t { has_conflict = true }, some (pong t.instance_id))
handle_message (pong sender) t =
    if str_eq sender t.instance_id then (t, none) else (record t { has_conflict = true }, none)

abbrev pub answer : ℕ → Option Message → Tabs → Tabs
answer k none tabs = tabs
answer k (some m) tabs = post_message m k tabs

abbrev pub handled : ℕ → Tab × Option Message → Tabs → Tabs
handled k (t, reply) tabs = answer k reply (update k t tabs)

abbrev pub deliver_from : List Message → ℕ → Tabs → Tabs
deliver_from [] k tabs = tabs
deliver_from (m ∷ rest) k tabs =
    handled k (handle_message m (record (tabs k) { inbox = rest })) tabs

-- The first message of instance `k` reaches its `onmessage`.
unfoldable pub deliver : ℕ → Tabs → Tabs
deliver k tabs = deliver_from (tabs k).inbox k tabs

-- The effect: no auction, no channel; else a new channel, a new id, and a PING.
abbrev pub opened : Tab → String → String → Tab
opened t auction id = record t {
  auction_id = auction;
  instance_id = id;
  is_open = true;
  inbox = [];
}

abbrev pub closed : Tab → Tab
closed t = record t { is_open = false; inbox = [] }

unfoldable pub run_effect : ℕ → String → String → Tabs → Tabs
run_effect k auction id tabs =
    if str_eq auction ""
    then update k (closed (tabs k)) tabs
    else post_message (ping id) k (update k (opened (tabs k) auction id) tabs)

-- What happens to tab `k`: it mounts the hook (also after a reload), the hook's auction changes, the
-- tab closes, or it handles a message. The effect reads a random id.
pub data Event : Type 0 where
  mount change : (k : ℕ) (auction id : String) → Event
  unmount deliver_next : (k : ℕ) → Event

unfoldable pub step : Event → Tabs → Tabs
step (mount k auction id) tabs = run_effect k auction id (update k unmounted tabs)
step (change k auction id) tabs = run_effect k auction id tabs
step (unmount k) tabs = update k unmounted tabs
step (deliver_next k) tabs = deliver k tabs

unfoldable pub run : List Event → Tabs → Tabs
run [] tabs = tabs
run (e ∷ events) tabs = run events (step e tabs)
