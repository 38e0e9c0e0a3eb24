-- ===== src/Delivery.antt =====
-- The delivery of command statuses (src/core/driver-command-delivery.ts). The map of tracked commands
-- is a list of its entries in order. A command's promise `delivery` is the list of the deliveries
-- chained to it that have not settled; what it has sent, and what `reject` has sent for it, is recorded.
pub mod Chained
pub mod Sound
pub mod Modified
pub mod History
pub mod Final
pub mod Attempts
mod Examples
use mosoo_agent_driver.Base.{
  ℕ, ◌+◌, Bool, true, false, not, ◌&&◌, Option, none, some, List, [], ◌∷◌, ◌++◌, length, ltb, leb,
  ◌==◌, str_eq, any, if◌then◌else◌, or_else, is_some, Result, ok, err, guard, require, ◌>>=◌, ◌>>◌,
  String, Json,
}

pub data TerminalCommandUpdate : Type 0 where
  cancelled : TerminalCommandUpdate
  completed : Option Json → TerminalCommandUpdate
  failed : Json → TerminalCommandUpdate

-- the argument of `sendCommandUpdate`
pub data CommandUpdate : Type 0 where
  accepted : CommandUpdate
  ended : TerminalCommandUpdate → CommandUpdate

-- a promise that `accept` or `finish` made: its number among those of its command, and what it sends
pub record Task : Type 0 where
  pub number : ℕ
  pub update : CommandUpdate

-- `pending`, `rejected` and `made` are the promise `delivery`: the chained promises that have not
-- settled, whether one has rejected, and how many there were. `replays` are the calls of `finish`
-- with `replay` that await `terminalTask`. `sent` are the statuses that the chained promises have
-- sent, and `rejections` those that `reject` has sent since the command is tracked.
pub record TrackedCommand : Type 0 where
  pub identity : Json
  pub terminal : Option TerminalCommandUpdate
  pub terminal_task : Option ℕ
  pub pending : List Task
  pub rejected : Bool
  pub made : ℕ
  pub replays : ℕ
  pub sent : List CommandUpdate
  pub rejections : List TerminalCommandUpdate

abbrev pub DriverCommandDelivery : Type 0
DriverCommandDelivery = List (String × TrackedCommand)

pub data DeliveryError : Type 0 where
  changed_identity history_full not_tracked terminal_undelivered : DeliveryError

abbrev pub max_tracked_commands : ℕ
max_tracked_commands = 1024

-- `trackedCommands.get(commandId)`
unfoldable pub get : DriverCommandDelivery → String → Option TrackedCommand
get [] id = none
get ((k, t) ∷ rest) id = if str_eq k id then some t else get rest id

abbrev pub new_command : Json → TrackedCommand
new_command identity = record {
  identity = identity;
  terminal = none;
  terminal_task = none;
  pending = [];
  rejected = false;
  made = 0;
  replays = 0;
  sent = [];
  rejections = [];
}

pub record CommandReceipt : Type 0 where
  pub replay : Bool
  pub tracked : TrackedCommand

unfoldable pub replay :
    DriverCommandDelivery → String → Json → Result DeliveryError (Option CommandReceipt)
unfolding get
replay d id identity = elim (get d id) [
  | none ↦ ok none
  | some tracked ↦ do
    guard (str_eq tracked.identity identity) changed_identity
    ok (some (record { replay = true; tracked = tracked }))
]

abbrev pub receive_new :
    DriverCommandDelivery
    → String
    → Json
    → Option CommandReceipt
    → Result DeliveryError (DriverCommandDelivery × CommandReceipt)
receive_new d id identity (some receipt) = ok (d, receipt)
receive_new d id identity none = do
  guard (not (leb max_tracked_commands (length d))) history_full
  ok (
    d ++ ((id, new_command identity) ∷ []),
    record { replay = false; tracked = new_command identity },
  )

unfoldable pub receive :
    DriverCommandDelivery
    → String
    → Json
    → Result DeliveryError (DriverCommandDelivery × CommandReceipt)
unfolding replay
receive d id identity = do found ← replay d id identity; receive_new d id identity found

abbrev pub terminal_of : Option TrackedCommand → Option TerminalCommandUpdate
terminal_of none = none
terminal_of (some t) = t.terminal

unfoldable pub has_terminal : DriverCommandDelivery → String → Bool
unfolding get
has_terminal d id = is_some (terminal_of (get d id))

-- `tracked.delivery = tracked.delivery.then(…)`
abbrev pub chain : CommandUpdate → TrackedCommand → TrackedCommand
chain u t = record t {
  pending = t.pending ++ (record { number = t.made; update = u } ∷ []);
  made = t.made + 1;
}

abbrev pub begin_terminal : TerminalCommandUpdate → TrackedCommand → TrackedCommand
begin_terminal u t = record (chain (ended u) t) { terminal_task = some t.made }

abbrev pub is_pending : ℕ → List Task → Bool
is_pending n ts = any (λ (k : Task). k.number == n) ts

-- the part of `finish` up to its first `await`; one that awaits a promise that has rejected throws
unfoldable pub finish_tracked :
    TerminalCommandUpdate → Bool → TrackedCommand → Result DeliveryError TrackedCommand
finish_tracked update is_replay t =
    let u = or_else t.terminal update in
    let known = record t { terminal = some u } in
    elim t.terminal_task [
      | none ↦ ok (begin_terminal u known)
      | some n ↦ do
        guard (is_pending n t.pending) terminal_undelivered
        ok (if is_replay then record known { replays = t.replays + 1 } else known)
    ]

-- `tracked.terminalTask === task`
abbrev pub awaits : Option ℕ → ℕ → Bool
awaits none n = false
awaits (some m) n = m == n

-- the replays that awaited the task call `finish` once more, and all but the first find its promise
abbrev pub deliver_again : Option TerminalCommandUpdate → TrackedCommand → TrackedCommand
deliver_again none t = t
deliver_again (some u) t =
    if ltb 0 t.replays then begin_terminal u (record t { replays = 0 }) else t

-- the callbacks of a promise that resolves
unfoldable pub resolve : ℕ → TrackedCommand → TrackedCommand
resolve n t =
    if awaits t.terminal_task n
    then deliver_again t.terminal (record t { terminal_task = none })
    else t

unfoldable pub reject_task : ℕ → TrackedCommand → TrackedCommand
reject_task n t = record t {
  rejected = true;
  replays = if awaits t.terminal_task n then 0 else t.replays;
}

-- The first of the chained promises settles; after a rejection the rest reject and send nothing.
abbrev pub settle_tasks : List Task → Bool → TrackedCommand → TrackedCommand
unfolding resolve reject_task
settle_tasks [] delivered t = t
settle_tasks (k ∷ rest) delivered t =
    if t.rejected
    then reject_task k.number (record t { pending = rest })
    else (let u = record t { pending = rest; sent = t.sent ++ (k.update ∷ []) } in
        if delivered then resolve k.number u else reject_task k.number u)

unfoldable pub settle : Bool → TrackedCommand → TrackedCommand
unfolding resolve reject_task
settle delivered t = settle_tasks t.pending delivered t

-- a tracked command is mutated in place
unfoldable pub modify :
    String
    → (TrackedCommand → Result DeliveryError TrackedCommand)
    → DriverCommandDelivery
    → Result DeliveryError DriverCommandDelivery
modify id f [] = err not_tracked
modify id f ((k, t) ∷ rest) =
    let later = modify id f rest in
    if str_eq k id
    then (do u ← f t; ok ((k, u) ∷ rest))
    else (do others ← later; ok ((k, t) ∷ others))

-- `accept` of a command whose receipt the caller has
unfoldable pub accept : DriverCommandDelivery → String → Result DeliveryError DriverCommandDelivery
unfolding modify
accept d id = modify id (λ t. ok (chain accepted t)) d

unfoldable pub finish :
    DriverCommandDelivery
    → String
    → TerminalCommandUpdate
    → Bool
    → Result DeliveryError DriverCommandDelivery
unfolding modify finish_tracked
finish d id update is_replay = modify id (finish_tracked update is_replay) d

abbrev pub add_rejection : TerminalCommandUpdate → TrackedCommand → TrackedCommand
add_rejection u t = record t { rejections = t.rejections ++ (u ∷ []) }

-- `reject`: the terminal is sent at once, outside the promise `delivery`, whether or not the command is
-- tracked and whatever its terminal is, and the map is left alone. A command that is not tracked has
-- no record here of what is sent.
unfoldable pub reject :
    DriverCommandDelivery → String → TerminalCommandUpdate → DriverCommandDelivery
reject [] id update = []
reject ((k, t) ∷ rest) id update =
    let later = reject rest id update in
    if str_eq k id then (k, add_rejection update t) ∷ rest else (k, t) ∷ later
