-- ===== src/Delivery/Examples.antt =====
-- Tests of the delivery of command statuses (src/core/driver-command-delivery.ts): a command that is
-- accepted, completed and received again.
use mosoo_agent_driver.Base.{
  ℕ, zero, suc, ◌≤◌, ◌≡◌, refl, true, false, Option, none, some, List, [], ◌∷◌, ok, err, arith,
  str_eq, if◌then◌else◌,
}
use mosoo_agent_driver.Delivery.{
  CommandUpdate, accepted, ended, completed, cancelled, failed, TerminalCommandUpdate, reject,
  TrackedCommand, get, replay, receive, modify, accept, finish, finish_tracked, resolve,
  reject_task, settle, changed_identity, has_terminal,
}
use mosoo_agent_driver.Delivery.History.{
  Event, receives, accepts, finishes, rejects, settles, apply, apply_all, IsHistory,
  all_calls-IsHistory,
}
use mosoo_agent_driver.Delivery.Final.{IsEnded, first_terminal_is_final, received_once}
use mosoo_agent_driver.Delivery.Attempts.{
  Attempt, deliver_terminal, deliver_run_terminal, IsDelivery, terminals_are_delivered,
}

abbrev calls : List Event
calls =
    receives "c" "run" ∷ accepts "c" ∷ settles "c" true ∷ finishes "c" (completed none) false ∷ []

abbrev tracked : TrackedCommand
tracked = record {
  identity = "run";
  terminal = some (completed none);
  terminal_task = some 1;
  pending = record { number = 1; update = ended (completed none) } ∷ [];
  rejected = false;
  made = 2;
  replays = 0;
  sent = accepted ∷ [];
  rejections = [];
}

called : get (apply_all [] calls) "c" ≡ some tracked
unfolding get replay receive modify accept finish finish_tracked reject resolve reject_task settle
    apply apply_all
called = refl

abbrev sent_of : Option TrackedCommand → List CommandUpdate
sent_of none = []
sent_of (some t) = t.sent

-- a replay of the command while its terminal is on its way, another terminal, which is not taken, and a
-- rejection of the replay, which is sent apart
abbrev replayed : List Event
replayed =
    receives "c" "run"
    ∷ finishes "c" cancelled true
    ∷ rejects "c" (failed "late")
    ∷ settles "c" true
    ∷ settles "c" true
    ∷ []

sent_again :
    sent_of (get (apply_all (apply_all [] calls) replayed) "c")
    ≡ accepted ∷ ended (completed none) ∷ ended (completed none) ∷ []
unfolding get replay receive modify accept finish finish_tracked reject resolve reject_task settle
    apply apply_all
sent_again = refl

abbrev rejections_to : Option TrackedCommand → List TerminalCommandUpdate
rejections_to none = []
rejections_to (some t) = t.rejections

rejected_apart :
    rejections_to (get (apply_all (apply_all [] calls) replayed) "c") ≡ failed "late" ∷ []
unfolding get replay receive modify accept finish finish_tracked reject resolve reject_task settle
    apply apply_all
rejected_apart = refl

ended_seen : has_terminal (apply_all [] calls) "c" ≡ true
unfolding get replay receive modify accept finish finish_tracked reject resolve reject_task settle
    apply apply_all has_terminal
ended_seen = refl

first_terminal_is_final_example :
    (w : TrackedCommand) × (get (apply_all (apply_all [] calls) replayed) "c" ≡ some w)
    × IsEnded tracked (completed none) (failed "late" ∷ []) w
first_terminal_is_final_example =
    first_terminal_is_final calls replayed "c" tracked (completed none) called refl

received_once_example :
    (w : TrackedCommand) × (get (apply_all (apply_all [] calls) replayed) "c" ≡ some w)
    × (receive (apply_all (apply_all [] calls) replayed) "c" "other" ≡ (
        if str_eq "run" "other"
        then ok (apply_all (apply_all [] calls) replayed, record { replay = true; tracked = w })
        else err changed_identity))
received_once_example = received_once calls replayed "c" tracked "other" called

all_calls-IsHistory_example : IsHistory (apply_all [] calls)
all_calls-IsHistory_example = all_calls-IsHistory calls

-- the first attempt fails, and the second completes
abbrev attempts : ℕ → Attempt
attempts zero = record { now = 7; error = some "lost" }
attempts (suc n) = record { now = 300; error = none }

second_attempt : (deliver_terminal 7 attempts).timeouts ≡ 1000 ∷ 707 ∷ []
unfolding deliver_terminal
second_attempt = refl

terminals_are_delivered_example :
    IsDelivery 7 attempts 1000 (deliver_terminal 7 attempts)
    × IsDelivery 7 attempts 250 (deliver_run_terminal 7 attempts)
terminals_are_delivered_example = terminals_are_delivered 7 attempts (λ j. forward j)
  where
    forward : (j : ℕ) → 7 ≤ (attempts j).now
    forward zero = omega arith
    forward (suc j) = omega arith
