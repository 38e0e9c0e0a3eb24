-- ===== src/Contract/Executor/Entities.antt =====
-- The times of the runs and the items that `normalizeExecutorMutation` writes
-- (src/contract/executor-mutation.ts).
use mosoo_agent_driver.Base.{
  String, ◌≡◌, refl, ap, Bool, true, false, not, is_some, Option, none, some, find, All-find,
  str_eq, if◌then◌else◌, or_else, ok, arith,
}
use mosoo_agent_driver.Contract.Common.{Timestamp}
use mosoo_agent_driver.Contract.Common.Order.{Before, Before-trans, Before-self}
use mosoo_agent_driver.Contract.Executor.Times.{EndsBetween, run-started, item-times, ends_later}
use mosoo_agent_driver.Contract.State.{
  Run, RunOutcome, running, run_completed, run_failed, run_cancelled, run_ended_at, Item, is_active,
}
use mosoo_agent_driver.Contract.Snapshot.{SessionSnapshot, item_schema}
use mosoo_agent_driver.Contract.Put.{is_item}
use mosoo_agent_driver.Contract.RunGraph.{run_by_id}
use mosoo_agent_driver.Contract.Checks.{assert_run}
use mosoo_agent_driver.Contract.Validate.{assert_item}
use mosoo_agent_driver.Contract.Validate.Admitted.{Checked}
use mosoo_agent_driver.Contract.Executor.{
  with_end, started, normalize_run, created, item_end, normalize_item,
}

pub record RunInTime (s : SessionSnapshot) (accepted : Timestamp) (r : Run) : Type 0 where
  pub start_kept : (p : Run) → run_by_id s.runs r.id ≡ some p → r.started_at ≡ p.started_at
  pub start_before : Before r.started_at accepted
  pub ends : EndsBetween r.started_at (run_ended_at r) accepted

pub record ItemInTime (s : SessionSnapshot) (accepted : Timestamp) (i : Item) : Type 0 where
  pub creation_kept :
      (p : Item) → find (is_item i.run_id i.id) s.items ≡ some p → i.created_at ≡ p.created_at
  pub created_before : Before i.created_at accepted
  pub updated : i.updated_at ≡ accepted
  pub ended_when : is_some i.ended_at ≡ not (is_active i.status)
  pub ends : EndsBetween i.created_at i.ended_at accepted

module _ (s : SessionSnapshot) (accepted : Timestamp) (valid : Checked s)
    (late : Before s.captured_at accepted) where
  started-Before :
      (id : String) (o : Option Run)
      → run_by_id s.runs id ≡ o
      → Before (started o accepted) accepted
  started-Before id none e = Before-self accepted
  started-Before id (some p) e =
      Before-trans p.started_at s.captured_at accepted
        (run-started s p (
          All-find (λ (r : Run). assert_run s r ≡ ok tt) (λ (r : Run). str_eq r.id id) s.runs p
            valid.runs e))
        late

  pub normalize_run-InTime :
      (r : Run) → RunInTime s accepted (normalize_run (run_by_id s.runs r.id) accepted r)
  unfolding normalize_run
  normalize_run-InTime r =
      let before = started-Before r.id (run_by_id s.runs r.id) refl in
      record {
        start_kept = λ p e. ap (λ o. started o accepted) e;
        start_before = before;
        ends = ends _ r.outcome before;
      }
    where
      ends :
          (start : Timestamp) (outcome : RunOutcome)
          → Before start accepted
          → EndsBetween start
              (run_ended_at (record r { outcome = with_end accepted outcome }))
              accepted
      ends start running before = tt
      ends start (run_completed e reason) before = (before, Before-self accepted)
      ends start (run_failed e error) before = (before, Before-self accepted)
      ends start (run_cancelled e reason) before = (before, Before-self accepted)

  item-Before :
      (run_id id : String) (o : Option Item)
      → find (is_item run_id id) s.items ≡ o
      → Before (created o accepted) accepted
        × EndsBetween (created o accepted) (some (item_end o accepted)) accepted
  item-Before run_id id none e =
      (Before-self accepted, (Before-self accepted, Before-self accepted))
  item-Before run_id id (some p) e =
      let (creation, end) = item-times s p (
        All-find (λ (i : Item). assert_item s i ≡ ok tt) (is_item run_id id) s.items p valid.items
          e) in
      let before = Before-trans p.created_at s.captured_at accepted creation late in
      (
        before,
        ended (is_active p.status) p.ended_at before
            (ends_later p.created_at s.captured_at accepted p.ended_at late end),
      )
    where
      ended :
          (b : Bool) (o : Option Timestamp)
          → Before p.created_at accepted
          → EndsBetween p.created_at o accepted
          → EndsBetween p.created_at (some (if b then accepted else or_else o accepted)) accepted
      ended true o before v = (before, Before-self accepted)
      ended false none before v = (before, Before-self accepted)
      ended false (some t) before v = v

  pub normalize_item-InTime :
      (i : Item)
      → item_schema (normalize_item (find (is_item i.run_id i.id) s.items) accepted i) ≡ true
      → ItemInTime s accepted (normalize_item (find (is_item i.run_id i.id) s.items) accepted i)
  unfolding normalize_item item_schema
  normalize_item-InTime i schema =
      let (before, end) = item-Before i.run_id i.id (find (is_item i.run_id i.id) s.items) refl in
      record {
        creation_kept = λ p e. ap (λ o. created o accepted) e;
        created_before = before;
        updated = refl;
        ended_when = ground arith;
        ends = ends _ _ (is_active i.status) i.ended_at (ground arith) end;
      }
    where
      ends :
          (start end : Timestamp) (b : Bool) (o : Option Timestamp)
          → (b ≡ true → o ≡ none)
          → EndsBetween start (some end) accepted
          → EndsBetween start (if b then o else some end) accepted
      ends start end true none h v = tt
      ends start end true (some t) h v = absurd (cc (h refl))
      ends start end false o h v = v
