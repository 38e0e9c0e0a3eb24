-- ===== src/RuntimeState/Reach.antt =====
-- The state machine of src/core/driver-runtime-state.ts as its callers use it: the kernel
-- (src/core/agent-driver-kernel.ts) enters the life-cycle statuses and pairs each `begin_approval`
-- with one `end_approval`, and the dispatcher (src/core/driver-command-dispatcher.ts) numbers its
-- runs by a counter that grows.
use mosoo_agent_driver.Base.{
  ℕ, suc, ◌<◌, ◌≤◌, ◌≡◌, ◌≢◌, refl, ◌⊎◌, Bool, false, Option, none, some, List, [], ◌∷◌, ◌++◌, ◌==◌,
  All, arith, ok, if◌then◌else◌,
}
use mosoo_agent_driver.Base.Int.{pos}
use mosoo_agent_driver.RuntimeState.{
  DriverRuntimeStatus, created, starting, ready, running, needs_approval, stopping, stopped, failed,
  DriverRuntimeStateMachine, enter, begin_run, end_run, begin_approval, end_approval, new,
}

-- The machine, the generations of the approvals that are not answered yet, and the number of the
-- last run.
pub record Driver : Type 0 where
  pub machine : DriverRuntimeStateMachine
  pub outstanding : List ℕ
  pub last_run : ℕ

pub data IsLifecycle : DriverRuntimeStatus → Type 0 where
  to_starting : IsLifecycle starting
  to_stopping : IsLifecycle stopping
  to_stopped : IsLifecycle stopped
  to_failed : IsLifecycle failed

pub data Step : Driver → Driver → Type 0 where
  lifecycle :
      (d : Driver) (next : DriverRuntimeStatus) (m : DriverRuntimeStateMachine)
      → IsLifecycle next
      → enter next d.machine ≡ ok m
      → Step d (record d { machine = m })
  boots :
      (d : Driver) (m : DriverRuntimeStateMachine)
      → d.machine.status ≡ starting
      → enter ready d.machine ≡ ok m
      → Step d (record d { machine = m })
  starts :
      (d : Driver) (m : DriverRuntimeStateMachine)
      → d.machine.status ≡ ready
      → begin_run (suc d.last_run) d.machine ≡ ok m
      → Step d (record d { machine = m; last_run = suc d.last_run })
  ends :
      (d : Driver) (generation : ℕ) (m : DriverRuntimeStateMachine)
      → end_run generation d.machine ≡ ok m
      → Step d (record d { machine = m })
  asks :
      (d : Driver) (generation : ℕ) (m : DriverRuntimeStateMachine)
      → begin_approval d.machine ≡ ok (m, some generation)
      → Step d (record d { machine = m; outstanding = generation ∷ d.outstanding })
  refuses :
      (d : Driver) (m : DriverRuntimeStateMachine)
      → begin_approval d.machine ≡ ok (m, none)
      → Step d (record d { machine = m })
  answers :
      (d : Driver) (generation : ℕ) (earlier later : List ℕ) (m : DriverRuntimeStateMachine)
      → d.outstanding ≡ earlier ++ (generation ∷ later)
      → end_approval (some generation) d.machine ≡ ok m
      → Step d (record d { machine = m; outstanding = earlier ++ later })

pub data Reach (s : Driver) : Driver → Type 0 where
  here : Reach s s
  next : {t u : Driver} → Reach s t → Step t u → Reach s u

abbrev pub boot : Driver
boot = record { machine = new created; outstanding = []; last_run = 0 }

abbrev pub count : ℕ → List ℕ → ℕ
count g [] = 0
count g (x ∷ xs) = let rest = count g xs in if x == g then suc rest else rest

-- the outstanding approvals of the active run
abbrev pub live : Option ℕ → List ℕ → ℕ
live none xs = 0
live (some g) xs = count g xs

abbrev pub AtMost : ℕ → Option ℕ → Type 0
AtMost n none = Unit {0}
AtMost n (some g) = g ≤ n

pub record IsPaired (d : Driver) : Type 0 where
  pub counted :
      d.machine.active_approvals ≡ pos (live d.machine.active_run_generation d.outstanding)
  pub asking :
      d.machine.status ≡ needs_approval → 0 < live d.machine.active_run_generation d.outstanding
  pub working : d.machine.status ≡ running → live d.machine.active_run_generation d.outstanding ≡ 0
  pub owned : d.machine.status ≡ running → d.machine.active_run_generation ≢ none
  pub unowned : d.machine.status ≡ ready → d.machine.active_run_generation ≡ none
  pub booting :
      (d.machine.status ≡ created) ⊎ (d.machine.status ≡ starting)
      → d.machine.active_run_generation ≡ none
  pub recent : AtMost d.last_run d.machine.active_run_generation
  pub numbered : All (λ g. g ≤ d.last_run) d.outstanding

abbrev owned_by : Option ℕ → ℕ → Bool
owned_by none g = false
owned_by (some h) g = g == h

count_fresh : (n : ℕ) (xs : List ℕ) → All (λ g. g ≤ n) xs → count (suc n) xs ≡ 0
count_fresh n [] h = refl
count_fresh n (x ∷ xs) h = ground (arith, count_fresh n xs h.1)

All-le-suc : (n : ℕ) (xs : List ℕ) → All (λ g. g ≤ n) xs → All (λ g. g ≤ suc n) xs
All-le-suc n [] h = tt
All-le-suc n (x ∷ xs) h = (omega arith, All-le-suc n xs h.1)

count-remove :
    (g h : ℕ) (xs ys : List ℕ)
    → count g (xs ++ (h ∷ ys)) ≡ (if h == g then suc (count g (xs ++ ys)) else count g (xs ++ ys))
count-remove g h [] ys = refl
count-remove g h (x ∷ xs) ys = ground (arith, count-remove g h xs ys)

All-remove :
    (n h : ℕ) (xs ys : List ℕ) → All (λ g. g ≤ n) (xs ++ (h ∷ ys)) → All (λ g. g ≤ n) (xs ++ ys)
All-remove n h [] ys k = k.1
All-remove n h (x ∷ xs) ys k = (k.0, All-remove n h xs ys k.1)

answered :
    (o : Option ℕ) (g : ℕ) (xs ys l : List ℕ)
    → l ≡ xs ++ (g ∷ ys)
    → live o l ≡ (if owned_by o g then suc (live o (xs ++ ys)) else live o (xs ++ ys))
answered none g xs ys l e = refl
answered (some h) g xs ys l e = rw (e, count-remove h g xs ys) (ground arith)

boot-IsPaired : IsPaired boot
unfolding new
boot-IsPaired = record {
  counted = refl;
  asking = λ e. cc;
  working = λ e. cc;
  owned = λ e. cc;
  unowned = λ e. refl;
  booting = λ e. refl;
  recent = tt;
  numbered = tt;
}

Step-IsPaired : {d e : Driver} → Step d e → IsPaired d → IsPaired e
unfolding enter begin_run end_run begin_approval end_approval
Step-IsPaired (lifecycle d n m to_starting p) v = ground arith
Step-IsPaired (lifecycle d n m to_stopping p) v = ground arith
Step-IsPaired (lifecycle d n m to_stopped p) v = ground arith
Step-IsPaired (lifecycle d n m to_failed p) v = ground arith
Step-IsPaired (boots d m s p) v = ground arith
Step-IsPaired (starts d m s p) v = ground (
  arith,
  count_fresh d.last_run d.outstanding v.numbered,
  All-le-suc d.last_run d.outstanding v.numbered,
)
Step-IsPaired (ends d g m p) v = ground arith
Step-IsPaired (asks d g m p) v = ground arith
Step-IsPaired (refuses d m p) v = ground arith
Step-IsPaired (answers d g xs ys m o p) v = ground (
  arith,
  answered d.machine.active_run_generation g xs ys d.outstanding o,
  All-remove d.last_run g xs ys (rw o at v.numbered),
)

Reach-IsPaired : {d e : Driver} → IsPaired d → Reach d e → IsPaired e
Reach-IsPaired v here = v
Reach-IsPaired v (next r st) = Step-IsPaired st (Reach-IsPaired v r)

-- In every driver reached from boot, the approval counter is the number of unanswered approvals of
-- the active run, so it never goes below zero; the status `needs_approval` stands only while that
-- number is positive, `running` only while it is zero.
pub approvals_counted :
    {d : Driver}
    → Reach boot d
    → (d.machine.active_approvals ≡ pos (live d.machine.active_run_generation d.outstanding))
      × (d.machine.status ≡ needs_approval → 0 < live d.machine.active_run_generation d.outstanding)
      × (d.machine.status ≡ running → live d.machine.active_run_generation d.outstanding ≡ 0)
approvals_counted r = let v = Reach-IsPaired boot-IsPaired r in (v.counted, v.asking, v.working)

-- In every driver reached from boot, a run is active whenever the status is `running` or
-- `needs_approval`, and none is in `created`, `starting` and `ready`; the dispatcher's next run
-- starts exactly in `ready`, with the counter's next number, no approval counted and `running`.
pub ready_runs :
    {d : Driver}
    → Reach boot d
    → (d.machine.status ≡ running → d.machine.active_run_generation ≢ none)
      × (d.machine.status ≡ needs_approval → d.machine.active_run_generation ≢ none)
      × (d.machine.status ≡ ready
          → (d.machine.active_run_generation ≡ none)
            × (begin_run (suc d.last_run) d.machine
                ≡ ok (record {
                  active_approvals = pos 0;
                  active_run_generation = some (suc d.last_run);
                  status = running;
                })))
unfolding begin_run
ready_runs {d} r =
    let v = Reach-IsPaired boot-IsPaired r in
    (v.owned, λ s e. ground (arith, v.asking s), λ s. (v.unowned s, ground arith))
