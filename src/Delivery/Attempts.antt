-- ===== src/Delivery/Attempts.antt =====
-- The attempts to deliver a terminal status, of a command and of a run (`#deliverTerminal` and
-- `deliverRunTerminal` of src/core/driver-command-delivery.ts).
use mosoo_agent_driver.Base.{
  ℕ, zero, suc, ◌+◌, ◌-◌, ◌≤◌, ◌<◌, ◌≡◌, refl, subst, ◌↔◌, ◌⊎◌, inl, inr, Bool, true, false, Option,
  none, some, List, [], ◌∷◌, length, All, leb, if◌then◌else◌, Result, ok, err, Json, arith,
}

abbrev pub command_update_timeout_ms : ℕ
command_update_timeout_ms = 1000

abbrev pub run_terminal_update_attempt_timeout_ms : ℕ
run_terminal_update_attempt_timeout_ms = 250

abbrev pub terminal_update_max_attempts : ℕ
terminal_update_max_attempts = 3

-- an attempt: the time before it, and the error that its delivery settles with, when it fails
pub record Attempt : Type 0 where
  pub now : ℕ
  pub error : Option Json

-- `settlePromiseWithTimeout` was called with the timeouts; the result is the thrown cause or nothing
pub record Delivery : Type 0 where
  pub timeouts : List ℕ
  pub result : Result Json (Unit {0})

abbrev after_timeout : ℕ → Delivery → Delivery
after_timeout timeout d = record d { timeouts = timeout ∷ d.timeouts }

-- the loop from attempt `i`, with `n` attempts left; `cause` is that of the last attempt
unfoldable pub attempt_from : (ℕ → ℕ) → ℕ → (ℕ → Attempt) → ℕ → ℕ → Json → Delivery
attempt_from timeout deadline attempts zero i cause = record { timeouts = []; result = err cause }
attempt_from timeout deadline attempts (suc n) i cause =
    let later : Json → Delivery = λ error. attempt_from timeout deadline attempts n (i + 1) error in
    if leb deadline (attempts i).now
    then record { timeouts = []; result = err cause }
    else after_timeout (timeout (deadline - (attempts i).now)) (elim (attempts i).error [
      | none ↦ record { timeouts = []; result = ok tt }
      | some error ↦ later error
    ])

abbrev attempt_timeout : ℕ → ℕ
attempt_timeout remaining =
    if leb remaining run_terminal_update_attempt_timeout_ms
    then remaining
    else run_terminal_update_attempt_timeout_ms

-- also what `reject` sends, of a command that is tracked or not
unfoldable pub deliver_terminal : ℕ → (ℕ → Attempt) → Delivery
unfolding attempt_from
deliver_terminal start attempts =
    attempt_from (λ remaining. remaining) (start + command_update_timeout_ms) attempts
      terminal_update_max_attempts 0 "Terminal command status delivery deadline elapsed."

unfoldable pub deliver_run_terminal : ℕ → (ℕ → Attempt) → Delivery
unfolding attempt_from
deliver_run_terminal start attempts =
    attempt_from attempt_timeout (start + command_update_timeout_ms) attempts
      terminal_update_max_attempts 0 "Run terminal delivery deadline elapsed."

-- Attempt `k` from `i` on is the first that completes, and it and those before it begin in time.
pub record IsFirst (deadline : ℕ) (attempts : ℕ → Attempt) (i k : ℕ) : Type 0 where
  pub in_time : (j : ℕ) → j ≤ k → (attempts (i + j)).now < deadline
  pub failed_before : (j : ℕ) → j < k → (error : Json) × ((attempts (i + j)).error ≡ some error)
  pub completes : (attempts (i + k)).error ≡ none

-- a round of the loop
attempt_from-round :
    (timeout : ℕ → ℕ) (deadline : ℕ) (attempts : ℕ → Attempt) (n i : ℕ) (cause : Json)
    → (attempt_from timeout deadline attempts (suc n) i cause).result ≡ ok tt
    → ((attempts i).now < deadline)
      × (((attempts i).error ≡ none)
          ⊎ ((error : Json) × ((attempts i).error ≡ some error)
              × ((attempt_from timeout deadline attempts n (i + 1) error).result ≡ ok tt)))
unfolding attempt_from
attempt_from-round timeout deadline attempts n i cause h = ground arith

round-attempt_from :
    (timeout : ℕ → ℕ) (deadline : ℕ) (attempts : ℕ → Attempt) (n i : ℕ) (cause error : Json)
    → (attempts i).now < deadline
    → ((attempts i).error ≡ none)
      ⊎ (((attempts i).error ≡ some error)
          × ((attempt_from timeout deadline attempts n (i + 1) error).result ≡ ok tt))
    → (attempt_from timeout deadline attempts (suc n) i cause).result ≡ ok tt
unfolding attempt_from
round-attempt_from timeout deadline attempts n i cause error t (inl e) = ground arith
round-attempt_from timeout deadline attempts n i cause error t (inr (e, h)) = ground arith

module _ (deadline : ℕ) (attempts : ℕ → Attempt) where
  IsFirst-here :
      (i : ℕ)
      → (attempts i).now < deadline
      → (attempts i).error ≡ none
      → IsFirst deadline attempts i 0
  IsFirst-here i t e = record {
    in_time = λ j h. subst (λ x. (attempts x).now < deadline) (omega arith) t;
    failed_before = λ j h. absurd (omega arith);
    completes = subst (λ x. (attempts x).error ≡ none) (omega arith) e;
  }

  IsFirst-later :
      (i k : ℕ) (error : Json)
      → (attempts i).now < deadline
      → (attempts i).error ≡ some error
      → IsFirst deadline attempts (i + 1) k
      → IsFirst deadline attempts i (suc k)
  IsFirst-later i k error t e v = record {
    in_time = λ j h. before j h;
    failed_before = λ j h. failed j h;
    completes = subst (λ x. (attempts x).error ≡ none) (omega arith) v.completes;
  }
    where
      before : (j : ℕ) → j ≤ suc k → (attempts (i + j)).now < deadline
      before zero h = subst (λ x. (attempts x).now < deadline) (omega arith) t
      before (suc j) h =
          subst (λ x. (attempts x).now < deadline) (omega arith) (v.in_time j (omega arith))

      failed : (j : ℕ) → j < suc k → (x : Json) × ((attempts (i + j)).error ≡ some x)
      failed zero h = (error, subst (λ x. (attempts x).error ≡ some error) (omega arith) e)
      failed (suc j) h =
          let (x, p) = v.failed_before j (omega arith) in
          (x, subst (λ y. (attempts y).error ≡ some x) (omega arith) p)

  attempt_from-IsFirst :
      (timeout : ℕ → ℕ) (n i : ℕ) (cause : Json)
      → (attempt_from timeout deadline attempts n i cause).result ≡ ok tt
      → (k : ℕ) × (k < n) × IsFirst deadline attempts i k
  unfolding attempt_from
  attempt_from-IsFirst timeout zero i cause h = cc
  attempt_from-IsFirst timeout (suc n) i cause h =
      let (t, rest) = attempt_from-round timeout deadline attempts n i cause h in
      elim rest [
        | inl e ↦ (0, omega arith, IsFirst-here i t e)
        | inr (error, e, later) ↦
            (let (k, few, v) = attempt_from-IsFirst timeout n (i + 1) error later in
              (suc k, omega arith, IsFirst-later i k error t e v))
      ]

  IsFirst-attempt_from :
      (timeout : ℕ → ℕ) (n i k : ℕ) (cause : Json)
      → k < n
      → IsFirst deadline attempts i k
      → (attempt_from timeout deadline attempts n i cause).result ≡ ok tt
  IsFirst-attempt_from timeout zero i k cause few v = absurd (omega arith)
  IsFirst-attempt_from timeout (suc n) i zero cause few v =
      round-attempt_from timeout deadline attempts n i cause ""
        (subst (λ x. (attempts x).now < deadline) (omega arith) (v.in_time 0 (omega arith)))
        (inl (subst (λ x. (attempts x).error ≡ none) (omega arith) v.completes))
  IsFirst-attempt_from timeout (suc n) i (suc k) cause few v =
      let (x, failed) = v.failed_before 0 (omega arith) in
      round-attempt_from timeout deadline attempts n i cause x
        (subst (λ y. (attempts y).now < deadline) (omega arith) (v.in_time 0 (omega arith)))
        (inr (
          subst (λ y. (attempts y).error ≡ some x) (omega arith) failed,
          IsFirst-attempt_from timeout n (i + 1) k x (omega arith) (first_tail i k v),
        ))
    where
      first_tail :
          (i k : ℕ) → IsFirst deadline attempts i (suc k) → IsFirst deadline attempts (i + 1) k
      first_tail i k v = record {
        in_time = λ j h.
            subst (λ x. (attempts x).now < deadline) (omega arith)
              (v.in_time (suc j) (omega arith));
        failed_before = λ j h.
            let (x, p) = v.failed_before (suc j) (omega arith) in
            (x, subst (λ y. (attempts y).error ≡ some x) (omega arith) p);
        completes = subst (λ x. (attempts x).error ≡ none) (omega arith) v.completes;
      }

  -- each attempt waits for a positive time that is left
  attempt_from-timeouts :
      (timeout : ℕ → ℕ) (start bound : ℕ)
      → ((r : ℕ) → 1 ≤ r → r ≤ deadline - start → (1 ≤ timeout r) × (timeout r ≤ bound))
      → ((j : ℕ) → start ≤ (attempts j).now)
      → (n i : ℕ) (cause : Json)
      → (length (attempt_from timeout deadline attempts n i cause).timeouts ≤ n)
        × All
            (λ t. (1 ≤ t) × (t ≤ bound))
            (attempt_from timeout deadline attempts n i cause).timeouts
  unfolding attempt_from
  attempt_from-timeouts timeout start bound fits forward zero i cause = (omega arith, tt)
  attempt_from-timeouts timeout start bound fits forward (suc n) i cause =
      decide (leb deadline (attempts i).now) refl (attempts i).error
        (λ error. attempt_from-timeouts timeout start bound fits forward n (i + 1) error)
    where
      IsIn : ℕ → Delivery → Type 0
      IsIn m d = (length d.timeouts ≤ m) × All (λ t. (1 ≤ t) × (t ≤ bound)) d.timeouts

      later : Json → Delivery
      later error = attempt_from timeout deadline attempts n (i + 1) error

      waited :
          (o : Option Json)
          → ((error : Json) → IsIn n (later error))
          → IsIn n (elim o [
            | none ↦ record { timeouts = []; result = ok tt }
            | some error ↦ later error
          ])
      waited none h = (omega arith, tt)
      waited (some error) h = h error

      decide :
          (b : Bool)
          → leb deadline (attempts i).now ≡ b
          → (o : Option Json) → ((error : Json) → IsIn n (later error))
          → IsIn (suc n) (
              if b
              then record { timeouts = []; result = err cause }
              else after_timeout (timeout (deadline - (attempts i).now)) (elim o [
                | none ↦ record { timeouts = []; result = ok tt }
                | some error ↦ later error
              ]))
      decide true e o h = (omega arith, tt)
      decide false e o h =
          let left : (attempts i).now < deadline = ground arith in
          let (few, all) = waited o h in
          (
            omega (arith, few),
            (
              fits (deadline - (attempts i).now) (omega arith) (omega (arith, forward i, left)),
              all,
            ),
          )

-- What the attempts of a delivery that starts at `start` come to: it returns exactly when one of the
-- first three attempts completes, each attempt up to it began within the second, and those before it
-- failed; and it waits at most three times, each time for a positive time within the bound.
pub record IsDelivery (start : ℕ) (attempts : ℕ → Attempt) (bound : ℕ) (d : Delivery) : Type 0 where
  pub returns : (d.result ≡ ok tt) ↔ ((k : ℕ) × (k < 3) × IsFirst (start + 1000) attempts 0 k)
  pub few : length d.timeouts ≤ 3
  pub bounded : All (λ t. (1 ≤ t) × (t ≤ bound)) d.timeouts

-- While the clock does not go back before the start: a terminal command status and a run's terminal
-- are delivered exactly when one of the first three attempts completes, each attempt up to it began
-- within a second, and those before it failed. There are at most three attempts; each waits for a
-- positive time, of at most a second for a command and 250 ms for a run.
pub terminals_are_delivered :
    (start : ℕ) (attempts : ℕ → Attempt)
    → ((j : ℕ) → start ≤ (attempts j).now)
    → IsDelivery start attempts 1000 (deliver_terminal start attempts)
      × IsDelivery start attempts 250 (deliver_run_terminal start attempts)
unfolding deliver_terminal deliver_run_terminal
terminals_are_delivered start attempts forward = (
  delivery (λ remaining. remaining) 1000 _ (λ r l h. (l, omega arith)),
  delivery attempt_timeout 250 _ (λ r l h. ground arith),
)
  where
    delivery :
        (timeout : ℕ → ℕ) (bound : ℕ) (cause : Json)
        → ((r : ℕ) → 1 ≤ r → r ≤ start + 1000 - start → (1 ≤ timeout r) × (timeout r ≤ bound))
        → IsDelivery start attempts bound (attempt_from timeout (start + 1000) attempts 3 0 cause)
    delivery timeout bound cause fits =
        let (few, bounded) =
          attempt_from-timeouts (start + 1000) attempts timeout start bound fits forward 3 0
            cause in
        record {
          returns = (
            attempt_from-IsFirst (start + 1000) attempts timeout 3 0 cause,
            λ (k, h, v). IsFirst-attempt_from (start + 1000) attempts timeout 3 0 k cause h v,
          );
          few = few;
          bounded = bounded;
        }
