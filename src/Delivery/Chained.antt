-- ===== src/Delivery/Chained.antt =====
-- The chained promises of a tracked command, and what they carry
-- (src/core/driver-command-delivery.ts).
use mosoo_agent_driver.Base.{
  ℕ, ◌+◌, ◌<◌, ◌≡◌, refl, true, false, Option, none, some, List, [], ◌∷◌, ◌++◌, All, or_else, arith,
}
use mosoo_agent_driver.Delivery.{
  TerminalCommandUpdate, CommandUpdate, accepted, ended, Task, awaits,
}

-- A chained promise of a command: its number is not taken again, and it is the promise of the
-- terminal exactly when it sends one, which is the recorded one.
abbrev pub Fits : Option ℕ → Option TerminalCommandUpdate → ℕ → ℕ → CommandUpdate → Type 0
Fits task terminal made n accepted = (n < made) × (awaits task n ≡ false)
Fits task terminal made n (ended u) = (n < made) × (awaits task n ≡ true) × (terminal ≡ some u)

abbrev pub FitsTask : Option ℕ → Option TerminalCommandUpdate → ℕ → Task → Type 0
FitsTask task terminal made k = Fits task terminal made k.number k.update

abbrev pub terminals : List Task → ℕ
terminals [] = 0
terminals (k ∷ ks) =
    let rest = terminals ks in elim k.update [ accepted ↦ rest | ended u ↦ rest + 1 ]

-- a status that is sent is the acceptance or the recorded terminal
abbrev pub IsSent : Option TerminalCommandUpdate → CommandUpdate → Type 0
IsSent terminal accepted = Unit
IsSent terminal (ended u) = terminal ≡ some u

abbrev pub Below : ℕ → Option ℕ → Type 0
Below made none = Unit
Below made (some n) = n < made

-- the promise of the terminal is a new one
pub begun-Fits :
    (u : TerminalCommandUpdate) (made : ℕ) (ks : List Task)
    (terminal : Option TerminalCommandUpdate)
    → All (FitsTask none terminal made) ks
    → All (FitsTask (some made) (some u) (made + 1)) ks × (terminals ks ≡ 0)
begun-Fits u made [] terminal h = (tt, refl)
begun-Fits u made (k ∷ ks) terminal h =
    let (later, count) = begun-Fits u made ks terminal h.1 in ground arith

-- one more promise is chained
pub more-Fits :
    (task : Option ℕ) (terminal : Option TerminalCommandUpdate) (made : ℕ) (ks : List Task)
    → All (FitsTask task terminal made) ks
    → All (FitsTask task terminal (made + 1)) ks
more-Fits task terminal made [] h = tt
more-Fits task terminal made (k ∷ ks) h =
    let later = more-Fits task terminal made ks h.1 in ground arith

-- without a promise of the terminal, none is chained
pub cleared-Fits :
    (task : Option ℕ) (terminal : Option TerminalCommandUpdate) (made : ℕ) (ks : List Task)
    → terminals ks ≡ 0
    → All (FitsTask task terminal made) ks
    → All (FitsTask none terminal made) ks
cleared-Fits task terminal made [] none' h = tt
cleared-Fits task terminal made (k ∷ ks) none' h =
    let later : terminals ks ≡ 0 → All (FitsTask none terminal made) ks =
      λ c. cleared-Fits task terminal made ks c h.1 in
    ground arith

pub recorded-Fits :
    (u : TerminalCommandUpdate) (task : Option ℕ) (terminal : Option TerminalCommandUpdate)
    (made : ℕ) (ks : List Task)
    → All (FitsTask task terminal made) ks
    → All (FitsTask task (some (or_else terminal u)) made) ks
recorded-Fits u task terminal made [] h = tt
recorded-Fits u task terminal made (k ∷ ks) h =
    let later = recorded-Fits u task terminal made ks h.1 in ground arith

pub recorded-IsSent :
    (u : TerminalCommandUpdate) (terminal : Option TerminalCommandUpdate) (us : List CommandUpdate)
    → All (IsSent terminal) us
    → All (IsSent (some (or_else terminal u))) us
recorded-IsSent u terminal [] h = tt
recorded-IsSent u terminal (x ∷ xs) h =
    let later = recorded-IsSent u terminal xs h.1 in ground arith

pub terminals-append : (ks ls : List Task) → terminals (ks ++ ls) ≡ terminals ks + terminals ls
terminals-append [] ls = omega arith
terminals-append (k ∷ ks) ls = let later = terminals-append ks ls in ground arith
