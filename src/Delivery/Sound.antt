-- ===== src/Delivery/Sound.antt =====
-- One tracked command (src/core/driver-command-delivery.ts): its chained promises, its terminal and
-- what it has sent.
use mosoo_agent_driver.Base.{
  ℕ, ◌+◌, ◌≤◌, ◌<◌, ◌≡◌, refl, sym, subst, Bool, true, false, Option, none, some, List, [], ◌∷◌,
  ◌++◌, All, All-append, ltb, if◌then◌else◌, or_else, Result, ok, guard, ◌>>◌, arith, guard-eq-ok,
}
use mosoo_agent_driver.Delivery.Chained.{
  FitsTask, terminals, IsSent, Below, begun-Fits, more-Fits, cleared-Fits, recorded-Fits,
  recorded-IsSent, terminals-append,
}
use mosoo_agent_driver.Delivery.{
  TerminalCommandUpdate, accepted, ended, Task, TrackedCommand, DeliveryError, terminal_undelivered,
  add_rejection, chain, begin_terminal, deliver_again, settle_tasks, is_pending, finish_tracked,
  awaits, resolve, reject_task, settle,
}

pub record IsSound (t : TrackedCommand) : Type 0 where
  pub chained : All (FitsTask t.terminal_task t.terminal t.made) t.pending
  pub single : terminals t.pending ≤ 1
  pub taken : Below t.made t.terminal_task
  pub sent_once : All (IsSent t.terminal) t.sent

recorded-IsSound :
    (u : TerminalCommandUpdate) (t : TrackedCommand)
    → IsSound t
    → IsSound (record t { terminal = some (or_else t.terminal u) })
recorded-IsSound u t v = record {
  chained = recorded-Fits u t.terminal_task t.terminal t.made t.pending v.chained;
  single = v.single;
  taken = v.taken;
  sent_once = recorded-IsSent u t.terminal t.sent v.sent_once;
}

begin_terminal-IsSound :
    (u : TerminalCommandUpdate) (t : TrackedCommand)
    → t.terminal_task ≡ none
    → t.terminal ≡ some u
    → IsSound t
    → IsSound (begin_terminal u t)
begin_terminal-IsSound u t free known v =
    let (fits, count) =
      begun-Fits u t.made t.pending t.terminal
        (subst (λ x. All (FitsTask x t.terminal t.made) t.pending) free v.chained) in
    record {
      chained =
          All-append (FitsTask (some t.made) t.terminal (t.made + 1)) t.pending _
            (subst (λ x. All (FitsTask (some t.made) x (t.made + 1)) t.pending) (sym known) fits)
            ground arith;
      single = omega (
        arith,
        count,
        terminals-append t.pending (record { number = t.made; update = ended u } ∷ []),
      );
      taken = ground arith;
      sent_once = v.sent_once;
    }

pub accept_task-IsSound : (t : TrackedCommand) → IsSound t → IsSound (chain accepted t)
accept_task-IsSound t v = record {
  chained =
      All-append (FitsTask t.terminal_task t.terminal (t.made + 1)) t.pending _
        (more-Fits t.terminal_task t.terminal t.made t.pending v.chained)
        (unused t.terminal_task v.taken, tt);
  single = omega (
    arith,
    v.single,
    terminals-append t.pending (record { number = t.made; update = accepted } ∷ []),
  );
  taken = below t.terminal_task v.taken;
  sent_once = v.sent_once;
}
  where
    unused :
        (task : Option ℕ) → Below t.made task → (t.made < t.made + 1) × (awaits task t.made ≡ false)
    unused none h = ground arith
    unused (some n) h = ground arith

    below : (task : Option ℕ) → Below t.made task → Below (t.made + 1) task
    below none h = tt
    below (some n) h = omega arith

pub ok-eq :
    {a b : TrackedCommand} → ◌≡◌ {A = Result DeliveryError TrackedCommand} (ok a) (ok b) → a ≡ b
ok-eq e = cc

-- `finish`, whichever promise of a terminal there is
pub finish_tracked-IsSound :
    (update : TerminalCommandUpdate) (is_replay : Bool) (t u : TrackedCommand)
    → finish_tracked update is_replay t ≡ ok u
    → IsSound t
    → IsSound u
unfolding finish_tracked
finish_tracked-IsSound update is_replay t u h v = by_task t.terminal_task refl h
  where
    known : TrackedCommand
    known = record t { terminal = some (or_else t.terminal update) }

    waiting : (b : Bool) → IsSound (if b then record known { replays = t.replays + 1 } else known)
    waiting true =
        let w = recorded-IsSound update t v in
        record { chained = w.chained; single = w.single; taken = w.taken; sent_once = w.sent_once }
    waiting false = recorded-IsSound update t v

    by_task :
        (task : Option ℕ)
        → t.terminal_task ≡ task
        → elim task [
          | none ↦ ok (begin_terminal (or_else t.terminal update) known)
          | some n ↦ do
            guard (is_pending n t.pending) terminal_undelivered
            ok (if is_replay then record known { replays = t.replays + 1 } else known)
        ]
          ≡ ok u
        → IsSound u
    by_task none e r = subst IsSound (ok-eq r) (
        begin_terminal-IsSound (or_else t.terminal update) known e refl
          (recorded-IsSound update t v))
    by_task (some n) e r =
        let (pending, same) = guard-eq-ok (is_pending n t.pending) terminal_undelivered _ r in
        subst IsSound (ok-eq same) (waiting is_replay)

-- the first promise settles, without what it does to the rest
sent-IsSound :
    (k : Task) (rest : List Task) (t : TrackedCommand)
    → All (FitsTask t.terminal_task t.terminal t.made) (k ∷ rest)
    → terminals (k ∷ rest) ≤ 1
    → IsSound t
    → IsSound (record t { pending = rest; sent = t.sent ++ (k.update ∷ []) })
sent-IsSound k rest t fits one v = record {
  chained = fits.1;
  single = ground arith;
  taken = v.taken;
  sent_once = All-append (IsSent t.terminal) t.sent _ v.sent_once ground arith;
}

resolve-IsSound :
    (n : ℕ) (t : TrackedCommand)
    → (awaits t.terminal_task n ≡ true → terminals t.pending ≡ 0)
    → IsSound t
    → IsSound (resolve n t)
unfolding resolve
resolve-IsSound n t alone v = by_task (awaits t.terminal_task n) refl
  where
    freed : TrackedCommand
    freed = record t { terminal_task = none }

    again :
        (terminal : Option TerminalCommandUpdate)
        → t.terminal ≡ terminal
        → IsSound freed
        → IsSound (deliver_again terminal freed)
    again none e w = w
    again (some u) e w = begun (ltb 0 t.replays)
      where
        begun :
            (b : Bool)
            → IsSound (if b then begin_terminal u (record freed { replays = 0 }) else freed)
        begun true =
            begin_terminal-IsSound u (record freed { replays = 0 }) refl e
              (record {
                chained = w.chained;
                single = w.single;
                taken = tt;
                sent_once = w.sent_once;
              })
        begun false = w

    by_task :
        (b : Bool)
        → awaits t.terminal_task n ≡ b
        → IsSound (if b then deliver_again t.terminal freed else t)
    by_task false e = v
    by_task true e = again t.terminal refl (record {
      chained = cleared-Fits t.terminal_task t.terminal t.made t.pending (alone e) v.chained;
      single = v.single;
      taken = tt;
      sent_once = v.sent_once;
    })

reject_task-IsSound : (n : ℕ) (t : TrackedCommand) → IsSound t → IsSound (reject_task n t)
unfolding reject_task
reject_task-IsSound n t v = record {
  chained = v.chained;
  single = v.single;
  taken = v.taken;
  sent_once = v.sent_once;
}

settle_tasks-IsSound :
    (ks : List Task) (delivered : Bool) (t : TrackedCommand)
    → All (FitsTask t.terminal_task t.terminal t.made) ks
    → terminals ks ≤ 1
    → IsSound t
    → IsSound (settle_tasks ks delivered t)
unfolding resolve reject_task
settle_tasks-IsSound [] delivered t fits one v = v
settle_tasks-IsSound (k ∷ rest) delivered t fits one v = decide t.rejected delivered
  where
    unsent : IsSound (record t { pending = rest })
    unsent = record {
      chained = fits.1;
      single = ground arith;
      taken = v.taken;
      sent_once = v.sent_once;
    }

    sent : TrackedCommand
    sent = record t { pending = rest; sent = t.sent ++ (k.update ∷ []) }

    alone : awaits t.terminal_task k.number ≡ true → terminals rest ≡ 0
    alone h = ground arith

    decide :
        (rejected ok' : Bool)
        → IsSound (
            if rejected
            then reject_task k.number (record t { pending = rest })
            else (if ok' then resolve k.number sent else reject_task k.number sent))
    decide true ok' = reject_task-IsSound k.number (record t { pending = rest }) unsent
    decide false true = resolve-IsSound k.number sent alone (sent-IsSound k rest t fits one v)
    decide false false = reject_task-IsSound k.number sent (sent-IsSound k rest t fits one v)

pub settle-IsSound :
    (delivered : Bool) (t : TrackedCommand) → IsSound t → IsSound (settle delivered t)
unfolding settle
settle-IsSound delivered t v = settle_tasks-IsSound t.pending delivered t v.chained v.single v

-- What is kept of a command: its identity, a terminal once it is there, and what `reject` sent.
abbrev pub Keeps : TrackedCommand → TrackedCommand → Type 0
Keeps t u =
    (u.identity ≡ t.identity)
    × ((w : TerminalCommandUpdate) → t.terminal ≡ some w → u.terminal ≡ some w)
    × (u.rejections ≡ t.rejections)

pub Keeps-self : (t : TrackedCommand) → Keeps t t
Keeps-self t = (refl, (λ w e. e), refl)

-- `reject` touches no promise and no terminal
pub add_rejection-IsSound :
    (u : TerminalCommandUpdate) (t : TrackedCommand) → IsSound t → IsSound (add_rejection u t)
add_rejection-IsSound u t v = record {
  chained = v.chained;
  single = v.single;
  taken = v.taken;
  sent_once = v.sent_once;
}

pub accept-Keeps : (t : TrackedCommand) → Keeps t (chain accepted t)
accept-Keeps t = (refl, (λ w e. e), refl)

pub finish_tracked-Keeps :
    (update : TerminalCommandUpdate) (is_replay : Bool) (t u : TrackedCommand)
    → finish_tracked update is_replay t ≡ ok u
    → Keeps t u
unfolding finish_tracked
finish_tracked-Keeps update is_replay t u h = (ground arith, (λ w e. ground arith), ground arith)

pub settle-Keeps : (delivered : Bool) (t : TrackedCommand) → Keeps t (settle delivered t)
unfolding settle resolve reject_task
settle-Keeps delivered t = (ground arith, (λ w e. ground arith), ground arith)
