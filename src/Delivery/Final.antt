-- ===== src/Delivery/Final.antt =====
-- What a tracked command keeps under further calls (src/core/driver-command-delivery.ts).
use mosoo_agent_driver.Base.{
  ℕ, ◌≤◌, ◌≡◌, refl, ap, ◌∙◌, inl, inr, subst, Bool, true, false, Option, some, List, [], ◌∷◌, ◌++◌,
  append-nil, append_assoc, sym, All, str_eq, if◌then◌else◌, Result, ok, err, String, Json, arith,
}
use mosoo_agent_driver.Delivery.{
  TerminalCommandUpdate, Task, TrackedCommand, DriverCommandDelivery, DeliveryError,
  changed_identity, CommandReceipt, get, replay, receive, new_command, chain, accepted,
  finish_tracked, settle, modify, accept, finish, reject, add_rejection,
}
use mosoo_agent_driver.Delivery.Chained.{IsSent, FitsTask, terminals}
use mosoo_agent_driver.Delivery.Sound.{
  IsSound, Keeps, Keeps-self, ok-eq, accept-Keeps, finish_tracked-Keeps, settle-Keeps,
}
use mosoo_agent_driver.Delivery.Modified.{modify-Modified, get-reject}
use mosoo_agent_driver.Delivery.History.{
  kept, received, Event, receives, accepts, finishes, rejects, settles, apply, apply_all,
  Modified-found, get-append, receive-cases, all_calls-IsHistory, apply_all-IsHistory,
}

-- what the calls of `reject` for a command send
abbrev pub rejections_of : String → List Event → List TerminalCommandUpdate
rejections_of id [] = []
rejections_of id (e ∷ es) =
    let rest = rejections_of id es in
    elim e [
      | receives key identity ↦ rest
      | accepts key ↦ rest
      | finishes key u is_replay ↦ rest
      | rejects key u ↦ if str_eq key id then u ∷ rest else rest
      | settles key delivered ↦ rest
    ]

-- the command as it is after calls in which `reject` sends the statuses
record Grown (xs : List TerminalCommandUpdate) (t u : TrackedCommand) : Type 0 where
  identity_kept : u.identity ≡ t.identity
  terminal_kept : (w : TerminalCommandUpdate) → t.terminal ≡ some w → u.terminal ≡ some w
  rejected : u.rejections ≡ t.rejections ++ xs

abbrev Later : DriverCommandDelivery → String → TrackedCommand → List TerminalCommandUpdate → Type 0
Later d id t xs = (u : TrackedCommand) × (get d id ≡ some u) × Grown xs t u

Keeps-Grown : {t u : TrackedCommand} → Keeps t u → Grown [] t u
Keeps-Grown {t = t} (same, keeps, rejected) = record {
  identity_kept = same;
  terminal_kept = keeps;
  rejected = rejected ∙ sym (append-nil t.rejections);
}

modified-Later :
    (key : String) (f : TrackedCommand → Result DeliveryError TrackedCommand)
    (d : DriverCommandDelivery) (id : String) (t : TrackedCommand)
    → ((v u : TrackedCommand) → f v ≡ ok u → Keeps v u)
    → get d id ≡ some t
    → Later (kept d (modify key f d)) id t []
modified-Later key f d id t keeps found = by_result (modify key f d) refl
  where
    by_result :
        (r : Result DeliveryError DriverCommandDelivery)
        → modify key f d ≡ r
        → Later (kept d r) id t []
    by_result (err x) h = (t, found, Keeps-Grown (Keeps-self t))
    by_result (ok e) h =
        let (u, found_u, keeps_u) = Modified-found id t keeps (modify-Modified key f d e h) found in
        (u, found_u, Keeps-Grown keeps_u)

receive-Later :
    (d : DriverCommandDelivery) (key : String) (identity : Json) (id : String) (t : TrackedCommand)
    → get d id ≡ some t
    → get (received d (receive d key identity)) id ≡ some t
receive-Later d key identity id t found = by_result (receive d key identity) refl
  where
    by_result :
        (r : Result DeliveryError (DriverCommandDelivery × CommandReceipt))
        → receive d key identity ≡ r
        → get (received d r) id ≡ some t
    by_result (err x) h = found
    by_result (ok (e, receipt)) h = elim (receive-cases d e key identity receipt h) [
      | inl same ↦ ap (λ x. get x id) same ∙ found
      | inr (absent, room, grown) ↦ (let there = get-append d key id (new_command identity) in cc)
    ]

apply-Later :
    (d : DriverCommandDelivery) (e : Event) (id : String) (t : TrackedCommand)
    → get d id ≡ some t
    → Later (apply d e) id t (rejections_of id (e ∷ []))
unfolding apply accept finish
apply-Later d (receives key identity) id t found =
    (t, receive-Later d key identity id t found, Keeps-Grown (Keeps-self t))
apply-Later d (accepts key) id t found =
    modified-Later key (λ v. ok (chain accepted v)) d id t
      (λ v u h. subst (Keeps v) (ok-eq h) (accept-Keeps v)) found
apply-Later d (finishes key update is_replay) id t found =
    modified-Later key (finish_tracked update is_replay) d id t
      (finish_tracked-Keeps update is_replay) found
apply-Later d (rejects key update) id t found =
    rejected_if (str_eq key id) (get-reject d key id update t found)
  where
    rejected_if :
        (b : Bool)
        → get (reject d key update) id ≡ some (if b then add_rejection update t else t)
        → Later (reject d key update) id t (if b then update ∷ [] else [])
    rejected_if true e = (
      add_rejection update t,
      e,
      record { identity_kept = refl; terminal_kept = λ w h. h; rejected = refl },
    )
    rejected_if false e = (t, e, Keeps-Grown (Keeps-self t))
apply-Later d (settles key delivered) id t found =
    modified-Later key (λ v. ok (settle delivered v)) d id t
      (λ v u h. subst (Keeps v) (ok-eq h) (settle-Keeps delivered v)) found

rejections_of-cons :
    (id : String) (e : Event) (es : List Event)
    → rejections_of id (e ∷ es) ≡ rejections_of id (e ∷ []) ++ rejections_of id es
rejections_of-cons id e es = ground arith

apply_all-Later :
    (d : DriverCommandDelivery) (es : List Event) (id : String) (t : TrackedCommand)
    → get d id ≡ some t
    → Later (apply_all d es) id t (rejections_of id es)
unfolding apply_all
apply_all-Later d [] id t found = (t, found, Keeps-Grown (Keeps-self t))
apply_all-Later d (e ∷ es) id t found =
    let (u, found_u, now) = apply-Later d e id t found in
    let (v, found_v, later) = apply_all-Later (apply d e) es id u found_u in
    (
      v,
      found_v,
      record {
        identity_kept = later.identity_kept ∙ now.identity_kept;
        terminal_kept = λ w h. later.terminal_kept w (now.terminal_kept w h);
        rejected =
            later.rejected
            ∙ ap (λ xs. xs ++ rejections_of id es) now.rejected
            ∙ append_assoc t.rejections (rejections_of id (e ∷ [])) (rejections_of id es)
            ∙ ap (λ xs. t.rejections ++ xs) (sym (rejections_of-cons id e es));
      },
    )

IsSound-at :
    (d : DriverCommandDelivery) (id : String) (t : TrackedCommand)
    → All (λ (c : String × TrackedCommand). IsSound c.1) d
    → get d id ≡ some t
    → IsSound t
unfolding get
IsSound-at [] id t all found = cc
IsSound-at ((k, v) ∷ rest) id t all found = by_key (str_eq k id) (IsSound-at rest id t all.1) found
  where
    by_key :
        (b : Bool)
        → (get rest id ≡ some t → IsSound t)
        → (if b then some v else get rest id) ≡ some t
        → IsSound t
    by_key true later h = let same : v ≡ t = cc in subst IsSound same all.0
    by_key false later h = later h

All-IsSent :
    (task : Option ℕ) (terminal : Option TerminalCommandUpdate) (made : ℕ) (ks : List Task)
    → All (FitsTask task terminal made) ks
    → All (λ (k : Task). IsSent terminal k.update) ks
All-IsSent task terminal made [] h = tt
All-IsSent task terminal made (k ∷ ks) h =
    let later = All-IsSent task terminal made ks h.1 in ground arith

-- The command of that identity later: its terminal is `u`, which every terminal status that `accept`
-- and `finish` have sent, or that a promise of theirs will send, is; and `reject` has sent for it what
-- it had sent before and the statuses given.
pub record IsEnded (t : TrackedCommand) (u : TerminalCommandUpdate)
    (rejected : List TerminalCommandUpdate) (later : TrackedCommand) : Type 0 where
  pub same_identity : later.identity ≡ t.identity
  pub terminal_kept : later.terminal ≡ some u
  pub sends : All (IsSent (some u)) later.sent
  pub will_send : All (λ (k : Task). IsSent (some u) k.update) later.pending
  pub one_promise : terminals later.pending ≤ 1
  pub apart : later.rejections ≡ t.rejections ++ rejected

-- The first terminal that is recorded for a command is final: under any further calls, replays and
-- settlements, calls of `reject` among them, the command stays tracked under its identity with that
-- terminal, `accept` and `finish` send no other for it, and at most one of their promises that has not
-- settled sends it. What `reject` sends for the command are exactly the statuses that its calls give, in
-- order, which may be others.
pub first_terminal_is_final :
    (es later : List Event) (id : String) (t : TrackedCommand) (u : TerminalCommandUpdate)
    → get (apply_all [] es) id ≡ some t
    → t.terminal ≡ some u
    → (w : TrackedCommand) × (get (apply_all (apply_all [] es) later) id ≡ some w)
      × IsEnded t u (rejections_of id later) w
first_terminal_is_final es later id t u found is_u =
    let (w, found_w, grown) = apply_all-Later (apply_all [] es) later id t found in
    let history = apply_all-IsHistory (apply_all [] es) later (all_calls-IsHistory es) in
    let v = IsSound-at (apply_all (apply_all [] es) later) id w history.sound found_w in
    let kept_u = grown.terminal_kept u is_u in
    (
      w,
      found_w,
      record {
        same_identity = grown.identity_kept;
        terminal_kept = kept_u;
        sends = subst (λ x. All (IsSent x) w.sent) kept_u v.sent_once;
        will_send =
            subst (λ x. All (λ (k : Task). IsSent x k.update) w.pending) kept_u
              (All-IsSent w.terminal_task w.terminal w.made w.pending v.chained);
        one_promise = v.single;
        apart = grown.rejected;
      },
    )

-- A command that was received is answered by its receipt later: with the same identity the call is a
-- replay that changes nothing, with any other it throws.
pub received_once :
    (es later : List Event) (id : String) (t : TrackedCommand) (identity : Json)
    → get (apply_all [] es) id ≡ some t
    → (w : TrackedCommand) × (get (apply_all (apply_all [] es) later) id ≡ some w)
      × (receive (apply_all (apply_all [] es) later) id identity ≡ (
          if str_eq t.identity identity
          then ok (apply_all (apply_all [] es) later, record { replay = true; tracked = w })
          else err changed_identity))
unfolding receive replay
received_once es later id t identity found =
    let (w, found_w, grown) = apply_all-Later (apply_all [] es) later id t found in
    let same = grown.identity_kept in (w, found_w, ground arith)
