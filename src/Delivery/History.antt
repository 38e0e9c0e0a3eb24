-- ===== src/Delivery/History.antt =====
-- The history of the tracked commands (src/core/driver-command-delivery.ts): what holds after any
-- calls and any settlements of their promises.
use mosoo_agent_driver.Base.{
  suc, ◌≤◌, ◌<◌, ◌≡◌, refl, sym, ap, ◌⊎◌, inl, inr, subst, Bool, true, false, Option, none, some,
  List, [], ◌∷◌, ◌++◌, length, length-append, All, All-append, str_eq, if◌then◌else◌, is_some,
  Result, ok, err, String, Json, arith, differs_comm,
}
use mosoo_agent_driver.Delivery.Sound.{
  ok-eq, IsSound, Keeps, Keeps-self, add_rejection-IsSound, accept_task-IsSound,
  finish_tracked-IsSound, settle-IsSound,
}
use mosoo_agent_driver.Delivery.Modified.{Modified, here, there, modify-Modified, reject-Modified}
use mosoo_agent_driver.Delivery.{
  TerminalCommandUpdate, accepted, TrackedCommand, DriverCommandDelivery, DeliveryError,
  max_tracked_commands, get, replay, receive, chain, finish_tracked, settle, modify, accept, finish,
  reject, add_rejection, CommandReceipt, new_command,
}

-- a call that throws changes nothing
abbrev pub kept :
    DriverCommandDelivery → Result DeliveryError DriverCommandDelivery → DriverCommandDelivery
kept d (ok e) = e
kept d (err e) = d

abbrev pub received :
    DriverCommandDelivery
    → Result DeliveryError (DriverCommandDelivery × CommandReceipt)
    → DriverCommandDelivery
received d (ok (e, receipt)) = e
received d (err e) = d

-- a call of a method that may change what is tracked or sent, and a settlement of a promise of a
-- command
pub data Event : Type 0 where
  receives : String → Json → Event
  accepts : String → Event
  finishes : String → TerminalCommandUpdate → Bool → Event
  rejects : String → TerminalCommandUpdate → Event
  settles : String → Bool → Event

unfoldable pub apply : DriverCommandDelivery → Event → DriverCommandDelivery
unfolding receive accept finish reject modify settle
apply d (receives id identity) = received d (receive d id identity)
apply d (accepts id) = kept d (accept d id)
apply d (finishes id u is_replay) = kept d (finish d id u is_replay)
apply d (rejects id u) = reject d id u
apply d (settles id delivered) = kept d (modify id (λ t. ok (settle delivered t)) d)

unfoldable pub apply_all : DriverCommandDelivery → List Event → DriverCommandDelivery
apply_all d [] = d
apply_all d (e ∷ es) = apply_all (apply d e) es

-- the sound commands, one for each identity, within the capacity
abbrev AreSound : DriverCommandDelivery → Type 0
AreSound d = All (λ (c : String × TrackedCommand). IsSound c.1) d

abbrev AreDistinct : DriverCommandDelivery → Type 0
AreDistinct [] = Unit
AreDistinct ((k, t) ∷ rest) = (get rest k ≡ none) × AreDistinct rest

found_at :
    (b : Bool) (v u t : TrackedCommand) (o p : Option TrackedCommand)
    → Keeps v u
    → (o ≡ some t → (x : TrackedCommand) × (p ≡ some x) × Keeps t x)
    → (if b then some v else o) ≡ some t
    → (x : TrackedCommand) × ((if b then some u else p) ≡ some x) × Keeps t x
found_at true v u t o p keeps later h =
    let same : v ≡ t = cc in (u, refl, subst (λ x. Keeps x u) same keeps)
found_at false v u t o p keeps later h = later h

module _ {f : TrackedCommand → Result DeliveryError TrackedCommand} where
  Modified-AreSound :
      {d e : DriverCommandDelivery}
      → ((t u : TrackedCommand) → f t ≡ ok u → IsSound t → IsSound u)
      → Modified f d e
      → AreSound d
      → AreSound e
  Modified-AreSound keeps (here k t u rest called) all = (keeps t u called all.0, all.1)
  Modified-AreSound keeps (there k t rest others m) all = (all.0, Modified-AreSound keeps m all.1)

  Modified-length : {d e : DriverCommandDelivery} → Modified f d e → length e ≡ length d
  Modified-length (here k t u rest called) = refl
  Modified-length (there k t rest others m) = ap suc (Modified-length m)

  Modified-absent :
      {d e : DriverCommandDelivery} (id : String)
      → Modified f d e
      → get d id ≡ none
      → get e id ≡ none
  unfolding get
  Modified-absent id (here k t u rest called) absent = ground arith
  Modified-absent id (there k t rest others m) absent =
      let later : get rest id ≡ none → get others id ≡ none = Modified-absent id m in ground arith

  Modified-AreDistinct :
      {d e : DriverCommandDelivery} → Modified f d e → AreDistinct d → AreDistinct e
  Modified-AreDistinct (here k t u rest called) h = h
  Modified-AreDistinct (there k t rest others m) h =
      (Modified-absent k m h.0, Modified-AreDistinct m h.1)

  pub Modified-found :
      {d e : DriverCommandDelivery} (id : String) (t : TrackedCommand)
      → ((v u : TrackedCommand) → f v ≡ ok u → Keeps v u)
      → Modified f d e
      → get d id ≡ some t
      → (u : TrackedCommand) × (get e id ≡ some u) × Keeps t u
  unfolding get
  Modified-found id t keeps (here k v u rest called) found =
      found_at (str_eq k id) v u t (get rest id) (get rest id) (keeps v u called)
        (λ e. (t, e, Keeps-self t)) found
  Modified-found id t keeps (there k v rest others m) found =
      found_at (str_eq k id) v v t (get rest id) (get others id) (Keeps-self v)
        (Modified-found id t keeps m) found

-- A command that is received is new, or the map is unchanged.
pub receive-cases :
    (d e : DriverCommandDelivery) (id : String) (identity : Json) (receipt : CommandReceipt)
    → receive d id identity ≡ ok (e, receipt)
    → (e ≡ d)
      ⊎ ((get d id ≡ none)
          × (length d < max_tracked_commands)
          × (e ≡ d ++ ((id, new_command identity) ∷ [])))
unfolding receive replay
receive-cases d e id identity receipt h = ground arith

pub get-append :
    (d : DriverCommandDelivery) (id j : String) (t : TrackedCommand)
    → get (d ++ ((id, t) ∷ [])) j
      ≡ (if is_some (get d j) then get d j else if str_eq id j then some t else none)
unfolding get
get-append [] id j t = refl
get-append ((k, v) ∷ rest) id j t = let later = get-append rest id j t in ground arith

AreDistinct-append :
    (d : DriverCommandDelivery) (id : String) (t : TrackedCommand)
    → get d id ≡ none
    → AreDistinct d
    → AreDistinct (d ++ ((id, t) ∷ []))
unfolding get
AreDistinct-append [] id t absent h = (refl, tt)
AreDistinct-append ((k, v) ∷ rest) id t absent h =
    let other : str_eq k id ≡ false = ground arith in
    let here' = get-append rest id k t in
    let other' = differs_comm k id other in
    let later : AreDistinct (rest ++ ((id, t) ∷ [])) =
      AreDistinct-append rest id t ground arith h.1 in
    (ground arith, later)

-- The map of tracked commands: it is within its capacity, an identity has one entry, each is sound.
pub record IsHistory (d : DriverCommandDelivery) : Type 0 where
  pub few : length d ≤ max_tracked_commands
  pub distinct : AreDistinct d
  pub sound : AreSound d

Modified-IsHistory :
    (f : TrackedCommand → Result DeliveryError TrackedCommand) (d e : DriverCommandDelivery)
    → ((t u : TrackedCommand) → f t ≡ ok u → IsSound t → IsSound u)
    → Modified f d e
    → IsHistory d
    → IsHistory e
Modified-IsHistory f d e keeps m v = record {
  few = omega (arith, v.few, Modified-length m);
  distinct = Modified-AreDistinct m v.distinct;
  sound = Modified-AreSound keeps m v.sound;
}

modified-IsHistory :
    (f : TrackedCommand → Result DeliveryError TrackedCommand) (id : String)
    (d : DriverCommandDelivery)
    → ((t u : TrackedCommand) → f t ≡ ok u → IsSound t → IsSound u)
    → IsHistory d
    → IsHistory (kept d (modify id f d))
modified-IsHistory f id d keeps v = by_result (modify id f d) refl
  where
    by_result :
        (r : Result DeliveryError DriverCommandDelivery) → modify id f d ≡ r → IsHistory (kept d r)
    by_result (err x) h = v
    by_result (ok e) h = Modified-IsHistory f d e keeps (modify-Modified id f d e h) v

empty-IsSound : (identity : Json) → IsSound (new_command identity)
empty-IsSound identity = record { chained = tt; single = omega arith; taken = tt; sent_once = tt }

receive-IsHistory :
    (d : DriverCommandDelivery) (id : String) (identity : Json)
    → IsHistory d
    → IsHistory (received d (receive d id identity))
receive-IsHistory d id identity v = by_result (receive d id identity) refl
  where
    by_result :
        (r : Result DeliveryError (DriverCommandDelivery × CommandReceipt))
        → receive d id identity ≡ r
        → IsHistory (received d r)
    by_result (err x) h = v
    by_result (ok (e, receipt)) h = elim (receive-cases d e id identity receipt h) [
      | inl same ↦ subst IsHistory (sym same) v
      | inr (absent, room, grown) ↦ subst IsHistory (sym grown) (record {
        few = omega (arith, room, length-append d ((id, new_command identity) ∷ []));
        distinct = AreDistinct-append d id (new_command identity) absent v.distinct;
        sound =
            All-append (λ (c : String × TrackedCommand). IsSound c.1) d _ v.sound
              (empty-IsSound identity, tt);
      })
    ]

apply-IsHistory : (d : DriverCommandDelivery) (e : Event) → IsHistory d → IsHistory (apply d e)
unfolding apply accept finish
apply-IsHistory d (receives id identity) v = receive-IsHistory d id identity v
apply-IsHistory d (accepts id) v =
    modified-IsHistory (λ t. ok (chain accepted t)) id d
      (λ t u h w. subst IsSound (ok-eq h) (accept_task-IsSound t w)) v
apply-IsHistory d (finishes id update is_replay) v =
    modified-IsHistory (finish_tracked update is_replay) id d
      (λ t u h w. finish_tracked-IsSound update is_replay t u h w) v
apply-IsHistory d (rejects id update) v = elim (reject-Modified id update d) [
  | inl same ↦ subst IsHistory (sym same) v
  | inr m ↦
      Modified-IsHistory (λ t. ok (add_rejection update t)) d (reject d id update)
        (λ t u h w. subst IsSound (ok-eq h) (add_rejection-IsSound update t w)) m v
]
apply-IsHistory d (settles id delivered) v =
    modified-IsHistory (λ t. ok (settle delivered t)) id d
      (λ t u h w. subst IsSound (ok-eq h) (settle-IsSound delivered t w)) v

pub apply_all-IsHistory :
    (d : DriverCommandDelivery) (es : List Event) → IsHistory d → IsHistory (apply_all d es)
unfolding apply_all
apply_all-IsHistory d [] v = v
apply_all-IsHistory d (e ∷ es) v = apply_all-IsHistory (apply d e) es (apply-IsHistory d e v)

-- After any calls of receive, accept, finish and reject and any settlements from the start, at most
-- 1024 commands are tracked, an identity has one entry, and of each command: the promises that `accept`
-- and `finish` have chained, and the statuses that these have sent, carry no terminal but the recorded
-- one, at most one unsettled promise carries it, and `terminalTask` is that promise. What `reject`
-- sends is apart from them: it is what its caller gives, recorded or not.
pub all_calls-IsHistory : (es : List Event) → IsHistory (apply_all [] es)
all_calls-IsHistory es =
    apply_all-IsHistory [] es (record { few = omega arith; distinct = tt; sound = tt })
