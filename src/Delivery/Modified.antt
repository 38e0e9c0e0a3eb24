-- ===== src/Delivery/Modified.antt =====
-- The map of tracked commands after a call on one of them (src/core/driver-command-delivery.ts).
use mosoo_agent_driver.Base.{
  ◌≡◌, refl, sym, ap, ◌⊎◌, inl, inr, subst, Bool, true, false, some, [], ◌∷◌, str_eq, if◌then◌else◌,
  Result, ok, ◌>>=◌, String, arith, >>=-eq-ok, differs_comm, str_eq→eq,
}
use mosoo_agent_driver.Delivery.{
  TerminalCommandUpdate, TrackedCommand, DriverCommandDelivery, DeliveryError, get, modify, reject,
  add_rejection,
}

-- the map after a call on one of its commands
pub data Modified (f : TrackedCommand → Result DeliveryError TrackedCommand)
    : DriverCommandDelivery → DriverCommandDelivery → Type 0 where
  here :
      (k : String) (t u : TrackedCommand) (rest : DriverCommandDelivery)
      → f t ≡ ok u
      → Modified f ((k, t) ∷ rest) ((k, u) ∷ rest)
  there :
      (k : String) (t : TrackedCommand) (rest others : DriverCommandDelivery)
      → Modified f rest others
      → Modified f ((k, t) ∷ rest) ((k, t) ∷ others)

pub modify-Modified :
    (id : String) (f : TrackedCommand → Result DeliveryError TrackedCommand)
    (d e : DriverCommandDelivery)
    → modify id f d ≡ ok e
    → Modified f d e
unfolding modify
modify-Modified id f [] e h = cc
modify-Modified id f ((k, t) ∷ rest) e h =
    by_key (str_eq k id) (λ o c. modify-Modified id f rest o c) h
  where
    same :
        {a b : DriverCommandDelivery}
        → ◌≡◌ {A = Result DeliveryError DriverCommandDelivery} (ok a) (ok b)
        → a ≡ b
    same h = cc

    by_key :
        (b : Bool)
        → ((o : DriverCommandDelivery) → modify id f rest ≡ ok o → Modified f rest o)
        → (if b
            then (do u ← f t; ok ((k, u) ∷ rest))
            else (do others ← modify id f rest; ok ((k, t) ∷ others)))
          ≡ ok e
        → Modified f ((k, t) ∷ rest) e
    by_key true later h =
        let (u, called, r) = >>=-eq-ok (f t) _ h in
        subst (Modified f ((k, t) ∷ rest)) (same r) (here k t u rest called)
    by_key false later h =
        let (others, called, r) = >>=-eq-ok (modify id f rest) _ h in
        subst (Modified f ((k, t) ∷ rest)) (same r) (there k t rest others (later others called))

-- `reject` leaves the map as it is, or records what it sends for one of the commands
pub reject-Modified :
    (id : String) (u : TerminalCommandUpdate) (d : DriverCommandDelivery)
    → (reject d id u ≡ d) ⊎ Modified (λ t. ok (add_rejection u t)) d (reject d id u)
unfolding reject
reject-Modified id u [] = inl refl
reject-Modified id u ((k, t) ∷ rest) = by_key (str_eq k id) (reject-Modified id u rest)
  where
    f : TrackedCommand → Result DeliveryError TrackedCommand
    f v = ok (add_rejection u v)

    by_key :
        (b : Bool)
        → (reject rest id u ≡ rest) ⊎ Modified f rest (reject rest id u)
        → let e = if b then (k, add_rejection u t) ∷ rest else (k, t) ∷ reject rest id u in
          (e ≡ (k, t) ∷ rest) ⊎ Modified f ((k, t) ∷ rest) e
    by_key true later = inr (here k t (add_rejection u t) rest refl)
    by_key false (inl same) = inl (ap (λ others. (k, t) ∷ others) same)
    by_key false (inr m) = inr (there k t rest (reject rest id u) m)

-- what is found after `reject`
pub get-reject :
    (d : DriverCommandDelivery) (key id : String) (u : TerminalCommandUpdate) (t : TrackedCommand)
    → get d id ≡ some t
    → get (reject d key u) id ≡ some (if str_eq key id then add_rejection u t else t)
unfolding get reject
get-reject [] key id u t found = cc
get-reject ((k, v) ∷ rest) key id u t found =
    let later : get rest id ≡ some t
        → get (reject rest key u) id ≡ some (if str_eq key id then add_rejection u t else t) =
      get-reject rest key id u t in
    let same : str_eq k key ≡ true → str_eq k id ≡ str_eq key id =
      λ e. ap (λ x. str_eq x id) (str_eq→eq k key e) in
    let other : str_eq k id ≡ true → str_eq key id ≡ str_eq key k =
      λ e. ap (str_eq key) (sym (str_eq→eq k id e)) in
    let comm = differs_comm k key in ground arith
