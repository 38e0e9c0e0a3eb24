-- ===== src/Queue/Examples.antt =====
-- The theorems about the queue at a concrete run, and the results of that run.
use mosoo_agent_driver.Base.{ℕ, ◌≡◌, refl, false, some, none, List, [], ◌∷◌}
use mosoo_agent_driver.Queue.{AsyncValueQueue, new, push_many, close, buffer, next, push_reserved}
use mosoo_agent_driver.Queue.Accounts.{
  Op, pushes, pushes_reserved, nexts, closes, IsAccounted, apply_all, accounts_hold,
}
use mosoo_agent_driver.Queue.Order.{IsOrdered, accepted}
use mosoo_agent_driver.Queue.Fifo.{fifo}

abbrev small : AsyncValueQueue ℕ
small = new (some 10) 2 (λ n. some n) (some (record { max_bytes = 4; max_size = 1 }))

-- One promise waits when three values come: it gets the first, two are buffered. A further value
-- finds the queue full, and the reserve takes one entry of 3 bytes and then no other.
abbrev traffic : List (Op ℕ)
traffic =
    nexts
    ∷ pushes (5 ∷ 6 ∷ 4 ∷ [])
    ∷ pushes (1 ∷ [])
    ∷ pushes_reserved 3
    ∷ pushes_reserved 1
    ∷ nexts
    ∷ closes false
    ∷ nexts
    ∷ nexts
    ∷ nexts
    ∷ []

traffic_runs :
    (apply_all small traffic).settled
    ≡ (0, some 5) ∷ (1, some 6) ∷ (2, some 4) ∷ (3, some 3) ∷ (4, none) ∷ []
unfolding apply_all new push_many push_reserved next close buffer
traffic_runs = refl

traffic-accepted : accepted small traffic ≡ 5 ∷ 6 ∷ 4 ∷ 3 ∷ []
unfolding accepted apply_all new push_many push_reserved next close buffer
traffic-accepted = refl

accounts_hold_example : IsAccounted (apply_all small traffic)
accounts_hold_example =
    accounts_hold (some 10) 2 (λ n. some n) (some (record { max_bytes = 4; max_size = 1 })) traffic

fifo_example : IsOrdered (apply_all small traffic) (accepted small traffic)
fifo_example =
    fifo (some 10) 2 (λ n. some n) (some (record { max_bytes = 4; max_size = 1 })) traffic
      (tt, (tt, (tt, (tt, (tt, (tt, (refl, (tt, (tt, (tt, tt))))))))))
