-- ===== src/Async/Queue.antt =====
-- include/boost/connector/util/async_queue.hpp. The condition variable is the number of coroutines
-- suspended in `pop` and the number that `cancel_one` has resumed and that still have to run.
pub mod Wakeups
use boost_connector.Base.{
  ℕ, zero, suc, ◌+◌, ◌-◌, Option, none, some, List, [], ◌∷◌, ◌++◌, ◌==◌, if◌then◌else◌,
}

pub record AsyncQueue {ℓ} (A : Type ℓ) : Type ℓ where
  pub queue : List A
  pub waiting : ℕ
  pub resumed : ℕ

module _ {ℓ} {A : Type ℓ} where
  unfoldable pub make : AsyncQueue A
  make = record { queue = []; waiting = 0; resumed = 0 }

  unfoldable pub clear : AsyncQueue A → AsyncQueue A
  clear q = record q { queue = [] }

  -- `cancel_one` resumes one suspended coroutine, if there is one.
  unfoldable pub cancel_one : AsyncQueue A → AsyncQueue A
  cancel_one q =
      if q.waiting == 0 then q else record q { waiting = q.waiting - 1; resumed = q.resumed + 1 }

  unfoldable pub push : A → AsyncQueue A → AsyncQueue A
  unfolding cancel_one
  push a q = cancel_one (record q { queue = q.queue ++ a ∷ [] })

  -- One turn of the loop of `pop`: `none` where the coroutine suspends.
  unfoldable pub pop : AsyncQueue A → Option A × AsyncQueue A
  pop q = elim q.queue [
    | [] ↦ (none, record q { waiting = q.waiting + 1 })
    | a ∷ rest ↦ (some a, record q { queue = rest })
  ]

  -- The executor runs one resumed coroutine, which tests the queue again.
  unfoldable pub resume : AsyncQueue A → Option A × AsyncQueue A
  unfolding pop
  resume q = elim q.resumed [ zero ↦ (none, q) | suc n ↦ pop (record q { resumed = n }) ]
