-- ===== src/Async/Latch.antt =====
-- include/boost/connector/util/async_latch.hpp and src/util/async_latch.cpp. The timer is its expiry,
-- the number of coroutines suspended in `async_wait`, and the number that a cancellation has resumed.
-- Setting the expiry cancels every wait, as asio documents of `expires_at`.
pub mod Waiters
use boost_connector.Base.{
  ℕ, zero, suc, ◌+◌, ◌-◌, ◌≡◌, Bool, true, false, Option, none, some, if◌then◌else◌, arith,
}

pub data Expiry : Type 0 where
  time_min time_max : Expiry

pub record AsyncLatch : Type 0 where
  pub expiry : Expiry
  pub waiting : ℕ
  pub resumed : ℕ

-- The error that a wait completes with, and what `wait` makes of it.
pub data WaitError : Type 0 where
  success operation_aborted : WaitError
  other : ℕ → WaitError

pub data WaitResult : Type 0 where
  returned : WaitResult
  throws : WaitError → WaitResult

unfoldable pub make : Bool → AsyncLatch
make initial_set = record {
  expiry = if initial_set then time_min else time_max;
  waiting = 0;
  resumed = 0;
}

unfoldable pub expires_at : Expiry → AsyncLatch → AsyncLatch
expires_at t l = record { expiry = t; waiting = 0; resumed = l.resumed + l.waiting }

unfoldable pub set : AsyncLatch → AsyncLatch
unfolding expires_at
set l = expires_at time_min l

unfoldable pub reset : AsyncLatch → AsyncLatch
unfolding expires_at
reset l = expires_at time_max l

abbrev is_min : Expiry → Bool
is_min time_min = true
is_min time_max = false

unfoldable pub is_set : AsyncLatch → Bool
is_set l = is_min l.expiry

-- The call of `wait`: `none` where the coroutine suspends.
unfoldable pub wait : AsyncLatch → Option WaitResult × AsyncLatch
unfolding is_set
wait l = if is_set l then (some returned, l) else (none, record l { waiting = l.waiting + 1 })

-- The rest of `wait`, once the timer's wait has completed with an error code.
unfoldable pub after_wait : WaitError → WaitResult
after_wait operation_aborted = returned
after_wait success = throws operation_aborted
after_wait (other n) = throws (other n)

-- The executor runs one resumed coroutine. The waits of a latch end by cancellation alone.
unfoldable pub resume : AsyncLatch → Option WaitResult × AsyncLatch
unfolding after_wait
resume l = elim l.resumed [
  | zero ↦ (none, l)
  | suc n ↦ (some (after_wait operation_aborted), record l { resumed = n })
]
