-- ===== src/Async/Buffer/Waits.antt =====
-- The condition variable of async_circular_buffer.hpp: a timer that never expires, seen as the number
-- of coroutines suspended on it and the number that `cancel_one` has resumed.
use boost_connector.Base.{ℕ, ◌+◌, ◌-◌, ◌==◌, if◌then◌else◌}

pub record Waits : Type 0 where
  pub waiting : ℕ
  pub resumed : ℕ

unfoldable pub cancel_one : Waits → Waits
cancel_one w =
    if w.waiting == 0 then w else record { waiting = w.waiting - 1; resumed = w.resumed + 1 }

unfoldable pub suspend : Waits → Waits
suspend w = record w { waiting = w.waiting + 1 }
