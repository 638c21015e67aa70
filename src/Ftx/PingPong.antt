-- ===== src/Ftx/PingPong.antt =====
-- src/vendor/ftx/detail/ping_pong.cpp: the coroutine that keeps a connection alive. Times are seconds of
-- the steady clock.
pub mod Schedule
use boost_connector.Base.{ℕ, ◌+◌, Text, codes, Bool, true, false, ltb, List, [], ◌∷◌, if◌then◌else◌}
use boost_connector.Async.Queue
use boost_connector.Async.Queue.{AsyncQueue}

-- Where the coroutine is suspended: on a pong or the timer, on the timer alone, or not any more. The
-- exception of a timeout is caught in the coroutine itself, which then returns.
pub data Stage : Type 0 where
  awaiting_pong awaiting_timer returned : Stage

-- `expires_at` is the expiry of the timer.
pub record PingPong : Type 0 where
  pub next_ping : ℕ
  pub expires_at : ℕ
  pub stage : Stage

abbrev pub ping : Text
ping = codes "{\"op\": \"ping\"}"

-- The beginning of `timeout`, up to its wait on the timer.
unfoldable pub timeout : Stage → PingPong → PingPong
timeout stage p = record p { expires_at = p.next_ping; stage = stage }

-- The top of the loop, up to its first wait.
unfoldable pub send_ping : PingPong → AsyncQueue Text → PingPong × AsyncQueue Text
unfolding timeout
send_ping p q =
    (timeout awaiting_pong (record p { next_ping = p.next_ping + 15 }), Queue.push ping q)

-- The coroutine starts at a time of the clock, with the timer not set.
unfoldable pub start : ℕ → AsyncQueue Text → PingPong × AsyncQueue Text
unfolding send_ping
start now q = send_ping (record { next_ping = now; expires_at = 0; stage = returned }) q

-- What may resume the coroutine: the `pop` of the buffer, which may also hold a pong that came before, or
-- the wait on the timer, which is done from the expiry on.
pub data Signal : Type 0 where
  pong timer : Signal

on_pong : Stage → PingPong → PingPong
unfolding timeout
on_pong awaiting_pong p = timeout awaiting_timer p
on_pong _ p = p

on_timer : Stage → PingPong → AsyncQueue Text → PingPong × AsyncQueue Text
unfolding send_ping
on_timer awaiting_pong p q = (record p { stage = returned }, q)
on_timer awaiting_timer p q = send_ping p q
on_timer returned p q = (p, q)

-- A signal at a time of the clock.
unfoldable pub wake : ℕ → Signal → PingPong × AsyncQueue Text → PingPong × AsyncQueue Text
unfolding on_pong on_timer
wake now pong (p, q) = (on_pong p.stage p, q)
wake now timer (p, q) = if ltb now p.expires_at then (p, q) else on_timer p.stage p q

unfoldable pub run : List (ℕ × Signal) → PingPong × AsyncQueue Text → PingPong × AsyncQueue Text
run [] c = c
run ((now, s) ∷ ss) c = run ss (wake now s c)
