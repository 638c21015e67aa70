-- ===== src/Ftx/PingPong/Schedule.antt =====
-- The pings of a connection, and their times: src/vendor/ftx/detail/ping_pong.cpp.
use boost_connector.Base.{ℕ, zero, suc, ◌+◌, ◌*◌, ◌≤◌, ◌≡◌, Text, List, [], ◌∷◌, ◌++◌}
use boost_connector.Async.Queue
use boost_connector.Async.Queue.{AsyncQueue}
use boost_connector.Ftx.PingPong.{PingPong, Signal, pong, timer, awaiting_pong, returned, ping, run}

unfoldable pub pings : ℕ → List Text
pings zero = []
pings (suc n) = ping ∷ pings n

-- The times of the signals do not go back.
abbrev pub InOrder : ℕ → List (ℕ × Signal) → Type 0
InOrder now [] = Unit
InOrder now ((at, s) ∷ ss) = (now ≤ at) × InOrder at ss

abbrev pub last_time : ℕ → List (ℕ × Signal) → ℕ
last_time now [] = now
last_time now ((at, s) ∷ ss) = last_time at ss

-- A pong, and then the timer at its time, make the coroutine send one more ping, and wait for its pong.
abbrev pub Responds : PingPong × AsyncQueue Text → Type 0
Responds (p, q) =
    (a b : ℕ)
    → p.stage ≡ awaiting_pong
    → p.next_ping ≤ b
    → ((run ((a, pong) ∷ (b, timer) ∷ []) (p, q)).1.queue ≡ q.queue ++ ping ∷ [])
      × ((run ((a, pong) ∷ (b, timer) ∷ []) (p, q)).0.stage ≡ awaiting_pong)

-- The timer before the pong makes the coroutine return, and send nothing more.
abbrev pub GivesUp : PingPong × AsyncQueue Text → Type 0
GivesUp (p, q) =
    (b : ℕ) (ss : List (ℕ × Signal))
    → p.stage ≡ awaiting_pong
    → p.expires_at ≤ b
    → run ((b, timer) ∷ ss) (p, q) ≡ (record p { stage = returned }, q)

-- At a time `now`, one ping and then some more have been queued behind what was queued, and for each of
-- those more 15 seconds have passed since the beginning; the next is due 15 seconds after that, and the
-- timer is set to its time.
pub record OnSchedule (begin : ℕ) (before : List Text) (now : ℕ) (c : PingPong × AsyncQueue Text)
    : Type 0 where
  pub more : ℕ
  pub queued : c.1.queue ≡ before ++ pings (suc more)
  pub passed : begin + 15 * more ≤ now
  pub due : c.0.next_ping ≡ begin + 15 * suc more
  pub armed : c.0.expires_at ≡ c.0.next_ping
