-- ===== src/Examples/Async.antt =====
-- Runs of src/util/async_latch.cpp, of async_queue.hpp and of async_circular_buffer.hpp.
use boost_connector.Base.{◌<◌}
use boost_connector.Base.{ℕ, ◌≤◌, ◌≡◌, refl, true, false, some, List, [], ◌∷◌, ◌++◌, length, arith}
use boost_connector.Async.Latch
use boost_connector.Async.Latch.{AsyncLatch, is_set}
use boost_connector.Async.Latch.Waiters
use boost_connector.Async.Latch.Waiters.{make-run-waiting, reset-releases}
use boost_connector.Async.Queue
use boost_connector.Async.Queue.{AsyncQueue}
use boost_connector.Async.Queue.Wakeups
use boost_connector.Async.Queue.Wakeups.{make-run-resumed, run-fifo}
use boost_connector.Async.Buffer.Circular
use boost_connector.Async.Buffer.Single
use boost_connector.Async.Buffer.Single.{Single}
use boost_connector.Async.Buffer.Bounded
use boost_connector.Async.Buffer.Bounded.{make-run-IsBounded}
use boost_connector.Async.Buffer.Specialised.{specialised, general}

abbrev two_waits : List Waiters.Op
two_waits = Waiters.waits ∷ Waiters.waits ∷ Waiters.sets ∷ Waiters.resumes ∷ []

two_waits-set : is_set (Waiters.run two_waits (Latch.make false)) ≡ true
unfolding Waiters.run Latch.make is_set
two_waits-set = refl

two_waits-run-waiting : (Waiters.run two_waits (Latch.make false)).waiting ≡ 0
two_waits-run-waiting = make-run-waiting false two_waits two_waits-set

abbrev awaited : AsyncLatch
awaited = record { expiry = Latch.time_max; waiting = 2; resumed = 0 }

awaited-reset :
    ((Latch.reset awaited).resumed ≡ (Latch.set awaited).resumed)
    × ((Latch.reset awaited).waiting ≡ 0)
    × (is_set (Latch.reset awaited) ≡ false)
    × (is_set (Latch.set awaited) ≡ true)
awaited-reset = reset-releases awaited

abbrev consumers : List (Wakeups.Op ℕ)
consumers = Wakeups.pops ∷ Wakeups.pops ∷ Wakeups.pushes 7 ∷ []

consumers_wait : 0 < (Wakeups.run Queue.make consumers).1.waiting
unfolding Wakeups.run Queue.make Wakeups.step Queue.push Queue.pop
consumers_wait = omega arith

make-run-resumed_example :
    length (Wakeups.run Queue.make consumers).1.queue ≤ (Wakeups.run Queue.make consumers).1.resumed
make-run-resumed_example = make-run-resumed consumers consumers_wait

abbrev busy : AsyncQueue ℕ
busy = record { queue = 1 ∷ []; waiting = 0; resumed = 0 }

abbrev traffic : List (Wakeups.Op ℕ)
traffic = Wakeups.pushes 2 ∷ Wakeups.pops ∷ Wakeups.pushes 3 ∷ Wakeups.pops ∷ []

traffic_received : (Wakeups.run busy traffic).0 ≡ 1 ∷ 2 ∷ []
unfolding Wakeups.run Wakeups.step Queue.pop Queue.push
traffic_received = refl

run-fifo_example :
    (Wakeups.run busy traffic).0 ++ (Wakeups.run busy traffic).1.queue ≡ 1 ∷ 2 ∷ 3 ∷ []
run-fifo_example = run-fifo busy traffic tt

abbrev three_pushes : List (Bounded.Op ℕ)
three_pushes = Bounded.pushes 1 ∷ Bounded.pushes 2 ∷ Bounded.pushes 3 ∷ []

three_pushes-IsBounded : Bounded.IsBounded (Bounded.run (Circular.make 2) three_pushes)
three_pushes-IsBounded = make-run-IsBounded 2 three_pushes

abbrev slot : Single ℕ
slot = record { slot = some 4; cv = record { waiting = 1; resumed = 0 } }

specialised_example :
    (general (Single.push 5 slot) ≡ Circular.push 5 (general slot))
    × (general (Single.clear slot) ≡ Circular.clear (general slot))
    × ((Single.pop slot).0 ≡ (Circular.pop (general slot)).0)
    × (general (Single.pop slot).1 ≡ (Circular.pop (general slot)).1)
specialised_example = specialised slot 5
