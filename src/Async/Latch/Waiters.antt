-- ===== src/Async/Latch/Waiters.antt =====
-- Sequences of calls of src/util/async_latch.cpp, and the coroutines that wait.
use boost_connector.Base.{◌≡◌, refl, Bool, true, false, List, [], ◌∷◌, arith}
use boost_connector.Async.Latch
use boost_connector.Async.Latch.{
  AsyncLatch, Expiry, time_min, time_max, is_set, expires_at, wait, after_wait,
}

-- What the program does to a latch, in the order in which the executor does it.
pub data Op : Type 0 where
  sets resets waits resumes : Op

unfoldable pub step : Op → AsyncLatch → AsyncLatch
unfolding Latch.set Latch.reset wait Latch.resume
step sets l = Latch.set l
step resets l = Latch.reset l
step waits l = (wait l).1
step resumes l = (Latch.resume l).1

unfoldable pub run : List Op → AsyncLatch → AsyncLatch
unfolding step
run [] l = l
run (o ∷ os) l = run os (step o l)

abbrev NobodyWaits : AsyncLatch → Type 0
NobodyWaits l = is_set l ≡ true → l.waiting ≡ 0

step-NobodyWaits : (o : Op) (l : AsyncLatch) → NobodyWaits l → NobodyWaits (step o l)
unfolding step Latch.set Latch.reset wait Latch.resume expires_at is_set
step-NobodyWaits o l h = ground arith

run-NobodyWaits : (os : List Op) (l : AsyncLatch) → NobodyWaits l → NobodyWaits (run os l)
unfolding run
run-NobodyWaits [] l h = h
run-NobodyWaits (o ∷ os) l h = run-NobodyWaits os (step o l) (step-NobodyWaits o l h)

-- However a new latch is set, reset, waited on and its waiters resumed, no coroutine is suspended on it
-- without having been resumed while it is set.
pub make-run-waiting :
    (initial_set : Bool) (os : List Op)
    → is_set (run os (Latch.make initial_set)) ≡ true
    → (run os (Latch.make initial_set)).waiting ≡ 0
unfolding Latch.make
make-run-waiting initial_set os h = run-NobodyWaits os (Latch.make initial_set) (λ e. refl) h

-- A reset releases those that wait exactly as a set does: the same waits are resumed and none is left,
-- though the latch is not set then.
pub reset-releases :
    (l : AsyncLatch)
    → ((Latch.reset l).resumed ≡ (Latch.set l).resumed)
      × ((Latch.reset l).waiting ≡ 0)
      × (is_set (Latch.reset l) ≡ false)
      × (is_set (Latch.set l) ≡ true)
unfolding Latch.set Latch.reset expires_at is_set
reset-releases l = ground arith
