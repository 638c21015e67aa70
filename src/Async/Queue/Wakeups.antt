-- ===== src/Async/Queue/Wakeups.antt =====
-- Sequences of calls of include/boost/connector/util/async_queue.hpp: wake-ups and the order of values.
use mathlib.Core.List.{append_assoc, append-nil}
use boost_connector.Base.{
  ◌≤◌, ◌<◌, ◌≡◌, refl, sym, ap, ◌∙◌, Option, none, some, List, [], ◌∷◌, ◌++◌, length, length-append,
  arith,
}
use boost_connector.Async.Queue.{AsyncQueue, make, clear, push, pop, resume}

pub data Op {ℓ} (A : Type ℓ) : Type ℓ where
  pushes : A → Op A
  pops resumes clears : Op A

module _ {ℓ} {A : Type ℓ} where
  -- While a coroutine is suspended, each queued value has a resumed coroutine on its way to it.
  pub record NoLostWakeup (q : AsyncQueue A) : Type 0 where
    pub covered : 0 < q.waiting → length q.queue ≤ q.resumed

  -- A call, and the value that it hands to a consumer.
  unfoldable pub step : AsyncQueue A → Op A → Option A × AsyncQueue A
  step q (pushes a) = (none, push a q)
  step q pops = pop q
  step q resumes = resume q
  step q clears = (none, clear q)

  abbrev add_result : Option A → List A → List A
  add_result none xs = xs
  add_result (some a) xs = a ∷ xs

  -- The values handed out, in order, and the queue that is left.
  unfoldable pub run : AsyncQueue A → List (Op A) → List A × AsyncQueue A
  run q [] = ([], q)
  run q (o ∷ os) = let (r, q') = step q o in let (out, q'') = run q' os in (add_result r out, q'')

  step-NoLostWakeup : (q : AsyncQueue A) (o : Op A) → NoLostWakeup q → NoLostWakeup (step q o).1
  unfolding step push pop resume clear
  step-NoLostWakeup q (pushes a) h = ground (arith, length-append q.queue (a ∷ []))
  step-NoLostWakeup q pops h = ground arith
  step-NoLostWakeup q resumes h = ground arith
  step-NoLostWakeup q clears h = ground arith

  run-NoLostWakeup :
      (q : AsyncQueue A) (os : List (Op A)) → NoLostWakeup q → NoLostWakeup (run q os).1
  unfolding run
  run-NoLostWakeup q [] h = h
  run-NoLostWakeup q (o ∷ os) h = run-NoLostWakeup (step q o).1 os (step-NoLostWakeup q o h)

  -- After any interleaving of pushes, pops, resumptions and clears of a new queue, if a coroutine is
  -- still suspended then each queued value has a resumed coroutine of its own, on its way to it.
  pub make-run-resumed :
      (os : List (Op A))
      → 0 < (run make os).1.waiting
      → length (run make os).1.queue ≤ (run make os).1.resumed
  unfolding make
  make-run-resumed os h = (run-NoLostWakeup make os (ground arith)).covered h

  abbrev pub pushed : List (Op A) → List A
  pushed [] = []
  pushed (pushes a ∷ os) = a ∷ pushed os
  pushed (_ ∷ os) = pushed os

  abbrev pub NoClear : List (Op A) → Type 0
  NoClear [] = Unit
  NoClear (clears ∷ os) = ⊥
  NoClear (_ ∷ os) = NoClear os

  step-fifo :
      (q : AsyncQueue A) (o : Op A)
      → NoClear (o ∷ [])
      → add_result (step q o).0 (step q o).1.queue ≡ q.queue ++ pushed (o ∷ [])
  unfolding step push pop resume
  step-fifo q (pushes a) h = ground arith
  step-fifo q pops h = ground (arith, append-nil q.queue)
  step-fifo q resumes h = ground (arith, append-nil q.queue)
  step-fifo q clears h = absurd h

  add_result-append :
      (r : Option A) (xs ys : List A) → add_result r xs ++ ys ≡ add_result r (xs ++ ys)
  add_result-append none xs ys = refl
  add_result-append (some a) xs ys = refl

  pushed-cons : (o : Op A) (os : List (Op A)) → pushed (o ∷ []) ++ pushed os ≡ pushed (o ∷ os)
  pushed-cons (pushes a) os = refl
  pushed-cons _ os = refl

  NoClear-head : (o : Op A) (os : List (Op A)) → NoClear (o ∷ os) → NoClear (o ∷ [])
  NoClear-head clears os h = h
  NoClear-head _ os h = tt

  NoClear-tail : (o : Op A) (os : List (Op A)) → NoClear (o ∷ os) → NoClear os
  NoClear-tail clears os h = absurd h
  NoClear-tail _ os h = h

  -- Between two clears the queue is a FIFO: what the consumers received, followed by what is still
  -- queued, is what was queued at first, followed by what was pushed since.
  pub run-fifo :
      (q : AsyncQueue A) (os : List (Op A))
      → NoClear os
      → (run q os).0 ++ (run q os).1.queue ≡ q.queue ++ pushed os
  unfolding run
  run-fifo q [] h = rw (append-nil q.queue)
  run-fifo q (o ∷ os) h =
      let q' = (step q o).1 in
      add_result-append (step q o).0 (run q' os).0 (run q' os).1.queue
      ∙ ap (add_result (step q o).0) (run-fifo q' os (NoClear-tail o os h))
      ∙ sym (add_result-append (step q o).0 q'.queue (pushed os))
      ∙ ap (λ xs. xs ++ pushed os) (step-fifo q o (NoClear-head o os h))
      ∙ append_assoc q.queue (pushed (o ∷ [])) (pushed os)
      ∙ ap (◌++◌ q.queue) (pushed-cons o os)
