-- ===== src/Async/Buffer/Bounded.antt =====
-- The general template of async_circular_buffer.hpp and its capacity.
use boost_connector.Base.{ℕ, zero, suc, ◌≤◌, List, [], ◌∷◌, length, length-append, arith}
use boost_connector.Async.Buffer.Circular.{Circular, push_back, push, pop, clear, make}

pub data Op {ℓ} (A : Type ℓ) : Type ℓ where
  pushes : A → Op A
  pops clears : Op A

module _ {ℓ} {A : Type ℓ} where
  abbrev pub IsBounded : Circular A → Type 0
  IsBounded c = length c.buffer ≤ c.capacity

  unfoldable pub step : Circular A → Op A → Circular A
  step c (pushes a) = push a c
  step c pops = (pop c).1
  step c clears = clear c

  unfoldable pub run : Circular A → List (Op A) → Circular A
  run c [] = c
  run c (o ∷ os) = run (step c o) os

  push_back-le : (n : ℕ) (a : A) (b : List A) → length b ≤ n → length (push_back n a b) ≤ n
  unfolding push_back
  push_back-le zero a b h = h
  push_back-le (suc n) a [] h = omega arith
  push_back-le (suc n) a (x ∷ b) h = ground (arith, length-append b (a ∷ []))

  step-IsBounded : (c : Circular A) (o : Op A) → IsBounded c → IsBounded (step c o)
  unfolding step push pop clear
  step-IsBounded c (pushes a) h = push_back-le c.capacity a c.buffer h
  step-IsBounded c pops h = ground arith
  step-IsBounded c clears h = omega arith

  run-IsBounded : (c : Circular A) (os : List (Op A)) → IsBounded c → IsBounded (run c os)
  unfolding run
  run-IsBounded c [] h = h
  run-IsBounded c (o ∷ os) h = run-IsBounded (step c o) os (step-IsBounded c o h)

  -- After any calls on a fresh buffer, it holds at most its capacity of values.
  pub make-run-IsBounded : (n : ℕ) (os : List (Op A)) → IsBounded (run (make n) os)
  unfolding make
  make-run-IsBounded n os = run-IsBounded (make n) os (omega arith)
