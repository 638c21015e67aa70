-- ===== src/Async/Buffer/Single.antt =====
-- The specialisation of async_circular_buffer.hpp for capacity 1, over `boost::optional`.
use boost_connector.Base.{Option, none, some}
use boost_connector.Async.Buffer.Waits.{Waits, cancel_one, suspend}

pub record Single {ℓ} (A : Type ℓ) : Type ℓ where
  pub slot : Option A
  pub cv : Waits

module _ {ℓ} {A : Type ℓ} where
  unfoldable pub make : Single A
  make = record { slot = none; cv = record { waiting = 0; resumed = 0 } }

  unfoldable pub clear : Single A → Single A
  clear s = record s { slot = none }

  unfoldable pub push : A → Single A → Single A
  unfolding cancel_one
  push a s = record s { slot = some a; cv = cancel_one s.cv }

  unfoldable pub pop : Single A → Option A × Single A
  unfolding suspend
  pop s = elim s.slot [
    | none ↦ (none, record s { cv = suspend s.cv })
    | some a ↦ (some a, record s { slot = none })
  ]
