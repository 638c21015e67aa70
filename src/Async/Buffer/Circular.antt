-- ===== src/Async/Buffer/Circular.antt =====
-- The general template of async_circular_buffer.hpp, for any capacity.
use boost_connector.Base.{
  ℕ, zero, suc, Option, none, some, List, [], ◌∷◌, ◌++◌, length, ◌==◌, if◌then◌else◌,
}
use boost_connector.Async.Buffer.Waits.{Waits, cancel_one, suspend}

pub record Circular {ℓ} (A : Type ℓ) : Type ℓ where
  pub capacity : ℕ
  pub buffer : List A
  pub cv : Waits

module _ {ℓ} {A : Type ℓ} where
  unfoldable pub make : ℕ → Circular A
  make n = record { capacity = n; buffer = []; cv = record { waiting = 0; resumed = 0 } }

  -- `boost::circular_buffer::push_back`: a full buffer loses its front, and one of capacity 0 stays.
  unfoldable pub push_back : ℕ → A → List A → List A
  push_back zero a b = b
  push_back (suc n) a [] = a ∷ []
  push_back (suc n) a (x ∷ b) = if length b == n then b ++ a ∷ [] else x ∷ (b ++ a ∷ [])

  unfoldable pub clear : Circular A → Circular A
  clear c = record c { buffer = [] }

  unfoldable pub push : A → Circular A → Circular A
  unfolding push_back cancel_one
  push a c = record c { buffer = push_back c.capacity a c.buffer; cv = cancel_one c.cv }

  -- One turn of the loop of `pop`: `none` where the coroutine suspends.
  unfoldable pub pop : Circular A → Option A × Circular A
  unfolding suspend
  pop c = elim c.buffer [
    | [] ↦ (none, record c { cv = suspend c.cv })
    | a ∷ rest ↦ (some a, record c { buffer = rest })
  ]
