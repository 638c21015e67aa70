-- ===== src/Stream/Race.antt =====
-- The race for a connection to one of several endpoints: `connect`, `selected`, `connect_range` and
-- `connect_one` of src/util/websocket_stream_variant.cpp.
use boost_connector.Base.{
  ℕ, suc, ◌≤◌, Bool, true, false, Option, none, some, ◌>>=◌, ◌≡◌, refl, ◌⊎◌, inl, inr, List, [],
  ◌∷◌, leb, if◌then◌else◌, arith, All, All-map, get_elem?, get_elem?-append, Bool-cases,
}
use boost_connector.Stream.{
  Result, returns, throws, Result-cases, TcpTransportLayer, connected_to, Attempt,
}

-- When a coroutine that makes a connection completes, and how.
pub record Finish (E : Type 0) : Type 0 where
  pub at : ℕ
  pub result : Result (TcpTransportLayer E)

-- The variant that `||` gives: one alternative for each of its operands.
pub data Winner (A : Type 0) : Type 0 where
  first second : A → Winner A

unfoldable pub selected : {A : Type 0} → Winner A → A
selected (first a) = a
selected (second a) = a

-- When `||` has its result, and which.
pub record Raced (E : Type 0) : Type 0 where
  pub at : ℕ
  pub result : Result (Winner (TcpTransportLayer E))

-- The operand that completes first is `a`. `||` waits for the first success: a failure waits for the other
-- operand, and if that fails too the first failure is thrown.
abbrev settle :
    {E : Type 0}
    → (TcpTransportLayer E → Winner (TcpTransportLayer E))
    → (TcpTransportLayer E → Winner (TcpTransportLayer E))
    → Finish E
    → Finish E
    → Raced E
settle f g a b = elim a.result [
  | returns s ↦ record { at = a.at; result = returns (f s) }
  | throws e ↦ elim b.result [
    | returns s ↦ record { at = b.at; result = returns (g s) }
    | throws e' ↦ record { at = b.at; result = throws e }
  ]
]

-- `a || b` of asio's awaitable operators.
unfoldable pub race : {E : Type 0} → Finish E → Finish E → Raced E
race a b = if leb a.at b.at then settle first second a b else settle second first b a

abbrev select_result :
    {E : Type 0} → Result (Winner (TcpTransportLayer E)) → Result (TcpTransportLayer E)
select_result (returns w) = returns (selected w)
select_result (throws e) = throws e

module _ {E : Type 0} (attempt : E → Attempt) where
  abbrev connect_result : E → Result Unit → Result (TcpTransportLayer E)
  connect_result e (returns _) = returns (connected_to e)
  connect_result e (throws x) = throws x

  unfoldable pub connect : E → Finish E
  connect e = record { at = (attempt e).at; result = connect_result e (attempt e).result }

  -- `none` where the assertion fails that the range is not empty.
  unfoldable pub connect_range : List E → Option (Finish E)
  unfolding connect race selected
  connect_range [] = none
  connect_range (e ∷ []) = some (connect e)
  connect_range (e ∷ next ∷ rest) = do
    other ← connect_range (next ∷ rest)
    let r = race (connect e) other
    some (record { at = r.at; result = select_result r.result })

  unfoldable pub connect_one : List E → Option (Finish E)
  unfolding connect_range
  connect_one results = connect_range results

  -- The peer at the endpoint takes the connection.
  abbrev pub accepts : E → Bool
  accepts e = elim (attempt e).result [ returns _ ↦ true | throws _ ↦ false ]

  abbrev pub NotBefore : ℕ → E → Type 0
  NotBefore at f = (accepts f ≡ false) ⊎ (at ≤ (attempt f).at)

  -- A connection to one of the endpoints, which no other endpoint would have given earlier; or no endpoint
  -- takes a connection.
  abbrev pub EarliestAt : List E → ℕ → Result (TcpTransportLayer E) → Type 0
  EarliestAt es at (returns s) =
      (e : E) × (i : ℕ) × (get_elem? es i ≡ some e)
      × (accepts e ≡ true)
      × (s ≡ connected_to e)
      × (at ≡ (attempt e).at)
      × All (NotBefore at) es
  EarliestAt es at (throws x) = All (λ f. accepts f ≡ false) es

  abbrev pub Earliest : List E → Finish E → Type 0
  Earliest es r = EarliestAt es r.at r.result

  NotBefore-rejected :
      (at : ℕ) (es : List E) → All (λ f. accepts f ≡ false) es → All (NotBefore at) es
  NotBefore-rejected at es h = All-map _ (NotBefore at) (λ f n. inl n) es h

  NotBefore-earlier :
      (at at' : ℕ) (es : List E) → at' ≤ at → All (NotBefore at) es → All (NotBefore at') es
  NotBefore-earlier at at' es le h = All-map _ (NotBefore at') (λ f n. ground arith) es h

  connect-Earliest : (e : E) → Earliest (e ∷ []) (connect e)
  unfolding connect
  connect-Earliest e = elim (Result-cases (attempt e).result) [
    | inl (u, taken) ↦
        rw taken (e, 0, refl, rw (taken, accepts) refl, refl, refl, (inr (omega arith), tt))
    | inr (x, refused) ↦ rw refused (rw (refused, accepts) refl, tt)
  ]

  left_wins :
      (e : E) (es : List E) (t : ℕ) (s : TcpTransportLayer E)
      → EarliestAt (e ∷ []) t (returns s)
      → All (NotBefore t) es
      → EarliestAt (e ∷ es) t (returns s)
  left_wins e es t s (e', i, there, taken, same, at, (nb, _)) later =
      (e', i, get_elem?-append (e ∷ []) es i e' there, taken, same, at, (nb, later))

  right_wins :
      (e : E) (es : List E) (u : ℕ) (s : TcpTransportLayer E)
      → NotBefore u e
      → EarliestAt es u (returns s)
      → EarliestAt (e ∷ es) u (returns s)
  right_wins e es u s nb (e', i, there, taken, same, at, rest) =
      (e', suc i, there, taken, same, at, (nb, rest))

  abbrev raced : ℕ → Result (TcpTransportLayer E) → ℕ → Result (TcpTransportLayer E) → Raced E
  raced t x u y = race (record { at = t; result = x }) (record { at = u; result = y })

  -- Of an attempt and the connections to other endpoints the first success is the result.
  race-EarliestAt :
      (e : E) (es : List E) (t u : ℕ) (x y : Result (TcpTransportLayer E))
      → EarliestAt (e ∷ []) t x
      → EarliestAt es u y
      → EarliestAt (e ∷ es) (raced t x u y).at (select_result (raced t x u y).result)
  unfolding race selected
  race-EarliestAt e es t u (returns s) (returns s') h k = elim (Bool-cases (leb t u)) [
    | inl le ↦ rw le (left_wins e es t s h (NotBefore-earlier u t es (ground arith) k.6))
    | inr gt ↦ rw gt (right_wins e es u s' (ground (arith, h.6.0)) k)
  ]
  race-EarliestAt e es t u (returns s) (throws y) h k =
      let won = left_wins e es t s h (NotBefore-rejected t es k) in
      elim (Bool-cases (leb t u)) [ inl le ↦ rw le won | inr gt ↦ rw gt won ]
  race-EarliestAt e es t u (throws x) (returns s') h k =
      let won = right_wins e es u s' (inl h.0) k in
      elim (Bool-cases (leb t u)) [ inl le ↦ rw le won | inr gt ↦ rw gt won ]
  race-EarliestAt e es t u (throws x) (throws y) h k = elim (Bool-cases (leb t u)) [
    | inl le ↦ rw le (h.0, k)
    | inr gt ↦ rw gt (h.0, k)
  ]

  -- The race over endpoints of which there is one at least has a result: the connection to an endpoint that
  -- accepts, where no endpoint that accepts would have given one earlier; or an exception, where no
  -- endpoint accepts.
  pub connect_one-Earliest :
      (e : E) (es : List E) → (r : Finish E) × (connect_one (e ∷ es) ≡ some r) × Earliest (e ∷ es) r
  unfolding connect_one connect_range
  connect_one-Earliest e [] = (connect e, refl, connect-Earliest e)
  connect_one-Earliest e (next ∷ rest) =
      let (other, found, best) = connect_one-Earliest next rest in
      let r = race (connect e) other in
      (
        record { at = r.at; result = select_result r.result },
        rw found refl,
        race-EarliestAt e (next ∷ rest) (connect e).at other.at (connect e).result other.result
            (connect-Earliest e) best,
      )
