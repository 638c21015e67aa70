-- ===== src/Ftx/OrderBook/Handles.antt =====
-- The handles of an order book and its subscription: src/order_book.cpp over
-- include/boost/connector/entity/lifetime_ptr.hpp and src/vendor/ftx/upstream_subscription_impl.cpp. The
-- deleter of the last handle calls `stop` of the subscription.
use boost_connector.Base.{
  ℕ, Bool, true, false, none, some, ◌≡◌, refl, sym, ap, ◌∙◌, List, [], ◌∷◌, ◌==◌, ltb,
  if◌then◌else◌, get_elem?, get_elem?-set_self, arith, inl, inr, ◌⊎◌,
}
use boost_connector.Async.Latch
use boost_connector.Async.Latch.{is_set}
use boost_connector.Entity.Lifetime.{
  Lifetime, Implementation, Use, copies, resets, copy, reset, make_lifetime_ptr,
}
use boost_connector.Ftx.Connector.{Connector, Subscription}
use boost_connector.Ftx.Subscription.{stop, stop_found}

-- The handles that share one subscription, which has a place in the connector.
pub record OrderBooks : Type 0 where
  pub lifetime : Lifetime
  pub index : ℕ
  pub connector : Connector

-- Whether the deleter has stopped the object.
abbrev has_stopped : Lifetime → Lifetime → Bool
has_stopped l l' = ltb l.implementation.stopped l'.implementation.stopped

abbrev stopped_by : Lifetime → OrderBooks → OrderBooks
stopped_by l b = record b {
  lifetime = l;
  connector = if has_stopped b.lifetime l then stop b.index b.connector else b.connector;
}

-- `order_book::reset`, or the destruction of a handle.
unfoldable pub reset_book : OrderBooks → OrderBooks
unfolding reset stop
reset_book b = stopped_by (reset b.lifetime) b

unfoldable pub copy_book : OrderBooks → OrderBooks
unfolding copy stop
copy_book b = stopped_by (copy b.lifetime) b

unfoldable pub run_books : List Use → OrderBooks → OrderBooks
unfolding reset_book copy_book
run_books [] b = b
run_books (copies ∷ us) b = run_books us (copy_book b)
run_books (resets ∷ us) b = run_books us (reset_book b)

-- The subscription is told to stop exactly if no handle is left.
pub record StopsWithLast (b : OrderBooks) : Type 0 where
  pub subscription : Subscription
  pub there : get_elem? b.connector.subscriptions b.index ≡ some subscription
  pub told : is_set subscription.stop_latch ≡ (b.lifetime.handles == 0)
  pub alive : b.lifetime.proxy ≡ (if b.lifetime.handles == 0 then none else some true)

stop-At :
    (i : ℕ) (w : Connector) (s : Subscription)
    → get_elem? w.subscriptions i ≡ some s
    → get_elem? (stop i w).subscriptions i ≡ some (record s { stop_latch = Latch.set s.stop_latch })
unfolding stop stop_found
stop-At i w s h = rw h (get_elem?-set_self w.subscriptions i _ s h)

-- The flag of a lifetime whose object has started.
abbrev Alive : Lifetime → Type 0
Alive l = l.proxy ≡ (if l.handles == 0 then none else some true)

-- A step that does not take the last handle, if there is one.
abbrev Keeps : Lifetime → Lifetime → Type 0
Keeps l l' = (has_stopped l l' ≡ false) × ((l'.handles == 0) ≡ (l.handles == 0)) × Alive l'

reset-cases :
    (l : Lifetime)
    → Alive l
    → ((has_stopped l (reset l) ≡ true) × ((reset l).handles ≡ 0) × Alive (reset l))
      ⊎ Keeps l (reset l)
unfolding reset
reset-cases l h = ground arith

copy-Keeps : (l : Lifetime) → Alive l → Keeps l (copy l)
unfolding copy
copy-Keeps l h = ground arith

Keeps-StopsWithLast :
    (l : Lifetime) (b : OrderBooks)
    → Keeps b.lifetime l
    → StopsWithLast b
    → StopsWithLast (stopped_by l b)
Keeps-StopsWithLast l b (still, same, alive) v = rw still (record {
  subscription = v.subscription;
  there = v.there;
  told = v.told ∙ sym same;
  alive = alive;
})

reset_book-StopsWithLast : (b : OrderBooks) → StopsWithLast b → StopsWithLast (reset_book b)
unfolding reset_book is_set Latch.set
reset_book-StopsWithLast b v = elim (reset-cases b.lifetime v.alive) [
  | inr keeps ↦ Keeps-StopsWithLast (reset b.lifetime) b keeps v
  | inl (stopped, gone, alive) ↦ rw stopped (record {
    subscription = record (v.subscription) { stop_latch = Latch.set v.subscription.stop_latch };
    there = stop-At b.index b.connector v.subscription v.there;
    told = ap (λ n. n == 0) (sym gone);
    alive = alive;
  })
]

run_books-StopsWithLast :
    (us : List Use) (b : OrderBooks) → StopsWithLast b → StopsWithLast (run_books us b)
unfolding run_books copy_book
run_books-StopsWithLast [] b v = v
run_books-StopsWithLast (copies ∷ us) b v =
    run_books-StopsWithLast us (copy_book b)
      (Keeps-StopsWithLast (copy b.lifetime) b (copy-Keeps b.lifetime v.alive) v)
run_books-StopsWithLast (resets ∷ us) b v =
    run_books-StopsWithLast us (reset_book b) (reset_book-StopsWithLast b v)

-- From a new order book whose subscription has not been told to stop, after any copies and resets of its
-- handles, the subscription has been told to stop exactly if no handle is left.
pub run_books-make_lifetime_ptr :
    (us : List Use) (impl : Implementation) (i : ℕ) (w : Connector) (s : Subscription)
    → get_elem? w.subscriptions i ≡ some s
    → is_set s.stop_latch ≡ false
    → StopsWithLast (
        run_books us (record { lifetime = make_lifetime_ptr false impl; index = i; connector = w }))
unfolding make_lifetime_ptr
run_books-make_lifetime_ptr us impl i w s there unset =
    run_books-StopsWithLast us _
      (record { subscription = s; there = there; told = unset; alive = refl })
