-- ===== src/Ftx/OrderBook/Unsubscription.antt =====
-- The wait for the confirmation of an unsubscription: src/vendor/ftx/order_book_impl.cpp.
use boost_connector.Base.{
  Text, codes, text_eq, Bool, true, false, not, ◌||◌, Option, none, some, ◌≡◌, refl, List, [], ◌∷◌,
  ◌++◌, All, arith,
}
use boost_connector.Ftx.OrderBook.{Wake, went_down, popped, frame_type, wait_for_unsub_confirmation}

-- A frame of another type.
abbrev pub is_other : Option Text → Bool
is_other none = false
is_other (some type) = not (text_eq type (codes "unsubscribed"))

-- The loss of the connection, the confirmation, and a frame without a type end the wait.
abbrev pub ends : Wake → Bool
ends went_down = true
ends (popped v) = not (is_other (frame_type v))

-- The wait returns at the first event that is the loss of the connection, a confirmation or a frame without
-- a type, and takes nothing after it, whatever other frames come before.
pub wait_for_unsub_confirmation-ends :
    (before after : List Wake) (w : Wake)
    → All (λ v. ends v ≡ false) before
    → ends w ≡ true
    → wait_for_unsub_confirmation (before ++ w ∷ after) ≡ (true, after)
unfolding wait_for_unsub_confirmation
wait_for_unsub_confirmation-ends [] after went_down h e = refl
wait_for_unsub_confirmation-ends [] after (popped v) h e = ground arith
wait_for_unsub_confirmation-ends (went_down ∷ before) after w h e = cc
wait_for_unsub_confirmation-ends (popped v ∷ before) after w h e =
    ground (arith, wait_for_unsub_confirmation-ends before after w h.1 e)

-- It does not return while there is no such event, and takes every frame.
pub wait_for_unsub_confirmation-waits :
    (ws : List Wake) → All (λ v. ends v ≡ false) ws → wait_for_unsub_confirmation ws ≡ (false, [])
unfolding wait_for_unsub_confirmation
wait_for_unsub_confirmation-waits [] h = refl
wait_for_unsub_confirmation-waits (went_down ∷ ws) h = cc
wait_for_unsub_confirmation-waits (popped v ∷ ws) h =
    ground (arith, wait_for_unsub_confirmation-waits ws h.1)

abbrev pub any_ends : List Wake → Bool
any_ends [] = false
any_ends (w ∷ ws) = ends w || any_ends ws

-- The wait returns exactly if one of the events is the loss of the connection, a confirmation or a frame
-- without a type: none of them is missed, and an exception leaves no one waiting.
pub wait_for_unsub_confirmation-any_ends :
    (ws : List Wake) → (wait_for_unsub_confirmation ws).0 ≡ any_ends ws
unfolding wait_for_unsub_confirmation
wait_for_unsub_confirmation-any_ends [] = refl
wait_for_unsub_confirmation-any_ends (went_down ∷ ws) = refl
wait_for_unsub_confirmation-any_ends (popped v ∷ ws) =
    ground (arith, wait_for_unsub_confirmation-any_ends ws)
