-- ===== src/Ftx/Event.antt =====
-- include/boost/connector/vendor/ftx/channel_event.hpp and channel_market_pair.hpp.
use boost_connector.Base.{
  ℕ, Text, codes, text_eq, text_eq_sound, text_eq_refl, Bool, true, false, Option, none, some,
  ◌>>=◌, ◌≡◌, ◌&&◌, arith,
}
use boost_connector.Json.{Value, if_object, if_string, if_contains}

-- A topic: `channel_market_pair`, compared member by member.
pub record ChannelMarketPair : Type 0 where
  pub channel : Text
  pub market : Text

unfoldable pub pair_eq : ChannelMarketPair → ChannelMarketPair → Bool
pair_eq a b = text_eq a.channel b.channel && text_eq a.market b.market

pub pair_eq_sound : (a b : ChannelMarketPair) → pair_eq a b ≡ true → a ≡ b
unfolding pair_eq
pair_eq_sound a b h =
    ground (arith, text_eq_sound a.channel b.channel, text_eq_sound a.market b.market)

pub pair_eq_refl : (a : ChannelMarketPair) → pair_eq a a ≡ true
unfolding pair_eq
pair_eq_refl a = ground (arith, text_eq_refl a.channel, text_eq_refl a.market)

pub pair_eq_ne : (a b : ChannelMarketPair) → pair_eq a b ≡ false → pair_eq b a ≡ false
pair_eq_ne a b h = ground (arith, pair_eq_sound b a, pair_eq_refl a)

-- The alternatives of the variant; an error code is a number.
pub data ChannelEvent : Type 0 where
  connection_down connection_up : ChannelEvent
  response : Value → ChannelEvent
  error_code : ℕ → ChannelEvent

unfoldable pub is_down : ChannelEvent → Bool
is_down connection_down = true
is_down _ = false

unfoldable pub is_error : ChannelEvent → Bool
is_error (error_code ec) = true
is_error _ = false

unfoldable pub is_up : ChannelEvent → Bool
is_up connection_up = true
is_up _ = false

unfoldable pub is_response : ChannelEvent → Bool
is_response (response v) = true
is_response _ = false

-- `none` where `get` throws `bad_variant_access`.
unfoldable pub get_response : ChannelEvent → Option Value
get_response (response v) = some v
get_response _ = none

unfoldable pub get_error : ChannelEvent → Option ℕ
get_error (error_code ec) = some ec
get_error _ = none

abbrev or_false : Option Bool → Bool
or_false none = false
or_false (some b) = b

-- The ladder of null checks: each `none` leaves the result false.
unfoldable pub is_subscribed : ChannelEvent → Bool
unfolding get_response if_object if_contains if_string text_eq
is_subscribed e = or_false do
  pval ← get_response e
  pobject ← if_object pval
  ptype ← if_contains (codes "type") pobject
  pstr ← if_string ptype
  some (text_eq pstr (codes "subscribed"))
