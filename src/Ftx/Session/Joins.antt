-- ===== src/Ftx/Session/Joins.antt =====
-- The join of the three coroutines of a connection: `reconnect` of
-- src/vendor/ftx/ftx_websocket_connector_concept.cpp.
use boost_connector.Base.{◌≡◌, ◌≢◌, arith}
use boost_connector.Ftx.Session.{
  Tasks, returned, succeeded, join, Ends, read_returns, read_throws, write_throws,
  ping_pong_returns, all_running,
}

pub data Later (t : Tasks) : Tasks → Type 0 where
  here : Later t t
  next : {u v : Tasks} → Later t u → Ends u v → Later t v

Ends-write : {t u : Tasks} → Ends t u → t.write ≢ returned → u.write ≢ returned
Ends-write (read_returns t _) h = h
Ends-write (read_throws t _) h = h
Ends-write (write_throws t _) h = λ e. cc
Ends-write (ping_pong_returns t _) h = h

Later-write : {t u : Tasks} → Later t u → t.write ≢ returned → u.write ≢ returned
Later-write here h = h
Later-write (next l e) h = Ends-write e (Later-write l h)

pub join-write : (t : Tasks) → join t ≡ succeeded → t.write ≡ returned
unfolding join
join-write t h = ground arith

-- However the three coroutines of a connection end, their join does not return: it is pending, or it
-- has failed.
pub never_succeeds : {t : Tasks} → Later all_running t → join t ≢ succeeded
never_succeeds {t} l h = Later-write l (λ e. cc) (join-write t h)
