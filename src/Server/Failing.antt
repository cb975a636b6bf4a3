-- ===== src/Server/Failing.antt =====
-- A failed connection on a server where nobody accepts.
use ext_async.Prelude.{ℕ, ◌≡◌, true, List, [], ◌∷◌, ◌++◌, arith}
use ext_async.Server.{
  Server, Waiting, threw, nothing_held, accept, accept_now, can_take, server_connected,
  connected_to, Call, step, fails,
}

-- Where nobody waits and no connection is pending, and libuv reports one that failed: the next `accept`
-- does not wait for a connection, but throws.
pub fails-spoils :
    (s : Server) (w : Waiting) (code : ℕ) (again : ℕ → List Call)
    → can_take s ≡ true
    → s.accepts ≡ []
    → s.pending ≡ 0
    → let s' = accept (step s (fails code again)) w 0 in
      (s'.log ≡ s.log ++ threw w.op nothing_held ∷ []) × (s'.accepts ≡ [])
unfolding step accept accept_now server_connected connected_to
fails-spoils s w code again t a p = (ground (arith, t, a, p), ground (arith, t, a, p))
