-- ===== src/Tests/Servers.antt =====
-- Servers at concrete inputs.
use ext_async.Prelude.{
  ℕ, ◌+◌, ◌≡◌, refl, true, false, List, [], ◌∷◌, ◌++◌, ◌||◌, is_nil, is_some, not,
}
use ext_async.Php.{user}
use ext_async.Server
use ext_async.Server.{
  Waiting, threw, nothing_held, object_create, Call, calls_accept, cancels, accept,
}
use ext_async.Server.Accepting.{IsAccepting, served, taken, spurious, run-serves}
use ext_async.Server.Failing.{fails-spoils}

abbrev server : Server.Server
server = object_create false

abbrev once : ℕ → Waiting
once op = record { op = op; background = false }

-- The task that got a connection accepts again.
abbrev accept_again : ℕ → List Call
accept_again op = calls_accept (once (op + 10)) 0 ∷ []

-- The first connection comes before anybody accepts; one of the tasks that wait is cancelled.
abbrev arrivals : List Server.Event
arrivals =
    Server.connects 100 accept_again
    ∷ Server.runs (calls_accept (once 1) 0 ∷ calls_accept (once 2) 0 ∷ calls_accept (once 3) 0 ∷ [])
    ∷ Server.runs (cancels 2 false (user 7) ∷ [])
    ∷ Server.connects 101 accept_again
    ∷ Server.connects 102 accept_again
    ∷ Server.connects 103 (λ op. [])
    ∷ []

server-IsAccepting : IsAccepting server
unfolding object_create
server-IsAccepting = record {
  counted = λ o. refl;
  prompt = λ o. refl;
  sound = λ o. refl;
  failed = refl;
}

still_open : (Server.run server arrivals).closing ≡ false
unfolding Server.run Server.step accept Server.accept_now Server.cancel Server.server_connected
    object_create
still_open = refl

served_all : served (Server.run server arrivals) ≡ 100 ∷ 101 ∷ 102 ∷ 103 ∷ []
unfolding Server.run Server.step accept Server.accept_now Server.cancel Server.server_connected
    object_create
served_all = refl

run-serves_example :
    (served (Server.run server arrivals) ≡ served server ++ taken server arrivals)
    × (spurious (Server.run server arrivals).log ≡ false)
    × ((is_nil (Server.run server arrivals).accepts
          || not (is_some (Server.run server arrivals).held))
        ≡ true)
run-serves_example = run-serves server arrivals server-IsAccepting tt still_open

abbrev lazy_now : Server.Server
lazy_now = record server { lazy = false }

fails-spoils_example :
    let s' = accept (Server.step lazy_now (Server.fails 3 accept_again)) (once 1) 0 in
    (s'.log ≡ threw 1 nothing_held ∷ []) × (s'.accepts ≡ [])
unfolding object_create
fails-spoils_example = fails-spoils lazy_now (once 1) 3 accept_again refl refl refl
