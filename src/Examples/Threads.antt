-- ===== src/Examples/Threads.antt =====
-- The theorems on the two threads of lib/net_handler.cpp at a concrete order of their steps.
use tcpserver_cpp_libuv_samp.Base.{true, ◌≢◌, List, [], ◌∷◌}
use tcpserver_cpp_libuv_samp.Base.Int.{pos}
use tcpserver_cpp_libuv_samp.Loop.{LoopUv, sleeping, Turn, main_turn, bg_turn, turns}
use tcpserver_cpp_libuv_samp.Loop.Calls.{stopped, IsOrderly}
use tcpserver_cpp_libuv_samp.Loop.Threads.{Blocks}
use tcpserver_cpp_libuv_samp.Loop.Turns.{new_system, turns-IsOrderly}

-- `uv_run` returns exactly behind `uv_stop`.
abbrev stoppable_uv : LoopUv
stoppable_uv = record { result = λ t c. pos 0; returns = λ t l. stopped l t; ebusy = pos 16 }

stoppable_uv-Blocks : Blocks stoppable_uv
stoppable_uv-Blocks = record { waits = λ t l active unstopped. unstopped }

-- The loop is started, runs in the background thread, and is stopped.
abbrev to_the_wait : List Turn
to_the_wait =
    main_turn ∷ main_turn ∷ main_turn ∷ main_turn ∷ bg_turn ∷ bg_turn ∷ bg_turn ∷ main_turn
    ∷ main_turn ∷ main_turn ∷ main_turn ∷ main_turn ∷ []

turns-IsOrderly_example :
    IsOrderly (turns stoppable_uv to_the_wait (new_system true)).shared.trace
    × ((turns stoppable_uv to_the_wait (new_system true)).bg ≢ sleeping)
turns-IsOrderly_example = turns-IsOrderly stoppable_uv true to_the_wait stoppable_uv-Blocks
