-- ===== src/Tests/Server.antt =====
-- Runs of the accept loop and of a shutdown.
use getty.Common.{ℕ, zero, suc, ◌≡◌, ◌≤◌, refl, true, false, [], ◌∷◌}
use getty.Server.{
  Accepted, failed, refused, taken, next_delay, accept, back_off, run_tcp_event_loop, init_acceptor,
}
use getty.Server.Accept.{Kept, run_tcp_event_loop-Kept, never}
use getty.Server.Shutdown.{
  State, stopped, listening, init_state, listen, publish_test, publish, register_test, stop_begin,
  stop_body, listens, tests_publish, publishes, tests_register, begins_stop, stops, Reach, here,
  next,
}
use getty.Server.Shutdown.Close.{stopped_lem}

abbrev calls : ℕ → Accepted
calls zero = taken 4
calls (suc zero) = refused 3
calls (suc (suc n)) = failed

-- A failure, a refused connection behind 5 ms, and one that is taken behind 10 ms.
three_rounds :
    (run_tcp_event_loop never never calls 3 init_acceptor).waits ≡ 5000000 ∷ 10000000 ∷ []
unfolding run_tcp_event_loop accept back_off next_delay
three_rounds = refl

run_tcp_event_loop-Kept_example : Kept (run_tcp_event_loop never never calls 3 init_acceptor)
run_tcp_event_loop-Kept_example = run_tcp_event_loop-Kept never never calls 3

-- `stop` begins between the test and the publication of the listener.
abbrev raced : State
raced = stop_body (publish (stop_begin (publish_test (listen init_state))))

raced_reached : Reach init_state raced
unfolding listen publish_test publish stop_begin stop_body
raced_reached =
    next
      (next
        (next
          (next (next here (listens init_state refl)) (tests_publish (listen init_state) refl refl))
          (begins_stop (publish_test (listen init_state))))
        (publishes (stop_begin (publish_test (listen init_state))) refl))
      (stops (publish (stop_begin (publish_test (listen init_state)))) refl refl)

stopped_lem_example :
    ((register_test raced).stop ≡ stopped)
    × ((register_test raced).wg ≤ raced.wg)
    × (raced.is_open ≡ true → raced.phase ≡ listening)
    × ((publish_test raced).is_open ≡ false)
unfolding stop_body publish stop_begin publish_test listen
stopped_lem_example = stopped_lem raced_reached refl (tests_register raced refl refl)
