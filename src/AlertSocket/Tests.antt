-- ===== src/AlertSocket/Tests.antt =====
-- Runs of networking/lib/alertsock.c's functions, and instances of what is shown of them.
use tor_onion.Common.{◌==◌, ◌≡◌, refl, true, false, none, some, List, [], ◌∷◌, arith, All, length}
use tor_onion.AlertSocket.{
  Build, Flags, System, AlertSockets, created, gave_up, pipe_functions, alert_sockets_create,
  try_eventfd, try_pipe2, try_pipe, plain_pipe,
}
use tor_onion.AlertSocket.Descriptors.{
  Table, is_open, add_descriptor, close, remove, set_nonblocking, set_close_on_exec,
}
use tor_onion.AlertSocket.Release.{AnswersClosed, released, create-released}
use tor_onion.AlertSocket.Ready.{is_ready, create-ready}
use tor_onion.AlertSocket.Channel.{Channel, Status, success}
use tor_onion.AlertSocket.Channel.Wakeup.{Call, alerts, drains, run, flag, run-flag, is_readable}

abbrev linux : Build
linux = record { have_eventfd = true; have_efd_flags = true; have_pipe2 = true; have_pipe = true }

abbrev only_pipes : Flags
only_pipes = record {
  no_eventfd2 = true;
  no_eventfd = true;
  no_pipe2 = true;
  no_pipe = false;
  no_socketpair = true;
}

abbrev stdio : Table
stdio = record {
  descriptors = record { number = 0; close_on_exec = false; nonblocking = false } ∷ [];
  bad_closes = 0;
}

-- A system on which the last call for the write end of a pipe fails.
abbrev failing_late : System
failing_late = record {
  eventfd2 = some 3;
  eventfd = some 3;
  pipe2 = some (3, 4);
  pipe = some (3, 4);
  socketpair = none;
  pair_close_on_exec = true;
  close_on_exec = λ fd. true;
  nonblocking = λ fd. fd == 3;
}

stdio_closed : AnswersClosed failing_late stdio
unfolding is_open
stdio_closed = record {
  eventfd2_closed = refl;
  eventfd_closed = refl;
  pipe2_closed = (refl, refl, omega arith);
  pipe_closed = (refl, refl, omega arith);
  socketpair_closed = tt;
}

create-released_example :
    released (alert_sockets_create linux only_pipes failing_late stdio) ≡ stdio
create-released_example = create-released linux only_pipes failing_late stdio stdio_closed

abbrev one_byte : Channel
one_byte = record { pending = 1; most = 1; interrupts = true ∷ false ∷ true ∷ []; broken = none }

run-flag_example :
    (c' : Channel) × (statuses : List Status) × (run pipe_functions
        (alerts ∷ alerts ∷ drains ∷ alerts ∷ [])
        one_byte
      ≡ some (c', statuses))
    × All (λ s. s ≡ success) statuses
    × (length statuses ≡ length {A = Call} (alerts ∷ alerts ∷ drains ∷ alerts ∷ []))
    × (is_readable c' ≡ flag (alerts ∷ alerts ∷ drains ∷ alerts ∷ []) (is_readable one_byte))
run-flag_example =
    run-flag pipe_functions (alerts ∷ alerts ∷ drains ∷ alerts ∷ []) one_byte
      (record { unbroken = refl; roomy = omega arith })

-- The same system with every call for the ends of a pipe succeeding.
abbrev working : System
working = record failing_late { nonblocking = λ fd. true }

working_closed : AnswersClosed working stdio
unfolding is_open
working_closed = record {
  eventfd2_closed = refl;
  eventfd_closed = refl;
  pipe2_closed = (refl, refl, omega arith);
  pipe_closed = (refl, refl, omega arith);
  socketpair_closed = tt;
}

-- The pipe of 3 and 4 is created.
creates_pipe :
    (s : AlertSockets) × (t : Table) × (alert_sockets_create linux only_pipes working stdio
      ≡ created s t)
    × (s.read_fd ≡ some 3)
    × (s.write_fd ≡ some 4)
unfolding alert_sockets_create try_eventfd try_pipe2 try_pipe plain_pipe add_descriptor close remove
    is_open set_nonblocking set_close_on_exec
creates_pipe = (_, _, refl, refl, refl)

create-ready_example : is_ready (alert_sockets_create linux only_pipes working stdio) ≡ true
create-ready_example = create-ready linux only_pipes working stdio working_closed

-- The pipe is given up, and both of its ends are closed.
late_failure : alert_sockets_create linux only_pipes failing_late stdio ≡ gave_up stdio
unfolding alert_sockets_create try_eventfd try_pipe2 try_pipe plain_pipe add_descriptor close remove
    is_open set_nonblocking set_close_on_exec
late_failure = refl
