-- ===== src/AlertSocket.antt =====
-- networking/lib/alertsock.c: a pair of descriptors by which one thread wakes another. This file has
-- alert_sockets_create and alert_sockets_close over the process's table of descriptors; the answers
-- of the system's calls are the argument `System`. AlertSocket/Channel has what is sent through the
-- pair. A descriptor that is -1 is `none`.
pub mod Channel
pub mod Descriptors
pub mod Ready
pub mod Release
mod Tests
use tor_onion.Common.{ℕ, Bool, true, false, not, ◌&&◌, Option, none, some, ◌==◌, if◌then◌else◌}
use Descriptors.{Table, add_descriptor, close, set_close_on_exec, set_nonblocking}

-- The functions that alert_fn and drain_fn point to, by the kind of their descriptors.
pub data Mechanism : Type 0 where
  eventfd_functions pipe_functions sock_functions : Mechanism

pub record AlertSockets : Type 0 where
  pub read_fd : Option ℕ
  pub write_fd : Option ℕ
  pub alert_fn : Mechanism
  pub drain_fn : Mechanism

-- HAVE_EVENTFD, EFD_CLOEXEC with EFD_NONBLOCK, HAVE_PIPE2 and HAVE_PIPE.
pub record Build : Type 0 where
  pub have_eventfd : Bool
  pub have_efd_flags : Bool
  pub have_pipe2 : Bool
  pub have_pipe : Bool

pub record Flags : Type 0 where
  pub no_eventfd2 : Bool
  pub no_eventfd : Bool
  pub no_pipe2 : Bool
  pub no_pipe : Bool
  pub no_socketpair : Bool

-- What each call answers, if it is made: the descriptors, or `none` for an error; and whether
-- fcntl and set_socket_nonblocking succeed on a descriptor. Whether tor_socketpair returns
-- descriptors that are closed on exec is its own affair.
pub record System : Type 0 where
  pub eventfd2 : Option ℕ
  pub eventfd : Option ℕ
  pub pipe2 : Option (ℕ × ℕ)
  pub pipe : Option (ℕ × ℕ)
  pub socketpair : Option (ℕ × ℕ)
  pub pair_close_on_exec : Bool
  pub close_on_exec : ℕ → Bool
  pub nonblocking : ℕ → Bool

-- How a block of the function ends: by a return of 0, by a return of -1, or past its end.
pub data Attempt : Type 0 where
  created : AlertSockets → Table → Attempt
  gave_up : Table → Attempt
  passed : Table → Attempt

pub sockets : Mechanism → ℕ → ℕ → AlertSockets
sockets k r w = record { read_fd = some r; write_fd = some w; alert_fn = k; drain_fn = k }

pub plain_eventfd : System → ℕ → Table → Attempt
unfolding sockets
plain_eventfd sys fd t =
    if not (sys.close_on_exec fd)
    then gave_up (close fd t)
    else if not (sys.nonblocking fd)
    then gave_up (close fd (set_close_on_exec fd t))
    else created (sockets eventfd_functions fd fd) (set_nonblocking fd (set_close_on_exec fd t))

pub second_eventfd : Flags → System → Table → Attempt
unfolding plain_eventfd
second_eventfd f sys t = if f.no_eventfd then passed t else elim sys.eventfd [
  | none ↦ passed t
  | some fd ↦ plain_eventfd sys fd (add_descriptor fd false false t)
]

abbrev pub first_eventfd : Build → Flags → System → Option ℕ
first_eventfd b f sys = if b.have_efd_flags && not f.no_eventfd2 then sys.eventfd2 else none

pub try_eventfd : Build → Flags → System → Table → Attempt
unfolding second_eventfd sockets
try_eventfd b f sys t = if not b.have_eventfd then passed t else elim (first_eventfd b f sys) [
  | some fd ↦ created (sockets eventfd_functions fd fd) (add_descriptor fd true true t)
  | none ↦ second_eventfd f sys t
]

pub try_pipe2 : Build → Flags → System → Table → Attempt
unfolding sockets
try_pipe2 b f sys t = if not (b.have_pipe2 && not f.no_pipe2) then passed t else elim sys.pipe2 [
  | none ↦ passed t
  | some (r, w) ↦
      created (sockets pipe_functions r w)
        (add_descriptor r true true (add_descriptor w true true t))
]

pub plain_pipe : System → ℕ → ℕ → Table → Attempt
unfolding sockets
plain_pipe sys r w t =
    if not (sys.close_on_exec r)
    then gave_up (close w (close r t))
    else let t1 = set_close_on_exec r t in
      if not (sys.close_on_exec w)
      then gave_up (close w (close r t1))
      else let t2 = set_close_on_exec w t1 in
        if not (sys.nonblocking r)
        then gave_up (close w (close r t2))
        else let t3 = set_nonblocking r t2 in
          if not (sys.nonblocking w)
          then gave_up (close w (close r t3))
          else created (sockets pipe_functions r w) (set_nonblocking w t3)

pub try_pipe : Build → Flags → System → Table → Attempt
unfolding plain_pipe
try_pipe b f sys t = if not (b.have_pipe && not f.no_pipe) then passed t else elim sys.pipe [
  | none ↦ passed t
  | some (r, w) ↦ plain_pipe sys r w (add_descriptor r false false (add_descriptor w false false t))
]

pub plain_socketpair : System → ℕ → ℕ → Table → Attempt
unfolding sockets
plain_socketpair sys r w t =
    if not (sys.nonblocking r)
    then gave_up (close w (close r t))
    else let t1 = set_nonblocking r t in
      if not (sys.nonblocking w)
      then gave_up (close w (close r t1))
      else created (sockets sock_functions r w) (set_nonblocking w t1)

pub try_socketpair : Flags → System → Table → Attempt
unfolding plain_socketpair
try_socketpair f sys t = if f.no_socketpair then passed t else elim sys.socketpair [
  | none ↦ passed t
  | some (r, w) ↦
      let ce = sys.pair_close_on_exec in
      plain_socketpair sys r w (add_descriptor r ce false (add_descriptor w ce false t))
]

abbrev pub or_next : Attempt → (Table → Attempt) → Attempt
or_next (created s t) next = created s t
or_next (gave_up t) next = gave_up t
or_next (passed t) next = next t

pub alert_sockets_create : Build → Flags → System → Table → Attempt
unfolding try_eventfd try_pipe2 try_pipe try_socketpair
alert_sockets_create b f sys t = or_next (try_eventfd b f sys t) λ t1.
    or_next (try_pipe2 b f sys t1)
      λ t2. or_next (try_pipe b f sys t2) λ t3. or_next (try_socketpair f sys t3) gave_up

abbrev pub is_sock : Mechanism → Bool
is_sock sock_functions = true
is_sock _ = false

-- close(-1) fails and changes no table.
abbrev pub close_fd : Option ℕ → Table → Table
close_fd none t = t
close_fd (some fd) t = close fd t

abbrev pub same_fd : Option ℕ → Option ℕ → Bool
same_fd none none = true
same_fd (some a) (some b) = a == b
same_fd _ _ = false

pub alert_sockets_close : AlertSockets → Table → AlertSockets × Table
alert_sockets_close s t =
    let closed = record s { read_fd = none; write_fd = none } in
    if is_sock s.alert_fn
    then (closed, close_fd s.write_fd (close_fd s.read_fd t))
    else let t' = close_fd s.read_fd t in
      (closed, if not (same_fd s.write_fd s.read_fd) then close_fd s.write_fd t' else t')
