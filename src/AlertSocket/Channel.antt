-- ===== src/AlertSocket/Channel.antt =====
-- networking/lib/alertsock.c: the functions that write to and read from a descriptor that does not
-- block. A `Channel` is what the system holds for it: the bytes of a pipe or a socket, or the
-- counter of an eventfd, with the most that fits. `interrupts` says of each call to come whether a
-- signal interrupts it (EINTR); past the end of the list no call is interrupted. `broken` is the
-- error that every call gives, if there is one.
pub mod Wakeup
use tor_onion.Common.{
  ℕ, zero, suc, ◌-◌, Bool, true, false, Option, none, some, List, [], ◌∷◌, ltb, if◌then◌else◌, min,
  ◌==◌,
}

pub record Channel : Type 0 where
  pub pending : ℕ
  pub most : ℕ
  pub interrupts : List Bool
  pub broken : Option ℕ

-- EAGAIN, or another error.
pub data Errno : Type 0 where
  eagain : Errno
  errno : ℕ → Errno

-- The result of write_ni and its like: a count, or -errno.
pub data Reply : Type 0 where
  count : ℕ → Reply
  minus_errno : Errno → Reply

-- What the alert and drain functions return: 0, -1 or -errno.
pub data Status : Type 0 where
  success minus_one : Status
  negated : Errno → Status

-- write(2) of one unit: a byte, or 1 to be added to the counter.
pub write : Channel → Reply × Channel
write c = elim c.broken [
  | some e ↦ (minus_errno (errno e), c)
  | none ↦
      if ltb c.pending c.most
      then (count 1, record c { pending = suc c.pending })
      else (minus_errno eagain, c)
]

-- read(2) of at most `n` units.
pub read : ℕ → Channel → Reply × Channel
read n c = elim c.broken [
  | some e ↦ (minus_errno (errno e), c)
  | none ↦
      if c.pending == 0
      then (minus_errno eagain, c)
      else (count (min n c.pending), record c { pending = c.pending - n })
]

-- `again:` the call is repeated while it is interrupted.
pub repeat_interrupted : (Channel → Reply × Channel) → List Bool → Channel → Reply × Channel
repeat_interrupted call [] c = call (record c { interrupts = [] })
repeat_interrupted call (true ∷ rest) c = repeat_interrupted call rest c
repeat_interrupted call (false ∷ rest) c = call (record c { interrupts = rest })

pub write_ni : Channel → Reply × Channel
unfolding write repeat_interrupted
write_ni c = repeat_interrupted write c.interrupts c

pub read_ni : ℕ → Channel → Reply × Channel
unfolding read repeat_interrupted
read_ni n c = repeat_interrupted (read n) c.interrupts c

pub send_ni : Channel → Reply × Channel
unfolding write repeat_interrupted
send_ni c = repeat_interrupted write c.interrupts c

pub recv_ni : ℕ → Channel → Reply × Channel
unfolding read repeat_interrupted
recv_ni n c = repeat_interrupted (read n) c.interrupts c

-- An error that is not EAGAIN is reported, as `f` says.
pub unless_again : (Errno → Status) → Reply → Status
unless_again f (count n) = success
unless_again f (minus_errno eagain) = success
unless_again f (minus_errno (errno e)) = f (errno e)

pub eventfd_alert : Channel → Status × Channel
unfolding write_ni unless_again
eventfd_alert c = let (r, c') = write_ni c in (unless_again (λ e. minus_one) r, c')

-- A read of an eventfd takes the whole counter.
pub eventfd_drain : Channel → Status × Channel
unfolding read_ni unless_again
eventfd_drain c = let (r, c') = read_ni c.pending c in (unless_again negated r, c')

pub pipe_alert : Channel → Status × Channel
unfolding write_ni unless_again
pipe_alert c = let (r, c') = write_ni c in (unless_again negated r, c')

pub sock_alert : Channel → Status × Channel
unfolding send_ni unless_again
sock_alert c = let (r, c') = send_ni c in (unless_again negated r, c')

abbrev is_positive : Reply → Bool
is_positive (count zero) = false
is_positive (count (suc n)) = true
is_positive (minus_errno e) = false

-- `do r = read(fd, buf, 32); while (r > 0)`, on fuel; `none` is that the fuel has run out.
pub drain_loop : (ℕ → Channel → Reply × Channel) → ℕ → Channel → Option (Reply × Channel)
drain_loop call zero c = none
drain_loop call (suc fuel) c =
    let (r, c') = call 32 c in
    let rest = drain_loop call fuel c' in if is_positive r then rest else some (r, c')

abbrev end_drain : Option (Reply × Channel) → Option (Status × Channel)
unfolding unless_again
end_drain none = none
end_drain (some (r, c)) = some (unless_again negated r, c)

pub pipe_drain : Channel → Option (Status × Channel)
unfolding drain_loop read_ni unless_again
pipe_drain c = end_drain (drain_loop read_ni (suc c.pending) c)

pub sock_drain : Channel → Option (Status × Channel)
unfolding drain_loop recv_ni unless_again
sock_drain c = end_drain (drain_loop recv_ni (suc c.pending) c)
