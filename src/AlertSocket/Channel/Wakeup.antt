-- ===== src/AlertSocket/Channel/Wakeup.antt =====
-- networking/lib/alertsock.c: sequences of alerts and drains on one channel, beside the flag that
-- they stand for.
use tor_onion.Common.{
  ℕ, zero, suc, ◌-◌, ◌<◌, ◌≡◌, refl, ap, ◌∙◌, Bool, true, false, not, Option, none, some, List, [],
  ◌∷◌, ◌==◌, arith, All, length, Bool-cases, inl, inr, ◌⊎◌, ◌>>=◌, min,
}
use tor_onion.AlertSocket.{Mechanism, eventfd_functions, pipe_functions, sock_functions}
use tor_onion.AlertSocket.Channel.{
  Channel, Reply, Status, Errno, eagain, count, minus_errno, success, minus_one, negated, write,
  read, repeat_interrupted, write_ni, read_ni, send_ni, recv_ni, unless_again, eventfd_alert,
  eventfd_drain, pipe_alert, sock_alert, drain_loop, pipe_drain, sock_drain,
}

-- The call of alert_fn, and of drain_fn.
unfoldable pub call_alert_fn : Mechanism → Channel → Status × Channel
call_alert_fn eventfd_functions c = eventfd_alert c
call_alert_fn pipe_functions c = pipe_alert c
call_alert_fn sock_functions c = sock_alert c

unfoldable pub call_drain_fn : Mechanism → Channel → Option (Status × Channel)
call_drain_fn eventfd_functions c = some (eventfd_drain c)
call_drain_fn pipe_functions c = pipe_drain c
call_drain_fn sock_functions c = sock_drain c

pub data Call : Type 0 where
  alerts drains : Call

-- The channel after some calls, with what each has returned.
unfoldable pub run : Mechanism → List Call → Channel → Option (Channel × List Status)
run k [] c = some (c, [])
run k (alerts ∷ calls) c =
    let (s, c1) = call_alert_fn k c in run k calls c1 >>= λ (c', statuses). some (c', s ∷ statuses)
run k (drains ∷ calls) c =
    call_drain_fn k c >>= λ (s, c1). run k calls c1 >>= λ (c', statuses). some (c', s ∷ statuses)

-- What the pair promises: a flag that an alert sets and a drain clears.
unfoldable pub flag : List Call → Bool → Bool
flag [] b = b
flag (alerts ∷ calls) b = flag calls true
flag (drains ∷ calls) b = flag calls false

-- Whether a poll of the read end would return.
abbrev pub is_readable : Channel → Bool
is_readable c = not (c.pending == 0)

-- A channel that works, and holds something at least.
pub record Works (c : Channel) : Type 0 where
  pub unbroken : c.broken ≡ none
  pub roomy : 0 < c.most

-- What a call returns, and whether the channel is readable after it.
record After (x : Status × Channel) (b : Bool) : Type 0 where
  succeeded : x.0 ≡ success
  works : Works x.1
  readable : is_readable x.1 ≡ b

retry_lem :
    (call : Channel → Reply × Channel) (rest : List Bool) (c : Channel)
    → (later : List Bool) × (repeat_interrupted call rest c
        ≡ call (record c { interrupts = later }))
unfolding repeat_interrupted
retry_lem call [] c = ([], refl)
retry_lem call (true ∷ rest) c = retry_lem call rest c
retry_lem call (false ∷ rest) c = (rest, refl)

-- A write that is repeated while it is interrupted.
write_ni_lem :
    (f : Errno → Status) (c : Channel)
    → Works c
    → After (unless_again f (write_ni c).0, (write_ni c).1) true
unfolding write_ni write unless_again
write_ni_lem f c w = let (later, e) = retry_lem write c.interrupts c in rw e (ground arith)

alert_lem : (k : Mechanism) (c : Channel) → Works c → After (call_alert_fn k c) true
unfolding call_alert_fn eventfd_alert pipe_alert sock_alert
alert_lem eventfd_functions c w = write_ni_lem (λ e. minus_one) c w
alert_lem pipe_functions c w = write_ni_lem negated c w
alert_lem sock_functions c w = unfold send_ni write_ni in write_ni_lem negated c w

eventfd_drain_lem : (c : Channel) → Works c → After (eventfd_drain c) false
unfolding eventfd_drain read_ni read unless_again
eventfd_drain_lem c w =
    let (later, e) = retry_lem (read c.pending) c.interrupts c in rw e (ground arith)

-- One round of the loop: the end of it, or fewer bytes.
round_lem :
    (c : Channel)
    → Works c
    → ((c.pending ≡ 0)
        × (c' : Channel) × (read_ni 32 c ≡ (minus_errno eagain, c'))
        × Works c'
        × (c'.pending ≡ 0))
      ⊎ ((n : ℕ) × (c' : Channel) × (read_ni 32 c ≡ (count (suc n), c'))
          × Works c'
          × (c'.pending < c.pending))
unfolding read_ni read
round_lem c w =
    let (later, e) = retry_lem (read 32) c.interrupts c in
    elim (Bool-cases (c.pending == 0)) [
      | inl empty ↦ inl (
        ground arith,
        record c { interrupts = later },
        rw e (ground arith),
        ground arith,
        ground arith,
      )
      | inr more ↦ inr (
        min 32 c.pending - 1,
        record c { pending = c.pending - 32; interrupts = later },
        rw e (ground arith),
        ground arith,
        ground arith,
      )
    ]

-- With more fuel than bytes the loop ends by EAGAIN, on an empty channel.
drain_loop_lem :
    (fuel : ℕ) (c : Channel)
    → Works c
    → c.pending < fuel
    → (c' : Channel) × (drain_loop read_ni fuel c ≡ some (minus_errno eagain, c'))
      × Works c'
      × (c'.pending ≡ 0)
unfolding drain_loop
drain_loop_lem zero c w h = absurd (omega arith)
drain_loop_lem (suc fuel) c w h = elim (round_lem c w) [
  | inl (e0, c', e, w', z) ↦ (c', rw e refl, w', z)
  | inr (n, c', e, w', less) ↦ rw e (drain_loop_lem fuel c' w' (omega arith))
]

sock_drain-eq : (c : Channel) → sock_drain c ≡ pipe_drain c
unfolding sock_drain pipe_drain recv_ni read_ni
sock_drain-eq c = refl

pipe_drain_lem :
    (c : Channel) → Works c → (x : Status × Channel) × (pipe_drain c ≡ some x) × After x false
unfolding pipe_drain unless_again
pipe_drain_lem c w =
    let (c', e, w', z) = drain_loop_lem (suc c.pending) c w (omega arith) in
    ((success, c'), rw e refl, record { succeeded = refl; works = w'; readable = rw z refl })

drain_lem :
    (k : Mechanism) (c : Channel)
    → Works c
    → (x : Status × Channel) × (call_drain_fn k c ≡ some x) × After x false
unfolding call_drain_fn
drain_lem eventfd_functions c w = (eventfd_drain c, refl, eventfd_drain_lem c w)
drain_lem pipe_functions c w = pipe_drain_lem c w
drain_lem sock_functions c w = rw (sock_drain-eq c) (pipe_drain_lem c w)

-- On a channel that works, with room for one byte at least, and whatever signals interrupt: every
-- sequence of alerts and drains ends, each call returns 0, and afterwards the descriptor is readable
-- exactly if the last call was an alert, or there was none and it was readable before. So no alert
-- is lost, also on a full channel, and a drain leaves nothing.
pub run-flag :
    (k : Mechanism) (calls : List Call) (c : Channel)
    → Works c
    → (c' : Channel) × (statuses : List Status) × (run k calls c ≡ some (c', statuses))
      × All (λ s. s ≡ success) statuses
      × (length statuses ≡ length calls)
      × (is_readable c' ≡ flag calls (is_readable c))
unfolding run flag
run-flag k [] c w = (c, [], refl, tt, refl, refl)
run-flag k (alerts ∷ calls) c w =
    let a = alert_lem k c w in
    let (c', ss, e, all, n, r) = run-flag k calls (call_alert_fn k c).1 a.works in
    (
      c',
      (call_alert_fn k c).0 ∷ ss,
      rw e refl,
      (a.succeeded, all),
      ap suc n,
      r ∙ ap (flag calls) a.readable,
    )
run-flag k (drains ∷ calls) c w =
    let (x, d, a) = drain_lem k c w in
    let (c', ss, e, all, n, r) = run-flag k calls x.1 a.works in
    (c', x.0 ∷ ss, rw (d, e) refl, (a.succeeded, all), ap suc n, r ∙ ap (flag calls) a.readable)
