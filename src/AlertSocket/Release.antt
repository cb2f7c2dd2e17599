-- ===== src/AlertSocket/Release.antt =====
-- What networking/lib/alertsock.c leaves in the table of descriptors: after a creation that fails,
-- and after the close of a pair.
use tor_onion.Common.{
  ℕ, ◌≡◌, ◌≢◌, refl, subst, Bool, true, false, Option, none, some, arith, Option-cases, inl, inr,
}
use tor_onion.AlertSocket.{
  Build, Flags, System, Attempt, created, gave_up, passed, plain_eventfd, second_eventfd,
  first_eventfd, try_eventfd, try_pipe2, plain_pipe, try_pipe, plain_socketpair, try_socketpair,
  or_next, alert_sockets_create, alert_sockets_close,
}
use tor_onion.AlertSocket.Descriptors.{
  Table, is_open, add_descriptor, set_close_on_exec-add_descriptor, set_nonblocking-add_descriptor,
  close-add_descriptor, close-pair, close_on_exec_first, close_on_exec_second, nonblocking_first,
  nonblocking_second,
}

-- The table once the caller has closed what it was given, if it was given anything.
unfoldable pub released : Attempt → Table
released (created s t) = (alert_sockets_close s t).1
released (gave_up t) = t
released (passed t) = t

abbrev pub IsClosed : Option ℕ → Table → Type 0
IsClosed none t = Unit
IsClosed (some fd) t = is_open fd t.descriptors ≡ false

abbrev pub AreClosed : Option (ℕ × ℕ) → Table → Type 0
AreClosed none t = Unit
AreClosed (some (r, w)) t =
    (is_open r t.descriptors ≡ false) × (is_open w t.descriptors ≡ false) × (r ≢ w)

-- The system returns descriptors that are not open, and two different ones for a pair.
pub record AnswersClosed (sys : System) (t : Table) : Type 0 where
  pub eventfd2_closed : IsClosed sys.eventfd2 t
  pub eventfd_closed : IsClosed sys.eventfd t
  pub pipe2_closed : AreClosed sys.pipe2 t
  pub pipe_closed : AreClosed sys.pipe t
  pub socketpair_closed : AreClosed sys.socketpair t

module _ (t : Table) (sys : System) where
  plain_eventfd-released :
      (fd : ℕ)
      → is_open fd t.descriptors ≡ false
      → released (plain_eventfd sys fd (add_descriptor fd false false t)) ≡ t
  unfolding released plain_eventfd alert_sockets_close
  plain_eventfd-released fd e = ground (
    arith,
    set_close_on_exec-add_descriptor fd false false t e,
    set_nonblocking-add_descriptor fd true false t e,
    close-add_descriptor fd false false t,
    close-add_descriptor fd true false t,
    close-add_descriptor fd true true t,
  )

  plain_pipe-released :
      (r w : ℕ)
      → is_open r t.descriptors ≡ false
      → is_open w t.descriptors ≡ false
      → r ≢ w
      → released
          (plain_pipe sys r w (add_descriptor r false false (add_descriptor w false false t)))
        ≡ t
  unfolding released plain_pipe alert_sockets_close
  plain_pipe-released r w er ew ne = ground (
    arith,
    close_on_exec_first r w false false false false t er ew ne,
    close_on_exec_second r w true false false false t er ew ne,
    nonblocking_first r w true false true false t er ew ne,
    nonblocking_second r w true true true false t er ew ne,
    close-pair r w false false false false t,
    close-pair r w true false false false t,
    close-pair r w true false true false t,
    close-pair r w true true true false t,
    close-pair r w true true true true t,
  )

  plain_socketpair-released :
      (r w : ℕ)
      → is_open r t.descriptors ≡ false
      → is_open w t.descriptors ≡ false
      → r ≢ w
      → (ce : Bool)
      → released
          (plain_socketpair sys r w (add_descriptor r ce false (add_descriptor w ce false t)))
        ≡ t
  unfolding released plain_socketpair alert_sockets_close
  plain_socketpair-released r w er ew ne ce = ground (
    arith,
    nonblocking_first r w ce false ce false t er ew ne,
    nonblocking_second r w ce true ce false t er ew ne,
    close-pair r w ce false ce false t,
    close-pair r w ce true ce false t,
    close-pair r w ce true ce true t,
  )

  -- A block, run on the table that it is to restore.
  pub second_eventfd-released :
      (f : Flags) → AnswersClosed sys t → released (second_eventfd f sys t) ≡ t
  unfolding released second_eventfd
  second_eventfd-released f ok = elim (Option-cases sys.eventfd) [
    | inl e ↦ rw e (ground arith)
    | inr (fd, e) ↦
        let closed : IsClosed (some fd) t = subst (λ o. IsClosed o t) e ok.eventfd_closed in
        rw e (ground (arith, plain_eventfd-released fd closed))
  ]

  pub try_eventfd-released :
      (b : Build) (f : Flags) → AnswersClosed sys t → released (try_eventfd b f sys t) ≡ t
  unfolding released try_eventfd alert_sockets_close
  try_eventfd-released b f ok = elim (Option-cases (first_eventfd b f sys)) [
    | inl e ↦ rw e (ground (arith, second_eventfd-released f ok))
    | inr (fd, e) ↦ rw e (ground (arith, close-add_descriptor fd true true t))
  ]

  pub try_pipe2-released :
      (b : Build) (f : Flags) → AnswersClosed sys t → released (try_pipe2 b f sys t) ≡ t
  unfolding released try_pipe2 alert_sockets_close
  try_pipe2-released b f ok = elim (Option-cases sys.pipe2) [
    | inl e ↦ rw e (ground arith)
    | inr ((r, w), e) ↦
        let apart : AreClosed (some (r, w)) t = subst (λ o. AreClosed o t) e ok.pipe2_closed in
        rw e (ground (arith, close-pair r w true true true true t, apart.2))
  ]

  pub try_pipe-released :
      (b : Build) (f : Flags) → AnswersClosed sys t → released (try_pipe b f sys t) ≡ t
  unfolding released try_pipe
  try_pipe-released b f ok = elim (Option-cases sys.pipe) [
    | inl e ↦ rw e (ground arith)
    | inr ((r, w), e) ↦
        let apart : AreClosed (some (r, w)) t = subst (λ o. AreClosed o t) e ok.pipe_closed in
        rw e (ground (arith, plain_pipe-released r w apart.0 apart.1 apart.2))
  ]

  pub try_socketpair-released :
      (f : Flags) → AnswersClosed sys t → released (try_socketpair f sys t) ≡ t
  unfolding released try_socketpair
  try_socketpair-released f ok = elim (Option-cases sys.socketpair) [
    | inl e ↦ rw e (ground arith)
    | inr ((r, w), e) ↦
        let apart : AreClosed (some (r, w)) t = subst (λ o. AreClosed o t) e ok.socketpair_closed in
        rw e (
          ground
            (arith, plain_socketpair-released r w apart.0 apart.1 apart.2 sys.pair_close_on_exec))
  ]

  or_next-released :
      (a : Attempt) (next : Table → Attempt)
      → released a ≡ t
      → released (next t) ≡ t
      → released (or_next a next) ≡ t
  unfolding released
  or_next-released (created s u) next h k = h
  or_next-released (gave_up u) next h k = h
  or_next-released (passed u) next h k = rw h k

gave_up-released : (t : Table) → released (gave_up t) ≡ t
unfolding released
gave_up-released t = refl

-- Whatever the system answers, with descriptors that are not open: if alert_sockets_create fails,
-- the table of descriptors is as before; if it succeeds, it is after one alert_sockets_close. No
-- descriptor stays open, none of the caller's is closed, and none is closed twice.
pub create-released :
    (b : Build) (f : Flags) (sys : System) (t : Table)
    → AnswersClosed sys t
    → released (alert_sockets_create b f sys t) ≡ t
unfolding alert_sockets_create
create-released b f sys t ok =
    or_next-released t sys (try_eventfd b f sys t) _ (try_eventfd-released t sys b f ok) (
      or_next-released t sys (try_pipe2 b f sys t) _ (try_pipe2-released t sys b f ok) (
        or_next-released t sys (try_pipe b f sys t) _ (try_pipe-released t sys b f ok) (
          or_next-released t sys (try_socketpair f sys t) _ (try_socketpair-released t sys f ok)
            (gave_up-released t))))
