-- ===== src/AlertSocket/Ready.antt =====
-- The descriptors that alert_sockets_create of networking/lib/alertsock.c hands out.
use tor_onion.Common.{
  ℕ, ◌≡◌, ◌≢◌, refl, subst, Bool, true, false, ◌&&◌, Option, none, some, List, [], ◌∷◌, ◌==◌,
  if◌then◌else◌, arith, Option-cases, inl, inr,
}
use tor_onion.AlertSocket.{
  Build, Flags, System, Attempt, created, gave_up, passed, sockets, plain_eventfd, second_eventfd,
  first_eventfd, try_eventfd, try_pipe2, plain_pipe, try_pipe, plain_socketpair, try_socketpair,
  or_next, alert_sockets_create,
}
use tor_onion.AlertSocket.Descriptors.{
  Descriptor, Table, add_descriptor, close_on_exec_first, close_on_exec_second, nonblocking_first,
  nonblocking_second, set_close_on_exec-add_descriptor, set_nonblocking-add_descriptor, pair,
}
use tor_onion.AlertSocket.Release.{
  released, IsClosed, AreClosed, AnswersClosed, try_eventfd-released, try_pipe2-released,
  try_pipe-released, try_socketpair-released,
}

-- Whether a descriptor of the table does not block.
unfoldable pub never_blocks : ℕ → List Descriptor → Bool
never_blocks fd [] = false
never_blocks fd (d ∷ ds) = if d.number == fd then d.nonblocking else never_blocks fd ds

unfoldable pub end_never_blocks : Option ℕ → Table → Bool
unfolding never_blocks
end_never_blocks none t = false
end_never_blocks (some fd) t = never_blocks fd t.descriptors

-- Neither end of a pair that was created blocks.
unfoldable pub is_ready : Attempt → Bool
unfolding end_never_blocks
is_ready (created s t) = end_never_blocks s.read_fd t && end_never_blocks s.write_fd t
is_ready (gave_up t) = true
is_ready (passed t) = true

pair-ready :
    (r w : ℕ) (cr cw : Bool) (t : Table)
    → r ≢ w
    → (never_blocks r (pair r w cr true cw true t).descriptors ≡ true)
      × (never_blocks w (pair r w cr true cw true t).descriptors ≡ true)
unfolding never_blocks add_descriptor
pair-ready r w cr cw t ne = ground arith

one-ready :
    (fd : ℕ) (ce : Bool) (t : Table)
    → never_blocks fd (add_descriptor fd ce true t).descriptors ≡ true
unfolding never_blocks add_descriptor
one-ready fd ce t = ground arith

module _ (t : Table) (sys : System) (ok : AnswersClosed sys t) where
  second_eventfd-ready : (f : Flags) → is_ready (second_eventfd f sys t) ≡ true
  unfolding second_eventfd plain_eventfd is_ready sockets
  second_eventfd-ready f = elim (Option-cases sys.eventfd) [
    | inl e ↦ rw e (ground arith)
    | inr (fd, e) ↦
        let closed : IsClosed (some fd) t = subst (λ o. IsClosed o t) e ok.eventfd_closed in
        rw e (
          ground (
            arith,
            set_close_on_exec-add_descriptor fd false false t closed,
            set_nonblocking-add_descriptor fd true false t closed,
            one-ready fd true t,
          ))
  ]

  try_eventfd-ready : (b : Build) (f : Flags) → is_ready (try_eventfd b f sys t) ≡ true
  unfolding try_eventfd is_ready sockets
  try_eventfd-ready b f = elim (Option-cases (first_eventfd b f sys)) [
    | inl e ↦ rw e (ground (arith, second_eventfd-ready f))
    | inr (fd, e) ↦ rw e (ground (arith, one-ready fd true t))
  ]

  try_pipe2-ready : (b : Build) (f : Flags) → is_ready (try_pipe2 b f sys t) ≡ true
  unfolding try_pipe2 is_ready sockets
  try_pipe2-ready b f = elim (Option-cases sys.pipe2) [
    | inl e ↦ rw e (ground arith)
    | inr ((r, w), e) ↦
        let apart : AreClosed (some (r, w)) t = subst (λ o. AreClosed o t) e ok.pipe2_closed in
        rw e (ground (arith, pair-ready r w true true t apart.2))
  ]

  try_pipe-ready : (b : Build) (f : Flags) → is_ready (try_pipe b f sys t) ≡ true
  unfolding try_pipe plain_pipe is_ready sockets
  try_pipe-ready b f = elim (Option-cases sys.pipe) [
    | inl e ↦ rw e (ground arith)
    | inr ((r, w), e) ↦
        let (er, ew, ne) = subst (λ o. AreClosed o t) e ok.pipe_closed in
        rw e (
          ground (
            arith,
            close_on_exec_first r w false false false false t er ew ne,
            close_on_exec_second r w true false false false t er ew ne,
            nonblocking_first r w true false true false t er ew ne,
            nonblocking_second r w true true true false t er ew ne,
            pair-ready r w true true t ne,
          ))
  ]

  try_socketpair-ready : (f : Flags) → is_ready (try_socketpair f sys t) ≡ true
  unfolding try_socketpair plain_socketpair is_ready sockets
  try_socketpair-ready f = elim (Option-cases sys.socketpair) [
    | inl e ↦ rw e (ground arith)
    | inr ((r, w), e) ↦
        let (er, ew, ne) = subst (λ o. AreClosed o t) e ok.socketpair_closed in
        let ce = sys.pair_close_on_exec in
        rw e (
          ground (
            arith,
            nonblocking_first r w ce false ce false t er ew ne,
            nonblocking_second r w ce true ce false t er ew ne,
            pair-ready r w ce ce t ne,
          ))
  ]

or_next-ready :
    (t : Table) (a : Attempt) (next : Table → Attempt)
    → is_ready a ≡ true
    → released a ≡ t
    → is_ready (next t) ≡ true
    → is_ready (or_next a next) ≡ true
unfolding released is_ready
or_next-ready t (created s u) next h e k = h
or_next-ready t (gave_up u) next h e k = refl
or_next-ready t (passed u) next h e k = rw e k

gave_up-ready : (t : Table) → is_ready (gave_up t) ≡ true
unfolding is_ready
gave_up-ready t = refl

-- Whatever the system answers, with descriptors that are not open: neither end of a pair that
-- alert_sockets_create has created blocks.
pub create-ready :
    (b : Build) (f : Flags) (sys : System) (t : Table)
    → AnswersClosed sys t
    → is_ready (alert_sockets_create b f sys t) ≡ true
unfolding alert_sockets_create
create-ready b f sys t ok =
    or_next-ready t (try_eventfd b f sys t) _ (try_eventfd-ready t sys ok b f)
      (try_eventfd-released t sys b f ok)
      (or_next-ready t (try_pipe2 b f sys t) _ (try_pipe2-ready t sys ok b f)
        (try_pipe2-released t sys b f ok)
        (or_next-ready t (try_pipe b f sys t) _ (try_pipe-ready t sys ok b f)
          (try_pipe-released t sys b f ok)
          (or_next-ready t (try_socketpair f sys t) _ (try_socketpair-ready t sys ok f)
            (try_socketpair-released t sys f ok) (gave_up-ready t))))
