-- ===== src/AlertSocket/Descriptors.antt =====
-- The process's table of open descriptors, as networking/lib/alertsock.c changes it. A close of a
-- descriptor that is not open, EBADF, is counted.
use tor_onion.Common.{
  ℕ, ◌+◌, ◌≡◌, ◌≢◌, refl, sym, ap, Bool, true, false, ◌||◌, List, [], ◌∷◌, ◌==◌, if◌then◌else◌,
  arith,
}

pub record Descriptor : Type 0 where
  pub number : ℕ
  pub close_on_exec : Bool
  pub nonblocking : Bool

pub record Table : Type 0 where
  pub descriptors : List Descriptor
  pub bad_closes : ℕ

unfoldable pub is_open : ℕ → List Descriptor → Bool
is_open fd [] = false
is_open fd (d ∷ ds) = (d.number == fd) || is_open fd ds

unfoldable pub remove : ℕ → List Descriptor → List Descriptor
remove fd [] = []
remove fd (d ∷ ds) = if d.number == fd then ds else d ∷ remove fd ds

unfoldable pub update : ℕ → (Descriptor → Descriptor) → List Descriptor → List Descriptor
update fd f [] = []
update fd f (d ∷ ds) = (if d.number == fd then f d else d) ∷ update fd f ds

-- The descriptor that a call has returned.
unfoldable pub add_descriptor : ℕ → Bool → Bool → Table → Table
add_descriptor fd ce nb t = record t {
  descriptors = record { number = fd; close_on_exec = ce; nonblocking = nb } ∷ t.descriptors;
}

unfoldable pub close : ℕ → Table → Table
unfolding is_open remove
close fd t = record {
  descriptors = remove fd t.descriptors;
  bad_closes = if is_open fd t.descriptors then t.bad_closes else t.bad_closes + 1;
}

unfoldable pub set_close_on_exec : ℕ → Table → Table
unfolding update
set_close_on_exec fd t = record t {
  descriptors = update fd (λ d. record d { close_on_exec = true }) t.descriptors;
}

unfoldable pub set_nonblocking : ℕ → Table → Table
unfolding update
set_nonblocking fd t = record t {
  descriptors = update fd (λ d. record d { nonblocking = true }) t.descriptors;
}

pub update_closed :
    (fd : ℕ) (f : Descriptor → Descriptor) (ds : List Descriptor)
    → is_open fd ds ≡ false
    → update fd f ds ≡ ds
unfolding update is_open
update_closed fd f [] e = refl
update_closed fd f (d ∷ ds) e = ground (arith, update_closed fd f ds)

pub close-add_descriptor :
    (fd : ℕ) (ce nb : Bool) (t : Table) → close fd (add_descriptor fd ce nb t) ≡ t
unfolding close add_descriptor
close-add_descriptor fd ce nb t = ground arith

pub set_close_on_exec-add_descriptor :
    (fd : ℕ) (ce nb : Bool) (t : Table)
    → is_open fd t.descriptors ≡ false
    → set_close_on_exec fd (add_descriptor fd ce nb t) ≡ add_descriptor fd true nb t
unfolding set_close_on_exec add_descriptor
set_close_on_exec-add_descriptor fd ce nb t e =
    ground (
      arith,
      update_closed fd (λ (d : Descriptor). record d { close_on_exec = true }) t.descriptors,
    )

pub set_nonblocking-add_descriptor :
    (fd : ℕ) (ce nb : Bool) (t : Table)
    → is_open fd t.descriptors ≡ false
    → set_nonblocking fd (add_descriptor fd ce nb t) ≡ add_descriptor fd ce true t
unfolding set_nonblocking add_descriptor
set_nonblocking-add_descriptor fd ce nb t e =
    ground
      (arith, update_closed fd (λ (d : Descriptor). record d { nonblocking = true }) t.descriptors)

-- A flag of another descriptor.
pub set_close_on_exec-add_ne :
    (fd j : ℕ) (ce nb : Bool) (t : Table)
    → j ≢ fd
    → set_close_on_exec fd (add_descriptor j ce nb t)
      ≡ add_descriptor j ce nb (set_close_on_exec fd t)
unfolding set_close_on_exec add_descriptor
set_close_on_exec-add_ne fd j ce nb t e = ground arith

pub set_nonblocking-add_ne :
    (fd j : ℕ) (ce nb : Bool) (t : Table)
    → j ≢ fd
    → set_nonblocking fd (add_descriptor j ce nb t) ≡ add_descriptor j ce nb (set_nonblocking fd t)
unfolding set_nonblocking add_descriptor
set_nonblocking-add_ne fd j ce nb t e = ground arith

pub is_open-add_descriptor :
    (fd j : ℕ) (ce nb : Bool) (t : Table)
    → j ≢ fd
    → is_open fd t.descriptors ≡ false
    → is_open fd (add_descriptor j ce nb t).descriptors ≡ false
unfolding is_open add_descriptor
is_open-add_descriptor fd j ce nb t e h = ground arith

-- A pair that has just been returned.
abbrev pub pair : ℕ → ℕ → Bool → Bool → Bool → Bool → Table → Table
pair r w cr nr cw nw t = add_descriptor r cr nr (add_descriptor w cw nw t)

module _ (r w : ℕ) (cr nr cw nw : Bool) (t : Table) (er : is_open r t.descriptors ≡ false)
    (ew : is_open w t.descriptors ≡ false) (ne : r ≢ w) where
  pub close_on_exec_first : set_close_on_exec r (pair r w cr nr cw nw t) ≡ pair r w true nr cw nw t
  close_on_exec_first =
      set_close_on_exec-add_descriptor r cr nr (add_descriptor w cw nw t)
        (is_open-add_descriptor r w cw nw t (λ e. ne (sym e)) er)

  pub close_on_exec_second : set_close_on_exec w (pair r w cr nr cw nw t) ≡ pair r w cr nr true nw t
  close_on_exec_second =
      rw (set_close_on_exec-add_ne w r cr nr (add_descriptor w cw nw t) ne)
        (ap (add_descriptor r cr nr) (set_close_on_exec-add_descriptor w cw nw t ew))

  pub nonblocking_first : set_nonblocking r (pair r w cr nr cw nw t) ≡ pair r w cr true cw nw t
  nonblocking_first =
      set_nonblocking-add_descriptor r cr nr (add_descriptor w cw nw t)
        (is_open-add_descriptor r w cw nw t (λ e. ne (sym e)) er)

  pub nonblocking_second : set_nonblocking w (pair r w cr nr cw nw t) ≡ pair r w cr nr cw true t
  nonblocking_second =
      rw (set_nonblocking-add_ne w r cr nr (add_descriptor w cw nw t) ne)
        (ap (add_descriptor r cr nr) (set_nonblocking-add_descriptor w cw nw t ew))

pub close-pair :
    (r w : ℕ) (cr nr cw nw : Bool) (t : Table) → close w (close r (pair r w cr nr cw nw t)) ≡ t
close-pair r w cr nr cw nw t =
    rw (close-add_descriptor r cr nr (add_descriptor w cw nw t)) (close-add_descriptor w cw nw t)
