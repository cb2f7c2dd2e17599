-- ===== src/Fence/Order.antt =====
-- The tasks of VulkanFenceHelper (app/graphics/vv_helper.cpp) and the order they run in.
use tor_onion.Common.{
  ℕ, ◌≡◌, refl, sym, ap, ◌∙◌, Bool, some, List, [], ◌∷◌, ◌++◌, inl, inr, append_assoc, append-nil,
}
use tor_onion.Fence.{
  Task, Header, Helper, tasks_of, retire, flush, drain, push_entry, enqueue_cleanup_task,
}
use tor_onion.Fence.Trace.{
  executed, executed-append, executed-fences, executed-run_all, tasks_of-drain, tasks_of-append,
}
use tor_onion.Fence.Steps.{
  Op, handed, step, Admissible, Move, closed, flushed, retired, dropped, step-Moves,
}
use tor_onion.Fence.History.{History, start, call, Moves-keep}

-- Every task that was handed over: those run, those of a fence, those without one.
abbrev pub account : Helper → List Task
account h = executed h.log ++ (tasks_of h.cleanup_tasks ++ h.tasks_pending_fence)

retire-account : (h : Helper) (r : ℕ) → account (retire h r) ≡ account h
unfolding retire
retire-account h r =
    let q = h.cleanup_tasks in
    simp (executed-append, executed-fences, executed-run_all, append_assoc)
      (ap (◌++◌ (executed h.log)) (
        sym (append_assoc (drain r q).tasks (tasks_of (drain r q).left) h.tasks_pending_fence)
        ∙ ap (λ x. x ++ h.tasks_pending_fence) (tasks_of-drain r q)))

pub flush-account : (h : Helper) (lost : Bool) → account (flush h lost) ≡ account h
unfolding flush tasks_of
flush-account h lost = simp (executed-append, executed-fences, executed-run_all, append-nil)

push_entry-account : (h : Helper) (f : ℕ) → account (push_entry h f) ≡ account h
unfolding push_entry tasks_of
push_entry-account h f = simp (tasks_of-append, append-nil)

enqueue-account :
    (h : Helper) (t : Task) → account (enqueue_cleanup_task h t) ≡ account h ++ (t ∷ [])
unfolding enqueue_cleanup_task
enqueue-account h t = simp append_assoc

abbrev pub submissions : List Op → List Task
submissions [] = []
submissions (o ∷ os) = handed o ++ submissions os

submissions-append : (xs ys : List Op) → submissions (xs ++ ys) ≡ submissions xs ++ submissions ys
submissions-append [] ys = refl
submissions-append (x ∷ xs) ys =
    ap (◌++◌ (handed x)) (submissions-append xs ys) ∙ sym (append_assoc (handed x) _ _)

module _ (hd : Header) where
  Move-account : (h k : Helper) → Move hd h k → account k ≡ account h
  Move-account h k (closed f _) = push_entry-account h f
  Move-account h k (flushed lost) = flush-account h lost
  Move-account h k (retired status g r _ _) = retire-account h r
  Move-account h k (dropped f) = simp (executed-append, append-nil)

  step-account :
      (o : Op) (h : Helper) {k : Helper}
      → Admissible hd o h
      → step hd o h ≡ some k
      → account k ≡ account h ++ handed o
  step-account o h a e = elim (step-Moves hd o h a e) [
    | inl (t, is, same) ↦
        ap account same ∙ enqueue-account h t ∙ ap (λ x. account h ++ handed x) (sym is)
    | inr (quiet, moves) ↦
        Moves-keep hd (λ x. account x ≡ account h) (λ x y m p. Move-account x y m ∙ p) moves refl
        ∙ rw quiet (sym (append-nil _))
  ]

  -- Along any history the tasks run so far, then those that wait for a fence, then those without
  -- one, are those of the start followed by the tasks submitted since, in order of submission: no
  -- task is lost, none runs twice and none overtakes another.
  pub History-account :
      {h k : Helper} {os : List Op} → History hd h os k → account k ≡ account h ++ submissions os
  History-account start = sym (append-nil _)
  History-account (call {os} {k = m} o r a e) =
      step-account o m a e
      ∙ ap (λ x. x ++ handed o) (History-account r)
      ∙ simp (submissions-append, append-nil, append_assoc)
