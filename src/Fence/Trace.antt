-- ===== src/Fence/Trace.antt =====
-- What the log of a helper (app/graphics/vv_helper.cpp) says of the tasks that have been run.
use tor_onion.Common.{
  ℕ, ◌≡◌, refl, ap, ◌∙◌, sym, Bool, List, [], ◌∷◌, ◌++◌, map, arith, ltb, Bool-cases, inl, inr,
  append_assoc,
}
use tor_onion.Fence.{
  Task, custom, destroy_semaphores, destroy_image, destroy_buffer, Effect, ran, fence_destroyed,
  semaphore_destroyed, image_destroyed, memory_freed, buffer_destroyed, TasksForFence, run_task,
  run_all, drain, tasks_of,
}

-- The tasks that were run, in the order in which they were.
abbrev pub executed : List Effect → List Task
executed [] = []
executed (ran t lost ∷ es) = t ∷ executed es
executed (fence_destroyed f ∷ es) = executed es
executed (semaphore_destroyed s ∷ es) = executed es
executed (image_destroyed i ∷ es) = executed es
executed (memory_freed m ∷ es) = executed es
executed (buffer_destroyed b a ∷ es) = executed es

pub executed-append : (xs ys : List Effect) → executed (xs ++ ys) ≡ executed xs ++ executed ys
executed-append [] ys = refl
executed-append (ran t lost ∷ es) ys = ap (◌∷◌ t) (executed-append es ys)
executed-append (fence_destroyed f ∷ es) ys = executed-append es ys
executed-append (semaphore_destroyed s ∷ es) ys = executed-append es ys
executed-append (image_destroyed i ∷ es) ys = executed-append es ys
executed-append (memory_freed m ∷ es) ys = executed-append es ys
executed-append (buffer_destroyed b a ∷ es) ys = executed-append es ys

executed-semaphores : (ss : List ℕ) → executed (map semaphore_destroyed ss) ≡ []
executed-semaphores [] = refl
executed-semaphores (s ∷ ss) = executed-semaphores ss

pub executed-fences : (fs : List ℕ) → executed (map fence_destroyed fs) ≡ []
executed-fences [] = refl
executed-fences (f ∷ fs) = executed-fences fs

executed-run_task : (t : Task) (lost : Bool) → executed (run_task t lost) ≡ t ∷ []
unfolding run_task
executed-run_task (custom n) lost = refl
executed-run_task (destroy_semaphores ss) lost =
    ap (◌∷◌ (destroy_semaphores ss)) (executed-semaphores ss)
executed-run_task (destroy_image i m) lost = ground arith
executed-run_task (destroy_buffer b a) lost = refl

pub executed-run_all : (ts : List Task) (lost : Bool) → executed (run_all ts lost) ≡ ts
unfolding run_all
executed-run_all [] lost = refl
executed-run_all (t ∷ ts) lost =
    executed-append (run_task t lost) (run_all ts lost)
    ∙ rw (executed-run_task t lost, executed-run_all ts lost)

-- Draining takes entries from the front and keeps the order of their tasks.
pub tasks_of-drain :
    (g : ℕ) (q : List TasksForFence) → (drain g q).tasks ++ tasks_of (drain g q).left ≡ tasks_of q
unfolding drain tasks_of
tasks_of-drain g [] = refl
tasks_of-drain g (t ∷ ts) = elim (Bool-cases (ltb g t.generation_id)) [
  | inl young ↦ rw (young, drain)
  | inr old ↦ rw (old, drain) (append_assoc t.tasks _ _ ∙ ap (◌++◌ t.tasks) (tasks_of-drain g ts))
]

pub tasks_of-append :
    (xs ys : List TasksForFence) → tasks_of (xs ++ ys) ≡ tasks_of xs ++ tasks_of ys
unfolding tasks_of
tasks_of-append [] ys = refl
tasks_of-append (t ∷ ts) ys =
    ap (◌++◌ t.tasks) (tasks_of-append ts ys) ∙ sym (append_assoc t.tasks _ _)
