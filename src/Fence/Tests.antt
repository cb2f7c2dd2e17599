-- ===== src/Fence/Tests.antt =====
-- Runs of VulkanFenceHelper (app/graphics/vv_helper.cpp), and the theorems at concrete histories.
use tor_onion.Common.{
  ℕ, ◌≡◌, refl, ◌⊎◌, inl, true, false, some, List, [], ◌∷◌, ◌++◌, arith, ◌==◌, ==_iff, ◌≢◌, Memᴰ,
}
use tor_onion.Fence.{
  success, not_ready, Task, custom, destroy_image, ran, fence_destroyed, Header, Driver, Helper,
  TasksForFence, null_handle, enqueue_cleanup_task, enqueue_fence, scan, retire, run_task,
  process_cleanup_tasks, perform_immediate_cleanup, destroy, has_passed,
}
use tor_onion.Fence.Steps.{Op, submit, enqueue, step}
use tor_onion.Fence.History.{History, start, call}
use tor_onion.Fence.Order.{account, submissions, History-account}
use tor_onion.Fence.Invariant.{Inv}
use tor_onion.Fence.Safety.{
  IsClean, process_only_signalled, has_passed_of_signalled, immediate_cleanup_completes,
}

unmarked : (t : TasksForFence) → t.fence ≢ null_handle → (t.fence == null_handle) ≡ false
unmarked t e = ground arith

-- An entry uses a callback when it has no fence.
abbrev header : Header
header = record {
  using_callback = λ t. t.fence == null_handle;
  default_handle = record { fence = 0; generation_id = 2 };
  callback_marked = λ t e. (==_iff t.fence null_handle).1 e;
  fence_unmarked = unmarked;
}

abbrev fresh : Helper
fresh = record {
  current_generation = 0;
  next_generation = 1;
  tasks_pending_fence = [];
  cleanup_tasks = [];
  log = [];
}

fresh-Inv : Inv fresh
fresh-Inv = omega arith

abbrev ready : Driver
ready = record {
  status = λ _. success;
  idle = success;
  created = success;
  new_fence = 9;
  submitted = success;
}

-- The fences are signalled up to handle 5.
abbrev partly : Driver
partly = record ready { status = λ f. elim (f == 5) [ true ↦ success | false ↦ not_ready ] }

abbrev entry : ℕ → ℕ → List Task → TasksForFence
entry f g ts = record { fence = f; generation_id = g; tasks = ts }

-- Two fences with work behind them, and work without one.
abbrev loaded : Helper
loaded = record {
  current_generation = 0;
  next_generation = 3;
  tasks_pending_fence = custom 3 ∷ [];
  cleanup_tasks = entry 5 1 (custom 1 ∷ []) ∷ entry 6 2 (destroy_image 4 0 ∷ []) ∷ [];
  log = [];
}

loaded-Inv : Inv loaded
loaded-Inv = omega arith

abbrev half_done : Helper
half_done = record loaded {
  current_generation = 1;
  cleanup_tasks = entry 6 2 (destroy_image 4 0 ∷ []) ∷ [];
  log = fence_destroyed 5 ∷ ran (custom 1) false ∷ [];
}

process_partly : process_cleanup_tasks header loaded partly 0 ≡ some half_done
unfolding process_cleanup_tasks scan retire run_task
process_partly = refl

abbrev ops : List Op
ops = submit (custom 7) ∷ enqueue 5 ∷ submit (custom 8) ∷ []

abbrev after_ops : Helper
after_ops = record {
  current_generation = 0;
  next_generation = 2;
  tasks_pending_fence = custom 8 ∷ [];
  cleanup_tasks = entry 5 1 (custom 7 ∷ []) ∷ [];
  log = [];
}

history : History header fresh ops after_ops
unfolding step enqueue_cleanup_task enqueue_fence
history =
    call (submit (custom 8))
      (call (enqueue 5) (call (submit (custom 7)) start (omega arith) refl) (omega arith) refl)
      (omega arith) refl

History-account_example : account after_ops ≡ account fresh ++ submissions ops
History-account_example = History-account header history

process_only_signalled_example :
    (perform_immediate_cleanup loaded partly ≡ some half_done) ⊎ (partly.status 5 ≡ success)
process_only_signalled_example =
    process_only_signalled header loaded partly 0 (entry 5 1 (custom 1 ∷ [])) loaded-Inv
      process_partly (Memᴰ.head refl) (omega arith) refl

has_passed_of_signalled_example :
    (k : Helper) × (has_passed header loaded ready (record { fence = 6; generation_id = 2 })
      ≡ some (k, true))
has_passed_of_signalled_example =
    has_passed_of_signalled header loaded ready (entry 6 2 (destroy_image 4 0 ∷ [])) (λ f. refl)
      (Memᴰ.tail (Memᴰ.head refl)) refl

immediate_cleanup_completes_example :
    (k : Helper) × (destroy loaded ready ≡ some k) × IsClean loaded k
immediate_cleanup_completes_example = immediate_cleanup_completes loaded ready loaded-Inv (inl refl)
