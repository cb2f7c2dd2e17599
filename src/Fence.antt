-- ===== src/Fence.antt =====
-- app/graphics/vv_helper.cpp: VulkanFenceHelper, which keeps cleanup tasks until the GPU work that
-- uses their objects has finished. The driver's answers to the calls of one operation are an
-- argument of it; what it is told to do is appended to `log`, oldest first. A failed CHECK is
-- `none`. DCHECKs change nothing in a release build and are left out.
pub mod Trace
pub mod Steps
pub mod History
pub mod Invariant
pub mod Order
pub mod Safety
mod Tests
use tor_onion.Common.{
  ℕ, ◌+◌, ◌-◌, ◌^◌, min, max, ◌≡◌, ◌≢◌, Bool, true, false, ◌&&◌, Option, none, some, List, [], ◌∷◌,
  ◌++◌, map, ltb, leb, ◌==◌, if◌then◌else◌, u64, is_empty, ◌>>=◌,
}

pub data VkResult : Type 0 where
  success not_ready device_lost : VkResult
  other : ℕ → VkResult

-- VK_NULL_HANDLE.
abbrev pub null_handle : ℕ
null_handle = 0

-- A bound cleanup closure: a caller's own, or one that this file binds.
pub data Task : Type 0 where
  custom : ℕ → Task
  destroy_semaphores : List ℕ → Task
  destroy_image : ℕ → ℕ → Task
  destroy_buffer : ℕ → ℕ → Task

pub data Effect : Type 0 where
  ran : Task → Bool → Effect
  fence_destroyed semaphore_destroyed image_destroyed memory_freed : ℕ → Effect
  buffer_destroyed : ℕ → ℕ → Effect

pub record FenceHandle : Type 0 where
  pub fence : ℕ
  pub generation_id : ℕ

pub record TasksForFence : Type 0 where
  pub fence : ℕ
  pub generation_id : ℕ
  pub tasks : List Task

-- What the class declaration, which is not in this repository, fixes: how an entry made without a
-- fence is marked, and what a default handle holds.
pub record Header : Type 0 where
  pub using_callback : TasksForFence → Bool
  pub default_handle : FenceHandle
  pub callback_marked : (t : TasksForFence) → t.fence ≡ null_handle → using_callback t ≡ true
  pub fence_unmarked : (t : TasksForFence) → t.fence ≢ null_handle → using_callback t ≡ false

pub record Driver : Type 0 where
  pub status : ℕ → VkResult
  pub idle : VkResult
  pub created : VkResult
  pub new_fence : ℕ
  pub submitted : VkResult

pub record Helper : Type 0 where
  pub current_generation : ℕ
  pub next_generation : ℕ
  pub tasks_pending_fence : List Task
  pub cleanup_tasks : List TasksForFence
  pub log : List Effect

-- The body of each closure; `is_lost` is read by the caller's own closures only.
pub run_task : Task → Bool → List Effect
run_task (custom n) lost = ran (custom n) lost ∷ []
run_task (destroy_semaphores ss) lost =
    ran (destroy_semaphores ss) lost ∷ map semaphore_destroyed ss
run_task (destroy_image i m) lost =
    ran (destroy_image i m) lost
    ∷ ((if i == null_handle then [] else image_destroyed i ∷ [])
        ++ (if m == null_handle then [] else memory_freed m ∷ []))
run_task (destroy_buffer b a) lost = ran (destroy_buffer b a) lost ∷ buffer_destroyed b a ∷ []

pub run_all : List Task → Bool → List Effect
run_all [] lost = []
run_all (t ∷ ts) lost = run_task t lost ++ run_all ts lost

pub enqueue_cleanup_task : Helper → Task → Helper
enqueue_cleanup_task h t = record h { tasks_pending_fence = h.tasks_pending_fence ++ (t ∷ []) }

pub enqueue_semaphores : Helper → List ℕ → Helper
unfolding enqueue_cleanup_task
enqueue_semaphores h ss = if is_empty ss then h else enqueue_cleanup_task h (destroy_semaphores ss)

pub enqueue_semaphore : Helper → ℕ → Helper
unfolding enqueue_semaphores
enqueue_semaphore h s = if s == null_handle then h else enqueue_semaphores h (s ∷ [])

pub enqueue_image : Helper → ℕ → ℕ → Helper
unfolding enqueue_cleanup_task
enqueue_image h i m =
    if (i == null_handle) && (m == null_handle)
    then h
    else enqueue_cleanup_task h (destroy_image i m)

pub enqueue_buffer : Helper → ℕ → ℕ → Helper
unfolding enqueue_cleanup_task
enqueue_buffer h b a =
    if (b == null_handle) && (a == null_handle)
    then h
    else enqueue_cleanup_task h (destroy_buffer b a)

-- The work that waits is closed under the next generation.
pub push_entry : Helper → ℕ → Helper
push_entry h fence = record h {
  next_generation = u64 (h.next_generation + 1);
  cleanup_tasks =
      h.cleanup_tasks
      ++ (record { fence = fence; generation_id = h.next_generation; tasks = h.tasks_pending_fence }
          ∷ []);
  tasks_pending_fence = [];
}

pub enqueue_fence : Helper → ℕ → Helper × FenceHandle
unfolding push_entry
enqueue_fence h fence =
    (push_entry h fence, record { fence = fence; generation_id = h.next_generation })

-- The loop over the queue: the youngest retired generation, or `none` when a status query failed.
pub scan : Header → (ℕ → VkResult) → ℕ → List TasksForFence → Option ℕ
scan hd status retired [] = some retired
scan hd status retired (t ∷ ts) = elim (hd.using_callback t) [
  | true ↦ scan hd status retired ts
  | false ↦ elim (status t.fence) [
    | not_ready ↦ some (min retired (u64 (t.generation_id + 2 ^ 64 - 1)))
    | success ↦ scan hd status (max t.generation_id retired) ts
    | _ ↦ none
  ]
]

pub record Drained : Type 0 where
  pub left : List TasksForFence
  pub fences : List ℕ
  pub tasks : List Task

-- `while` the front entry is retired: its fence is destroyed and its tasks are taken over.
pub drain : ℕ → List TasksForFence → Drained
drain g [] = record { left = []; fences = []; tasks = [] }
drain g (t ∷ ts) =
    let rest = drain g ts in
    if ltb g t.generation_id then record { left = t ∷ ts; fences = []; tasks = [] } else record {
      left = rest.left;
      fences = if t.fence == null_handle then rest.fences else t.fence ∷ rest.fences;
      tasks = t.tasks ++ rest.tasks;
    }

pub retire : Helper → ℕ → Helper
unfolding drain run_all
retire h r =
    let d = drain r h.cleanup_tasks in
    record h {
      current_generation = r;
      cleanup_tasks = d.left;
      log = h.log ++ (map fence_destroyed d.fences ++ run_all d.tasks false);
    }

pub fences_of : List TasksForFence → List ℕ
fences_of q = map (λ t. t.fence) q

pub tasks_of : List TasksForFence → List Task
tasks_of [] = []
tasks_of (t ∷ ts) = t.tasks ++ tasks_of ts

-- Every entry and the work that waits, after the queue is idle.
pub flush : Helper → Bool → Helper
unfolding run_all fences_of tasks_of
flush h lost = record h {
  current_generation = u64 (h.next_generation + 2 ^ 64 - 1);
  cleanup_tasks = [];
  tasks_pending_fence = [];
  log =
      h.log
      ++ (map fence_destroyed (fences_of h.cleanup_tasks)
          ++ run_all (tasks_of h.cleanup_tasks ++ h.tasks_pending_fence) lost);
}

-- The CHECK on the result of vkQueueWaitIdle, and `device_lost`.
pub lost_after : VkResult → Option Bool
lost_after success = some false
lost_after device_lost = some true
lost_after _ = none

pub perform_immediate_cleanup : Helper → Driver → Option Helper
unfolding flush lost_after
perform_immediate_cleanup h d =
    if is_empty h.cleanup_tasks && is_empty h.tasks_pending_fence
    then some h
    else (lost_after d.idle >>= λ lost. some (flush h lost))

pub destroy : Helper → Driver → Option Helper
unfolding perform_immediate_cleanup
destroy h d = perform_immediate_cleanup h d

pub is_success : VkResult → Bool
is_success success = true
is_success _ = false

module _ (hd : Header) where
  -- A `retired_generation_id` of 0 stands for the current generation.
  pub process_cleanup_tasks : Helper → Driver → ℕ → Option Helper
  unfolding retire
  process_cleanup_tasks h d g =
      elim (scan hd d.status (if g == 0 then h.current_generation else g) h.cleanup_tasks) [
        | none ↦ perform_immediate_cleanup h d
        | some r ↦ some (retire h r)
      ]

  pub has_passed : Helper → Driver → FenceHandle → Option (Helper × Bool)
  has_passed h d handle = do
    h' ← process_cleanup_tasks h d 0
    some (h', leb handle.generation_id h'.current_generation)

  -- The rest of `Wait`, after the first HasPassed and vkWaitForFences.
  pub finish_wait : Bool → Helper → VkResult → Driver → Option (Helper × Bool)
  unfolding is_success
  finish_wait true h waited after = some (h, true)
  finish_wait false h waited after =
      process_cleanup_tasks h after 0 >>= λ h'. some (h', is_success waited)

  -- `before` and `after` are the driver's answers on each side of vkWaitForFences.
  pub wait : Helper → Driver → VkResult → Driver → FenceHandle → Option (Helper × Bool)
  unfolding finish_wait
  wait h before waited after handle = do
    (h', passed) ← has_passed h before handle
    finish_wait passed h' waited after

  pub give_up : Helper → Driver → Option (Helper × FenceHandle)
  give_up h d = perform_immediate_cleanup h d >>= λ h'. some (h', hd.default_handle)

  -- After vkQueueSubmit: the fence guards the work, or is destroyed.
  pub after_submit : Helper → Driver → Option (Helper × FenceHandle)
  unfolding give_up is_success
  after_submit h d =
      if is_success d.submitted
      then some (enqueue_fence h d.new_fence)
      else give_up (record h { log = h.log ++ (fence_destroyed d.new_fence ∷ []) }) d

  pub generate_cleanup_fence : Helper → Driver → Option (Helper × FenceHandle)
  unfolding give_up after_submit is_success
  generate_cleanup_fence h d =
      if is_empty h.tasks_pending_fence
      then some (h, hd.default_handle)
      else if is_success d.created
      then after_submit h d
      else give_up h d

  -- The generation that the closure carries; `none` is the null closure.
  pub create_external_callback : Helper → Helper × Option ℕ
  create_external_callback h =
      if is_empty h.tasks_pending_fence
      then (h, none)
      else (push_entry h null_handle, some h.next_generation)

  -- The closure's body, run while the helper is alive.
  pub external_callback : Helper → Driver → ℕ → Option Helper
  external_callback h d g =
      if ltb h.current_generation g then process_cleanup_tasks h d g else some h
