-- ===== src/BucketHost/Account.antt =====
-- The calls on a bucket (muim/bucket/host.cpp): those that are answered, those that wait for a reply,
-- those that are handed on and those that are dropped.
use tor_onion.Common.{
  ℕ, ◌+◌, ◌-◌, ◌≡◌, refl, ap, ◌∙◌, Bool, true, false, not, ◌||◌, Option, none, some, List, [], ◌∷◌,
  ◌++◌, ◌==◌, if◌then◌else◌, arith, Bool-cases, Option-cases, inl, inr, is_some,
}
use tor_onion.BucketHost.{
  BucketInfo, Header, Answer, QuotaRequest, Pending, BucketHost, BucketContext, run_callback,
  ask_quota_manager, add_receiver, persist, persisted, estimate, durability, set_expires, expires,
  flags_answer, estimate_answer, is_granted, update_persistence, persisted_request, usage_request,
  durability_request, update_expiration, expires_request, run_if, info_or, answer_of, is_usage,
  is_null, find_pending, remove_pending, did_get_bucket, did_get_usage_and_quota, get_idb_factory,
  get_caches, get_directory, get_directory_for_devtools, drop_callback, bind_if, has_checker,
  Binding, idb_factory, cache_storage, lock_manager, directory, pending_calls, get_lock_manager,
  on_receiver_disconnected,
}
use tor_onion.BucketHost.Events.{
  Event, live_step, step, run, hit, called, calls, waiting, answered, handed_on, lost,
  open_or_answered, left_waiting, calls_persist, calls_persisted, calls_estimate, calls_durability,
  calls_expires, calls_set_expires, bucket_reply, usage_reply, connects, disconnects,
  asks_lock_manager, asks_idb_factory, asks_caches, asks_directory, asks_directory_for_devtools,
}

waiting-append : (k : ℕ) (ps qs : List Pending) → waiting k (ps ++ qs) ≡ waiting k ps + waiting k qs
waiting-append k [] qs = omega arith
waiting-append k (p ∷ ps) qs = omega (arith, waiting-append k ps qs)

answered-append :
    (k : ℕ) (xs ys : List (ℕ × Answer)) → answered k (xs ++ ys) ≡ answered k xs + answered k ys
answered-append k [] ys = omega arith
answered-append k (x ∷ xs) ys = omega (arith, answered-append k xs ys)

handed_on-append :
    (k : ℕ) (bs cs : List Binding) → handed_on k (bs ++ cs) ≡ handed_on k bs + handed_on k cs
handed_on-append k [] cs = omega arith
handed_on-append k (directory n d ∷ bs) cs = omega (arith, handed_on-append k bs cs)
handed_on-append k (idb_factory ∷ bs) cs = handed_on-append k bs cs
handed_on-append k (cache_storage ∷ bs) cs = handed_on-append k bs cs
handed_on-append k (lock_manager ∷ bs) cs = handed_on-append k bs cs

lost-append : (k : ℕ) (ms ns : List ℕ) → lost k (ms ++ ns) ≡ lost k ms + lost k ns
lost-append k [] ns = omega arith
lost-append k (m ∷ ms) ns = omega (arith, lost-append k ms ns)

lost-pending_calls : (k : ℕ) (ps : List Pending) → lost k (pending_calls ps) ≡ waiting k ps
lost-pending_calls k [] = refl
lost-pending_calls k (p ∷ ps) = omega (arith, lost-pending_calls k ps)

waiting-remove_pending :
    (k n : ℕ) (ps : List Pending)
    → is_some (find_pending n ps) ≡ true
    → hit k n + waiting k (remove_pending n ps) ≡ waiting k ps
unfolding find_pending remove_pending
waiting-remove_pending k n [] e = cc
waiting-remove_pending k n (p ∷ ps) e = ground (arith, waiting-remove_pending k n ps)

run_callback-open :
    (k : ℕ) (h : BucketHost) (n : ℕ) (a : Answer)
    → open_or_answered k (run_callback h n a) ≡ hit k n + open_or_answered k h
unfolding run_callback
run_callback-open k h n a = omega (arith, answered-append k h.answers ((n, a) ∷ []))

ask-open :
    (k : ℕ) (h : BucketHost) (n : ℕ) (q : QuotaRequest)
    → open_or_answered k (ask_quota_manager h n q) ≡ hit k n + open_or_answered k h
unfolding ask_quota_manager
ask-open k h n q = omega (arith, waiting-append k h.pending (record { call = n; request = q } ∷ []))

if-open :
    (k v : ℕ) (b : Bool) (x y : BucketHost)
    → open_or_answered k x ≡ v
    → open_or_answered k y ≡ v
    → open_or_answered k (if b then x else y) ≡ v
if-open k v true x y e f = e
if-open k v false x y e f = f

persist-open :
    (k : ℕ) (h : BucketHost) (c : Option BucketContext) (n : ℕ)
    → open_or_answered k (persist h c n) ≡ hit k n + open_or_answered k h
unfolding persist
persist-open k h c n =
    let lost = run_callback h n (flags_answer false false) in
    let kept = run_callback h n (flags_answer true true) in
    let asked = ask_quota_manager h n update_persistence in
    let denied = run_callback h n (flags_answer false true) in
    let unsettled = (if is_granted c then asked else denied) in
    let v = hit k n + open_or_answered k h in
    if-open k v (is_null h || not (is_some c)) lost
      (if h.bucket_info.persistent then kept else unsettled)
      (run_callback-open k h n (flags_answer false false))
      (if-open k v h.bucket_info.persistent kept unsettled
        (run_callback-open k h n (flags_answer true true))
        (if-open k v (is_granted c) asked denied (ask-open k h n update_persistence)
          (run_callback-open k h n (flags_answer false true))))

set_expires-open :
    (k : ℕ) (h : BucketHost) (t n : ℕ)
    → open_or_answered k (set_expires h t n) ≡ hit k n + open_or_answered k h
unfolding set_expires
set_expires-open k h t n = ask-open k h n (update_expiration t)

-- A reply to a request other than one for usage runs its callback.
replied-open :
    (k : ℕ) (h : BucketHost) (n : ℕ) (q : QuotaRequest) (info : BucketInfo) (exists : Bool)
    → is_usage q ≡ false
    → open_or_answered k (run_if h n (answer_of q info exists)) ≡ hit k n + open_or_answered k h
unfolding answer_of
replied-open k h n update_persistence info exists e = run_callback-open k h n _
replied-open k h n persisted_request info exists e = run_callback-open k h n _
replied-open k h n usage_request info exists e = cc
replied-open k h n durability_request info exists e = run_callback-open k h n _
replied-open k h n (update_expiration t) info exists e = run_callback-open k h n _
replied-open k h n expires_request info exists e = run_callback-open k h n _

persisted-open :
    (k : ℕ) (h : BucketHost) (n : ℕ)
    → open_or_answered k (persisted h n) ≡ hit k n + open_or_answered k h
unfolding persisted
persisted-open k h n = elim (Bool-cases (is_null h)) [
  | inl lost ↦ rw (lost, persisted) (run_callback-open k h n _)
  | inr here ↦ rw (here, persisted) (ask-open k h n _)
]

estimate-open :
    (k : ℕ) (h : BucketHost) (n : ℕ)
    → open_or_answered k (estimate h n) ≡ hit k n + open_or_answered k h
unfolding estimate
estimate-open k h n = elim (Bool-cases (is_null h)) [
  | inl lost ↦ rw (lost, estimate) (run_callback-open k h n _)
  | inr here ↦ rw (here, estimate) (ask-open k h n _)
]

durability-open :
    (k : ℕ) (h : BucketHost) (n : ℕ)
    → open_or_answered k (durability h n) ≡ hit k n + open_or_answered k h
unfolding durability
durability-open k h n = elim (Bool-cases (is_null h)) [
  | inl lost ↦ rw (lost, durability) (run_callback-open k h n _)
  | inr here ↦ rw (here, durability) (ask-open k h n _)
]

expires-open :
    (k : ℕ) (h : BucketHost) (n : ℕ)
    → open_or_answered k (expires h n) ≡ hit k n + open_or_answered k h
unfolding expires
expires-open k h n = elim (Bool-cases (is_null h)) [
  | inl lost ↦ rw (lost, expires) (run_callback-open k h n _)
  | inr here ↦ rw (here, expires) (ask-open k h n _)
]

module _ (hd : Header) where
  bucket_reply-open :
      (k : ℕ) (h : BucketHost) (n : ℕ) (r : Option BucketInfo)
      → open_or_answered k (did_get_bucket hd h n r) ≡ open_or_answered k h
  unfolding did_get_bucket
  bucket_reply-open k h n r = elim (Option-cases (find_pending n h.pending)) [
    | inl missing ↦ rw (missing, did_get_bucket) refl
    | inr (q, found) ↦ elim (Bool-cases (is_usage q)) [
      | inl usage ↦ rw (found, did_get_bucket) (rw (usage, did_get_bucket) refl)
      | inr other ↦
          let there : is_some (find_pending n h.pending) ≡ true = ap is_some found in
          let reply = replied-open k _ n q (info_or r hd.null_info) (is_some r) other in
          rw (found, did_get_bucket)
            (rw (other, did_get_bucket)
              (reply ∙ omega (arith, waiting-remove_pending k n h.pending there)))
    ]
  ]

  usage_reply-open :
      (k : ℕ) (h : BucketHost) (n : ℕ) (ok : Bool) (u q : ℕ)
      → open_or_answered k (did_get_usage_and_quota hd h n ok u q) ≡ open_or_answered k h
  unfolding did_get_usage_and_quota
  usage_reply-open k h n ok u q = elim (Option-cases (find_pending n h.pending)) [
    | inl missing ↦ rw (missing, did_get_usage_and_quota) refl
    | inr (r, found) ↦ elim (Bool-cases (is_usage r)) [
      | inr other ↦ rw (found, did_get_usage_and_quota) (rw (other, did_get_usage_and_quota) refl)
      | inl usage ↦
          let there : is_some (find_pending n h.pending) ≡ true = ap is_some found in
          rw (found, did_get_usage_and_quota)
            (rw (usage, did_get_usage_and_quota)
              (run_callback-open k
                  (record h {
                    bucket_info = if not ok then hd.null_info else h.bucket_info;
                    pending = remove_pending n h.pending;
                  })
                  n (estimate_answer u q ok)
                ∙ omega (arith, waiting-remove_pending k n h.pending there)))
    ]
  ]

bind-open :
    (k : ℕ) (h : BucketHost) (b : Binding)
    → open_or_answered k (record h { bindings = h.bindings ++ (b ∷ []) })
      ≡ handed_on k (b ∷ []) + open_or_answered k h
bind-open k h b = omega (arith, handed_on-append k h.bindings (b ∷ []))

bind_if-open :
    (k : ℕ) (h : BucketHost) (ok : Bool) (b : Binding)
    → handed_on k (b ∷ []) ≡ 0
    → open_or_answered k (bind_if ok b h) ≡ open_or_answered k h
bind_if-open k h true b e = omega (arith, bind-open k h b)
bind_if-open k h false b e = refl

drop-open :
    (k : ℕ) (h : BucketHost) (n : ℕ)
    → open_or_answered k (drop_callback h n) ≡ hit k n + open_or_answered k h
unfolding drop_callback
drop-open k h n = omega (arith, lost-append k h.dropped (n ∷ []))

directory-open :
    (k : ℕ) (h : BucketHost) (c : Option BucketContext) (d : List ℕ) (n : ℕ)
    → open_or_answered k (get_directory_for_devtools h c d n) ≡ hit k n + open_or_answered k h
unfolding get_directory_for_devtools
directory-open k h none d n = drop-open k h n
directory-open k h (some c) d n = omega (arith, bind-open k h (directory n d))

plain_directory-open :
    (k : ℕ) (h : BucketHost) (c : Option BucketContext) (n : ℕ)
    → open_or_answered k (get_directory h c n) ≡ hit k n + open_or_answered k h
unfolding get_directory
plain_directory-open k h none n = drop-open k h n
plain_directory-open k h (some c) n = omega (arith, bind-open k h (directory n []))

disconnect-open :
    (k : ℕ) (h : BucketHost)
    → open_or_answered k (on_receiver_disconnected h) ≡ open_or_answered k h
unfolding on_receiver_disconnected
disconnect-open k h = elim (Bool-cases (h.receivers - 1 == 0)) [
  | inl last ↦ rw last (
      omega
        (arith, lost-append k h.dropped (pending_calls h.pending), lost-pending_calls k h.pending))
  | inr others ↦ rw others refl
]

unless-open :
    (k : ℕ) (removed : Bool) (h next : BucketHost) (n : ℕ)
    → open_or_answered k next ≡ n + open_or_answered k h
    → open_or_answered k (if removed then h else next)
      ≡ (if removed then 0 else n) + open_or_answered k h
unless-open k true h next n e = omega arith
unless-open k false h next n e = e

unless-settled :
    (k : ℕ) (removed : Bool) (h next : BucketHost)
    → left_waiting k h ≡ 0
    → (removed ≡ false → left_waiting k next ≡ 0)
    → left_waiting k (if removed then h else next) ≡ 0
unless-settled k true h next e f = e
unless-settled k false h next e f = f refl

module _ (hd : Header) where
  live_step-open :
      (k : ℕ) (e : Event) (h : BucketHost)
      → open_or_answered k (live_step hd e h) ≡ called k e + open_or_answered k h
  unfolding live_step add_receiver get_lock_manager get_idb_factory get_caches
  live_step-open k (calls_persist c n) h = persist-open k h c n
  live_step-open k (calls_persisted n) h = persisted-open k h n
  live_step-open k (calls_estimate n) h = estimate-open k h n
  live_step-open k (calls_durability n) h = durability-open k h n
  live_step-open k (calls_expires n) h = expires-open k h n
  live_step-open k (calls_set_expires t n) h = set_expires-open k h t n
  live_step-open k (bucket_reply n r) h = omega (arith, bucket_reply-open hd k h n r)
  live_step-open k (usage_reply n ok u q) h = omega (arith, usage_reply-open hd k h n ok u q)
  live_step-open k connects h = omega arith
  live_step-open k disconnects h = omega (arith, disconnect-open k h)
  live_step-open k asks_lock_manager h = omega (arith, bind_if-open k h true lock_manager refl)
  live_step-open k (asks_idb_factory c) h =
      omega (arith, bind_if-open k h (has_checker c) idb_factory refl)
  live_step-open k (asks_caches c) h =
      omega (arith, bind_if-open k h (is_some c) cache_storage refl)
  live_step-open k (asks_directory c n) h = plain_directory-open k h c n
  live_step-open k (asks_directory_for_devtools c d n) h = directory-open k h c d n

  step-open :
      (k : ℕ) (e : Event) (h : BucketHost)
      → open_or_answered k (step hd e h)
        ≡ (if h.is_removed then 0 else called k e) + open_or_answered k h
  unfolding step
  step-open k e h =
      unless-open k h.is_removed h (live_step hd e h) (called k e) (live_step-open k e h)

  run-open :
      (k : ℕ) (es : List Event) (h : BucketHost)
      → open_or_answered k (run hd es h) ≡ calls hd k es h + open_or_answered k h
  unfolding run calls
  run-open k [] h = omega arith
  run-open k (e ∷ es) h = omega (arith, run-open k es (step hd e h), step-open k e h)

  live_step-settled :
      (k : ℕ) (e : Event) (h : BucketHost)
      → h.is_removed ≡ false
      → left_waiting k (live_step hd e h) ≡ 0
  unfolding live_step add_receiver get_lock_manager get_idb_factory get_caches persist persisted
      estimate durability expires set_expires did_get_bucket did_get_usage_and_quota get_directory
      get_directory_for_devtools on_receiver_disconnected run_callback ask_quota_manager
      drop_callback
  live_step-settled k (calls_persist c n) h alive = ground arith
  live_step-settled k (calls_persisted n) h alive = ground arith
  live_step-settled k (calls_estimate n) h alive = ground arith
  live_step-settled k (calls_durability n) h alive = ground arith
  live_step-settled k (calls_expires n) h alive = ground arith
  live_step-settled k (calls_set_expires t n) h alive = ground arith
  live_step-settled k (bucket_reply n r) h alive = ground arith
  live_step-settled k (usage_reply n ok u q) h alive = ground arith
  live_step-settled k connects h alive = ground arith
  live_step-settled k disconnects h alive = ground arith
  live_step-settled k asks_lock_manager h alive = ground arith
  live_step-settled k (asks_idb_factory c) h alive = ground arith
  live_step-settled k (asks_caches c) h alive = ground arith
  live_step-settled k (asks_directory c n) h alive = ground arith
  live_step-settled k (asks_directory_for_devtools c d n) h alive = ground arith

  run-settled :
      (k : ℕ) (es : List Event) (h : BucketHost)
      → left_waiting k h ≡ 0
      → left_waiting k (run hd es h) ≡ 0
  unfolding run step
  run-settled k [] h e = e
  run-settled k (event ∷ es) h e =
      run-settled k es (step hd event h)
        (unless-settled k h.is_removed h (live_step hd event h) e (live_step-settled k event h))

  -- At a host that is alive, for each callback and after any sequence of calls, replies in any order and
  -- other events: the calls that carried it while the host was alive, and where it was at the start,
  -- are as many as those that wait for the quota manager, those that have been answered, those that
  -- have been handed on with a directory, and those that have been dropped. Once the last receiver has gone and the host is destroyed, none waits any more.
  pub run-account :
      (k : ℕ) (es : List Event) (h : BucketHost)
      → h.is_removed ≡ false
      → (open_or_answered k (run hd es h) ≡ calls hd k es h + open_or_answered k h)
        × (left_waiting k (run hd es h) ≡ 0)
  run-account k es h alive = (run-open k es h, run-settled k es h (rw alive refl))
