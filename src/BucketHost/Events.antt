-- ===== src/BucketHost/Events.antt =====
-- What reaches a bucket's host (muim/bucket/host.cpp), and where the callback of a call is.
use tor_onion.Common.{ℕ, ◌+◌, Bool, Option, List, [], ◌∷◌, ◌==◌, if◌then◌else◌}
use tor_onion.BucketHost.{
  BucketInfo, Header, Answer, Pending, BucketHost, BucketContext, add_receiver, persist, persisted,
  estimate, durability, set_expires, expires, did_get_bucket, did_get_usage_and_quota,
  get_idb_factory, get_caches, get_directory, get_directory_for_devtools, Binding, directory,
  get_lock_manager, on_receiver_disconnected,
}

pub data Event : Type 0 where
  calls_persist : Option BucketContext → ℕ → Event
  calls_persisted calls_estimate calls_durability calls_expires : ℕ → Event
  calls_set_expires : ℕ → ℕ → Event
  bucket_reply : ℕ → Option BucketInfo → Event
  usage_reply : ℕ → Bool → ℕ → ℕ → Event
  connects disconnects asks_lock_manager : Event
  asks_idb_factory asks_caches : Option BucketContext → Event
  asks_directory : Option BucketContext → ℕ → Event
  asks_directory_for_devtools : Option BucketContext → List ℕ → ℕ → Event

module _ (hd : Header) where
  -- An event at a host that is alive.
  unfoldable pub live_step : Event → BucketHost → BucketHost
  live_step (calls_persist c n) h = persist h c n
  live_step (calls_persisted n) h = persisted h n
  live_step (calls_estimate n) h = estimate h n
  live_step (calls_durability n) h = durability h n
  live_step (calls_expires n) h = expires h n
  live_step (calls_set_expires t n) h = set_expires h t n
  live_step (bucket_reply n r) h = did_get_bucket hd h n r
  live_step (usage_reply n ok u q) h = did_get_usage_and_quota hd h n ok u q
  live_step connects h = add_receiver h
  live_step disconnects h = on_receiver_disconnected h
  live_step asks_lock_manager h = get_lock_manager h
  live_step (asks_idb_factory c) h = get_idb_factory h c
  live_step (asks_caches c) h = get_caches h c
  live_step (asks_directory c n) h = get_directory h c n
  live_step (asks_directory_for_devtools c d n) h = get_directory_for_devtools h c d n

  -- Nothing reaches a host that has been destroyed.
  unfoldable pub step : Event → BucketHost → BucketHost
  unfolding live_step
  step e h = if h.is_removed then h else live_step e h

  unfoldable pub run : List Event → BucketHost → BucketHost
  run [] h = h
  run (e ∷ es) h = run es (step e h)

-- One for the call `k`.
abbrev pub hit : ℕ → ℕ → ℕ
hit k n = if n == k then 1 else 0

abbrev pub called : ℕ → Event → ℕ
called k (calls_persist c n) = hit k n
called k (calls_persisted n) = hit k n
called k (calls_estimate n) = hit k n
called k (calls_durability n) = hit k n
called k (calls_expires n) = hit k n
called k (calls_set_expires t n) = hit k n
called k (asks_directory c n) = hit k n
called k (asks_directory_for_devtools c d n) = hit k n
called k _ = 0

-- The calls that carried `k` while the host was alive.
module _ (hd : Header) where
  unfoldable pub calls : ℕ → List Event → BucketHost → ℕ
  calls k [] h = 0
  calls k (e ∷ es) h = (if h.is_removed then 0 else called k e) + calls k es (step hd e h)

abbrev pub waiting : ℕ → List Pending → ℕ
waiting k [] = 0
waiting k (p ∷ ps) = hit k p.call + waiting k ps

abbrev pub answered : ℕ → List (ℕ × Answer) → ℕ
answered k [] = 0
answered k (x ∷ xs) = hit k x.0 + answered k xs

abbrev pub handed_on : ℕ → List Binding → ℕ
handed_on k [] = 0
handed_on k (directory n d ∷ bs) = hit k n + handed_on k bs
handed_on k (b ∷ bs) = handed_on k bs

abbrev pub lost : ℕ → List ℕ → ℕ
lost k [] = 0
lost k (n ∷ ns) = hit k n + lost k ns

-- Where the callback of `k` is.
abbrev pub open_or_answered : ℕ → BucketHost → ℕ
open_or_answered k h =
    waiting k h.pending + answered k h.answers + handed_on k h.bindings + lost k h.dropped

-- What waits at a host that has been destroyed.
abbrev pub left_waiting : ℕ → BucketHost → ℕ
left_waiting k h = if h.is_removed then waiting k h.pending else 0
