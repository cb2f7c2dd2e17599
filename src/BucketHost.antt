-- ===== src/BucketHost.antt =====
-- muim/bucket/host.cpp: BucketHost, which answers the calls on one storage bucket, at once or when
-- the quota manager replies. A call carries a number for its callback; running the callback appends
-- the number and the answer to `answers`; a callback that is destroyed without having been run is in
-- `dropped`, one that is handed on with a directory is in `bindings`. The replies of the quota manager
-- may come in any order; they are bound to a weak pointer, which drops them once the host is gone.
pub mod Events
pub mod Account
pub mod Lost
mod Tests
use tor_onion.Common.{
  ℕ, suc, ◌-◌, ◌≡◌, Bool, true, false, not, ◌||◌, Option, none, some, List, [], ◌∷◌, ◌++◌, ◌==◌,
  if◌then◌else◌, is_some,
}

-- storage::BucketInfo: without an id it is null.
pub record BucketInfo : Type 0 where
  pub id : Option ℕ
  pub persistent : Bool
  pub durability : ℕ
  pub expiration : Option ℕ

-- BucketInfo() of the header.
pub record Header : Type 0 where
  pub null_info : BucketInfo
  pub null_id : is_some null_info.id ≡ false

pub data Answer : Type 0 where
  flags_answer : Bool → Bool → Answer
  estimate_answer : ℕ → ℕ → Bool → Answer
  durability_answer : Option ℕ → Bool → Answer
  success_answer : Bool → Answer
  expires_answer : Option ℕ → Bool → Answer

-- What the quota manager is asked, and what is done with its reply.
pub data QuotaRequest : Type 0 where
  update_persistence persisted_request usage_request durability_request : QuotaRequest
  update_expiration : ℕ → QuotaRequest
  expires_request : QuotaRequest

pub record Pending : Type 0 where
  pub call : ℕ
  pub request : QuotaRequest

-- What is bound elsewhere for a receiver.
pub data Binding : Type 0 where
  idb_factory cache_storage lock_manager : Binding
  directory : ℕ → List ℕ → Binding

pub record BucketHost : Type 0 where
  pub bucket_info : BucketInfo
  pub receivers : ℕ
  pub pending : List Pending
  pub answers : List (ℕ × Answer)
  pub bindings : List Binding
  pub dropped : List ℕ
  pub is_removed : Bool

-- The receiver that is being served, if its context is alive.
pub record BucketContext : Type 0 where
  pub is_permission_granted : Bool
  pub has_state_checker : Bool

pub is_null : BucketHost → Bool
is_null h = not (is_some h.bucket_info.id)

pub run_callback : BucketHost → ℕ → Answer → BucketHost
run_callback h call a = record h { answers = h.answers ++ ((call, a) ∷ []) }

pub ask_quota_manager : BucketHost → ℕ → QuotaRequest → BucketHost
ask_quota_manager h call request = record h {
  pending = h.pending ++ (record { call = call; request = request } ∷ []);
}

pub add_receiver : BucketHost → BucketHost
add_receiver h = record h { receivers = suc h.receivers }

abbrev is_granted : Option BucketContext → Bool
is_granted none = false
is_granted (some c) = c.is_permission_granted

pub persist : BucketHost → Option BucketContext → ℕ → BucketHost
unfolding is_null run_callback ask_quota_manager
persist h context call =
    if is_null h || not (is_some context)
    then run_callback h call (flags_answer false false)
    else if h.bucket_info.persistent
    then run_callback h call (flags_answer true true)
    else if is_granted context
    then ask_quota_manager h call update_persistence
    else run_callback h call (flags_answer false true)

pub persisted : BucketHost → ℕ → BucketHost
unfolding is_null run_callback ask_quota_manager
persisted h call =
    if is_null h
    then run_callback h call (flags_answer false false)
    else ask_quota_manager h call persisted_request

pub estimate : BucketHost → ℕ → BucketHost
unfolding is_null run_callback ask_quota_manager
estimate h call =
    if is_null h
    then run_callback h call (estimate_answer 0 0 false)
    else ask_quota_manager h call usage_request

pub durability : BucketHost → ℕ → BucketHost
unfolding is_null run_callback ask_quota_manager
durability h call =
    if is_null h
    then run_callback h call (durability_answer none false)
    else ask_quota_manager h call durability_request

pub set_expires : BucketHost → ℕ → ℕ → BucketHost
unfolding ask_quota_manager
set_expires h expires call = ask_quota_manager h call (update_expiration expires)

pub expires : BucketHost → ℕ → BucketHost
unfolding is_null run_callback ask_quota_manager
expires h call =
    if is_null h
    then run_callback h call (expires_answer none false)
    else ask_quota_manager h call expires_request

-- The callbacks that DidGetBucket runs: DidValidateForPersist, DidValidateForDurability,
-- DidValidateForExpires and the caller's own. An estimate has none of them.
pub answer_of : QuotaRequest → BucketInfo → Bool → Option Answer
answer_of update_persistence info exists = some (flags_answer info.persistent exists)
answer_of persisted_request info exists = some (flags_answer info.persistent exists)
answer_of usage_request info exists = none
answer_of durability_request info exists = some (durability_answer (some info.durability) exists)
answer_of (update_expiration t) info exists = some (success_answer exists)
answer_of expires_request info exists =
    some (expires_answer (if exists then info.expiration else none) exists)

abbrev is_usage : QuotaRequest → Bool
is_usage usage_request = true
is_usage _ = false

-- The request of a call, taken off the list.
unfoldable pub find_pending : ℕ → List Pending → Option QuotaRequest
find_pending call [] = none
find_pending call (p ∷ ps) = if p.call == call then some p.request else find_pending call ps

pub remove_pending : ℕ → List Pending → List Pending
remove_pending call [] = []
remove_pending call (p ∷ ps) = if p.call == call then ps else p ∷ remove_pending call ps

abbrev info_or : Option BucketInfo → BucketInfo → BucketInfo
info_or none d = d
info_or (some i) d = i

abbrev run_if : BucketHost → ℕ → Option Answer → BucketHost
run_if h call none = h
run_if h call (some a) = run_callback h call a

module _ (hd : Header) where
  -- The reply to a request that DidGetBucket waits for: the bucket, or an error.
  pub did_get_bucket : BucketHost → ℕ → Option BucketInfo → BucketHost
  unfolding find_pending remove_pending answer_of run_callback
  did_get_bucket h call reply = elim (find_pending call h.pending) [
    | none ↦ h
    | some request ↦
        if is_usage request
        then h
        else let info : BucketInfo = info_or reply hd.null_info in
          let h' : BucketHost = record h {
            bucket_info = info;
            pending = remove_pending call h.pending;
          } in
          run_if h' call (answer_of request info (is_some reply))
  ]

  -- The reply to a request for usage and quota; `is_ok` is that the code is kOk.
  pub did_get_usage_and_quota : BucketHost → ℕ → Bool → ℕ → ℕ → BucketHost
  unfolding find_pending remove_pending run_callback
  did_get_usage_and_quota h call is_ok usage quota = elim (find_pending call h.pending) [
    | none ↦ h
    | some request ↦
        if not (is_usage request)
        then h
        else let h' : BucketHost = record h {
          bucket_info = if not is_ok then hd.null_info else h.bucket_info;
          pending = remove_pending call h.pending;
        } in
          run_callback h' call (estimate_answer usage quota is_ok)
  ]

abbrev bind_if : Bool → Binding → BucketHost → BucketHost
bind_if ok b h = if ok then record h { bindings = h.bindings ++ (b ∷ []) } else h

abbrev has_checker : Option BucketContext → Bool
has_checker none = false
has_checker (some c) = c.has_state_checker

pub get_idb_factory : BucketHost → Option BucketContext → BucketHost
get_idb_factory h context = bind_if (has_checker context) idb_factory h

pub get_caches : BucketHost → Option BucketContext → BucketHost
get_caches h context = bind_if (is_some context) cache_storage h

pub drop_callback : BucketHost → ℕ → BucketHost
drop_callback h call = record h { dropped = h.dropped ++ (call ∷ []) }

-- Without a context the call returns, and its callback is destroyed.
pub get_directory_for_devtools : BucketHost → Option BucketContext → List ℕ → ℕ → BucketHost
unfolding drop_callback
get_directory_for_devtools h context components call =
    if not (is_some context)
    then drop_callback h call
    else record h { bindings = h.bindings ++ (directory call components ∷ []) }

pub get_directory : BucketHost → Option BucketContext → ℕ → BucketHost
unfolding drop_callback
get_directory h context call =
    if not (is_some context)
    then drop_callback h call
    else record h { bindings = h.bindings ++ (directory call [] ∷ []) }

pub get_lock_manager : BucketHost → BucketHost
get_lock_manager h = bind_if true lock_manager h

abbrev pub pending_calls : List Pending → List ℕ
pending_calls [] = []
pending_calls (p ∷ ps) = p.call ∷ pending_calls ps

-- A receiver has gone; with the last one the manager destroys the host, and the weak pointers drop
-- what waits for a reply.
pub on_receiver_disconnected : BucketHost → BucketHost
on_receiver_disconnected h =
    let h' : BucketHost = record h { receivers = h.receivers - 1 } in
    if not (h'.receivers == 0) then h' else record h' {
      is_removed = true;
      pending = [];
      dropped = h'.dropped ++ pending_calls h'.pending;
    }
