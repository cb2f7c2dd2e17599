-- ===== src/BucketHost/Tests.antt =====
-- The theorems on BucketHost (muim/bucket/host.cpp) at a concrete bucket.
use tor_onion.Common.{◌+◌, ◌≡◌, refl, true, false, none, some, List, [], ◌∷◌}
use tor_onion.BucketHost.{
  BucketInfo, Header, BucketHost, usage_request, Pending, flags_answer, expires_answer, is_null,
  find_pending,
}
use tor_onion.BucketHost.Events.{
  Event, calls_persisted, calls_expires, bucket_reply, disconnects, run, open_or_answered, calls,
  left_waiting,
}
use tor_onion.BucketHost.Account.{run-account}
use tor_onion.BucketHost.Lost.{after_error, Refuses, error_loses_bucket}

abbrev info : BucketInfo
info = record { id = some 3; persistent = true; durability = 1; expiration = some 90 }

abbrev header : Header
header = record {
  null_info = record { id = none; persistent = false; durability = 0; expiration = none };
  null_id = refl;
}

abbrev host : BucketHost
host = record {
  bucket_info = info;
  receivers = 1;
  pending = [];
  answers = [];
  bindings = [];
  dropped = [];
  is_removed = false;
}

-- The second call is answered before the first.
abbrev events : List Event
events =
    calls_persisted 1
    ∷ calls_expires 2
    ∷ bucket_reply 2 (some info)
    ∷ bucket_reply 1 none
    ∷ calls_persisted 3
    ∷ []

answers_here :
    (run header events host).answers
    ≡ (2, expires_answer (some 90) true)
      ∷ (1, flags_answer false false)
      ∷ (3, flags_answer false false)
      ∷ []
unfolding run tor_onion.BucketHost.Events.step tor_onion.BucketHost.persisted
    tor_onion.BucketHost.did_get_bucket tor_onion.BucketHost.expires
answers_here = refl

run-account_example :
    (open_or_answered 1 (run header events host)
      ≡ calls header 1 events host + open_or_answered 1 host)
    × (left_waiting 1 (run header events host) ≡ 0)
run-account_example = run-account header 1 events host refl

-- The first call waits when the last receiver goes, and its callback is dropped; what comes later
-- reaches nothing.
dropped_here :
    run header
      (calls_persisted 1 ∷ disconnects ∷ bucket_reply 1 (some info) ∷ calls_persisted 2 ∷ [])
      host
    ≡ record host { receivers = 0; dropped = 1 ∷ []; is_removed = true }
unfolding run tor_onion.BucketHost.Events.step tor_onion.BucketHost.persisted
    tor_onion.BucketHost.on_receiver_disconnected
dropped_here = refl

abbrev asked : BucketHost
asked = record host { pending = record { call = 5; request = usage_request } ∷ [] }

error_loses_bucket_example :
    (is_null (after_error header asked 5 usage_request 0 0) ≡ true)
    × Refuses (after_error header asked 5 usage_request 0 0) none 6
unfolding find_pending
error_loses_bucket_example = error_loses_bucket header asked 5 6 0 0 none usage_request refl
