-- ===== src/BucketHost/Lost.antt =====
-- A bucket that is gone (muim/bucket/host.cpp).
use tor_onion.Common.{
  ℕ, ◌≡◌, refl, ap, ◌∙◌, inl, inr, Bool-cases, true, false, not, Option, none, some, if◌then◌else◌,
}
use tor_onion.BucketHost.{
  remove_pending, answer_of, run_if, Header, Answer, flags_answer, estimate_answer,
  durability_answer, expires_answer, QuotaRequest, BucketHost, BucketContext, is_null, is_usage,
  run_callback, persist, persisted, estimate, durability, expires, find_pending, did_get_bucket,
  did_get_usage_and_quota,
}

-- The host after an error in reply to the request `q` of a call.
abbrev pub after_error : Header → BucketHost → ℕ → QuotaRequest → ℕ → ℕ → BucketHost
after_error hd h call q usage quota =
    if is_usage q
    then did_get_usage_and_quota hd h call false usage quota
    else did_get_bucket hd h call none

-- What Persist, Persisted, Estimate, Durability and Expires do on a bucket that is gone. The other calls
-- do not look whether it is null.
abbrev pub Refuses : BucketHost → Option BucketContext → ℕ → Type 0
Refuses lost context next =
    (persist lost context next ≡ run_callback lost next (flags_answer false false))
    × (persisted lost next ≡ run_callback lost next (flags_answer false false))
    × (estimate lost next ≡ run_callback lost next (estimate_answer 0 0 false))
    × (durability lost next ≡ run_callback lost next (durability_answer none false))
    × (expires lost next ≡ run_callback lost next (expires_answer none false))

null-Refuses :
    (h : BucketHost) (context : Option BucketContext) (next : ℕ)
    → is_null h ≡ true
    → Refuses h context next
unfolding persist persisted estimate durability expires
null-Refuses h context next e = (
  rw (e, persist) refl,
  rw (e, persisted) refl,
  rw (e, estimate) refl,
  rw (e, durability) refl,
  rw (e, expires) refl,
)

-- The bucket that a callback is given does not change with the answer.
run_if-null :
    (h : BucketHost) (call : ℕ) (a : Option Answer) → is_null (run_if h call a) ≡ is_null h
unfolding run_callback is_null
run_if-null h call none = refl
run_if-null h call (some a) = refl

usage_error-null :
    (hd : Header) (h : BucketHost) (call usage quota : ℕ) (q : QuotaRequest)
    → find_pending call h.pending ≡ some q
    → is_usage q ≡ true
    → is_null (did_get_usage_and_quota hd h call false usage quota) ≡ true
unfolding did_get_usage_and_quota is_null run_callback
usage_error-null hd h call usage quota q found u =
    rw (found, did_get_usage_and_quota) (rw (u, did_get_usage_and_quota) (ap not hd.null_id))

bucket_error-null :
    (hd : Header) (h : BucketHost) (call : ℕ) (q : QuotaRequest)
    → find_pending call h.pending ≡ some q
    → is_usage q ≡ false
    → is_null (did_get_bucket hd h call none) ≡ true
unfolding did_get_bucket is_null
bucket_error-null hd h call q found u =
    let gone : BucketHost = record h {
      bucket_info = hd.null_info;
      pending = remove_pending call h.pending;
    } in
    rw (found, did_get_bucket)
      (rw (u, did_get_bucket)
        (run_if-null gone call (answer_of q hd.null_info false) ∙ ap not hd.null_id))

error-null :
    (hd : Header) (h : BucketHost) (call usage quota : ℕ) (q : QuotaRequest)
    → find_pending call h.pending ≡ some q
    → is_null (after_error hd h call q usage quota) ≡ true
error-null hd h call usage quota q found = elim (Bool-cases (is_usage q)) [
  | inl u ↦ rw u (usage_error-null hd h call usage quota q found u)
  | inr u ↦ rw u (bucket_error-null hd h call q found u)
]

-- An error in reply to any request loses the bucket: it is null, and Persist, Persisted, Estimate,
-- Durability and Expires then fail at once, without asking the quota manager.
pub error_loses_bucket :
    (hd : Header) (h : BucketHost) (call next usage quota : ℕ) (context : Option BucketContext)
    (q : QuotaRequest)
    → find_pending call h.pending ≡ some q
    → (is_null (after_error hd h call q usage quota) ≡ true)
      × Refuses (after_error hd h call q usage quota) context next
error_loses_bucket hd h call next usage quota context q found =
    let lost = error-null hd h call usage quota q found in
    (lost, null-Refuses (after_error hd h call q usage quota) context next lost)
