-- ===== src/TorVersion/Protover/Transparent.antt =====
-- The map of networking/lib/version.c's summaries, beside summaries that are computed each time.
use tor_onion.Common.{
  ◌+◌, ◌≤◌, ◌≡◌, refl, Bool, Option, none, some, List, [], ◌∷◌, arith, All, length, value_or,
  if◌then◌else◌, is_empty, leb, ◌>>=◌, Bool-cases, Option-cases, inl, inr,
}
use tor_onion.MountPoints.Lex.{Bytes, eqb_iff}
use tor_onion.MountPoints.SortedMap.{lookup, put, All-put}
use tor_onion.TorVersion.Protover.{
  Summary, ProtocolLists, SummaryMap, summary_of, remember_summary, find_or_remember,
  new_summary_map, map_with_room, memoize_protover_summary, protover_summary_cache_free_all,
  filter_if_tor, memoize_if, summarize_protover_flags, no_flags, max_protover_summary_map_len,
}

pub data Request : Type 0 where
  summarize : Option Bytes → Option Bytes → Request
  free_all : Request

length-put :
    (k : Bytes) (v : Summary) (m : List (Bytes × Summary)) → length (put k v m) ≤ length m + 1
unfolding put
length-put k v [] = omega arith
length-put k v ((j, w) ∷ m) = ground (arith, length-put k v m)

module _ (lists : ProtocolLists) where
  -- Every entry is what would be computed, and there is a bound on how many there are.
  record Remembers (m : SummaryMap) : Type 0 where
    right : All (λ e. e.1 ≡ summary_of lists e.0) (value_or m [])
    bounded : length (value_or m []) ≤ 1024

  lookup-right :
      (k : Bytes) (m : List (Bytes × Summary)) (c : Summary)
      → All (λ e. e.1 ≡ summary_of lists e.0) m
      → lookup k m ≡ some c
      → c ≡ summary_of lists k
  unfolding lookup
  lookup-right k [] c h e = cc
  lookup-right k ((j, w) ∷ m) c h e = ground (arith, eqb_iff j k, lookup-right k m c)

  AllRight : List (Bytes × Summary) → Type 0
  AllRight m = All (λ e. e.1 ≡ summary_of lists e.0) m

  -- The map that is searched has room for one more.
  room :
      (m : SummaryMap)
      → Remembers m
      → (m1 : List (Bytes × Summary)) × (map_with_room m ≡ some m1)
        × AllRight m1
        × (length m1 ≤ 1023)
  unfolding map_with_room protover_summary_cache_free_all new_summary_map AllRight
  room m r = elim (Bool-cases (leb max_protover_summary_map_len (length (value_or m [])))) [
    | inl full ↦ ([], rw (full, map_with_room) refl, tt, omega arith)
    | inr free ↦ (value_or m [], rw (free, map_with_room) refl, r.right, ground arith)
  ]

  -- A list that is not in the map is put into it, without a failed assertion.
  remember_lem :
      (protocols : Bytes) (m : List (Bytes × Summary))
      → lookup protocols m ≡ none
      → AllRight m
      → length m ≤ 1023
      → (m' : SummaryMap) × (remember_summary lists protocols m
          ≡ some (summary_of lists protocols, m'))
        × Remembers m'
  unfolding remember_summary AllRight
  remember_lem protocols m miss h n = (
    some (put protocols (summary_of lists protocols) m),
    rw (miss, remember_summary) refl,
    record {
      right =
          All-put (λ e. e.1 ≡ summary_of lists e.0) protocols (summary_of lists protocols) m refl h;
      bounded = omega (arith, length-put protocols (summary_of lists protocols) m);
    },
  )

  find_lem :
      (protocols : Bytes) (m : List (Bytes × Summary))
      → AllRight m
      → length m ≤ 1023
      → (m' : SummaryMap) × (find_or_remember lists protocols m
          ≡ some (summary_of lists protocols, m'))
        × Remembers m'
  unfolding find_or_remember AllRight
  find_lem protocols m h n = elim (Option-cases (lookup protocols m)) [
    | inl miss ↦
        let (m', e, r') = remember_lem protocols m miss h n in
        (m', rw (miss, find_or_remember) e, r')
    | inr (c, hit) ↦
        let same : c ≡ summary_of lists protocols = lookup-right protocols m c h hit in
        (
          some m,
          rw (hit, find_or_remember) (rw same refl),
          record { right = h; bounded = omega arith },
        )
  ]

  memoize_lem :
      (protocols : Bytes) (m : SummaryMap)
      → Remembers m
      → (m' : SummaryMap) × (memoize_protover_summary lists protocols m
          ≡ some (summary_of lists protocols, m'))
        × Remembers m'
  unfolding memoize_protover_summary
  memoize_lem protocols m r =
      let (m1, searched, h, n) = room m r in
      let (m', e, r') = find_lem protocols m1 h n in
      (m', rw (searched, memoize_protover_summary) e, r')

  free_lem : (m : SummaryMap) → Remembers (protover_summary_cache_free_all m)
  unfolding protover_summary_cache_free_all
  free_lem m = record { right = tt; bounded = omega arith }

module _ (lists : ProtocolLists) (as_new_as : Bytes → Bytes → Bool) where
  -- The flags without a map.
  unfoldable pub fresh_flags : Option Bytes → Summary
  fresh_flags none = no_flags
  fresh_flags (some protocols) = if is_empty protocols then no_flags else summary_of lists protocols

  -- The answers to a sequence of calls, and the map after it.
  unfoldable pub run_requests : List Request → SummaryMap → Option (List Summary × SummaryMap)
  run_requests [] m = some ([], m)
  run_requests (free_all ∷ rest) m = run_requests rest (protover_summary_cache_free_all m)
  run_requests (summarize protocols version ∷ rest) m =
      summarize_protover_flags lists as_new_as protocols version m >>= λ (out, m1).
      run_requests rest m1 >>= λ (outs, m2). some (out ∷ outs, m2)

  -- What is promised: each call answers for itself.
  unfoldable pub answers_to : List Request → List Summary
  answers_to [] = []
  answers_to (free_all ∷ rest) = answers_to rest
  answers_to (summarize protocols version ∷ rest) =
      filter_if_tor lists as_new_as version (fresh_flags protocols) ∷ answers_to rest

  memoize_if_lem :
      (protocols : Option Bytes) (m : SummaryMap)
      → Remembers lists m
      → (m' : SummaryMap) × (memoize_if lists as_new_as protocols m
          ≡ some (fresh_flags protocols, m'))
        × Remembers lists m'
  unfolding fresh_flags memoize_if
  memoize_if_lem none m r = (m, refl, r)
  memoize_if_lem (some protocols) m r = elim (Bool-cases (is_empty protocols)) [
    | inl none_listed ↦ (m, rw none_listed refl, r)
    | inr listed ↦ let (m', e, r') = memoize_lem lists protocols m r in (m', rw listed e, r')
  ]

  run_requests_lem :
      (requests : List Request) (m : SummaryMap)
      → Remembers lists m
      → (m' : SummaryMap) × (run_requests requests m ≡ some (answers_to requests, m'))
        × Remembers lists m'
  unfolding run_requests answers_to summarize_protover_flags
  run_requests_lem [] m r = (m, refl, r)
  run_requests_lem (free_all ∷ rest) m r = run_requests_lem rest _ (free_lem lists m)
  run_requests_lem (summarize protocols version ∷ rest) m r =
      let (m1, e, r1) = memoize_if_lem protocols m r in
      let (m2, e2, r2) = run_requests_lem rest m1 r1 in (m2, rw e (rw e2 refl), r2)

  -- From the NULL map on, through any sequence of calls of summarize_protover_flags and
  -- protover_summary_cache_free_all: no assertion fails, every answer is the one that is computed
  -- from the list and the version alone, and the map never holds more than 1024 lists.
  pub run_requests-answers_to :
      (requests : List Request)
      → (m : SummaryMap) × (run_requests requests none ≡ some (answers_to requests, m))
        × (length (value_or m []) ≤ 1024)
  run_requests-answers_to requests =
      let (m, e, r) =
        run_requests_lem requests none (record { right = tt; bounded = omega arith }) in
      (m, e, r.bounded)
