-- ===== src/TorMain/Run/Ended.antt =====
-- What every run of app/startup/main.c comes to.
use tor_onion.Common.{
  ℕ, suc, ◌+◌, ◌≡◌, refl, Bool, true, false, not, ◌&&◌, ◌||◌, some, List, [], ◌∷◌, ◌++◌, arith,
  is_some, if◌then◌else◌, Bool-cases, Option-cases, inl, inr,
}
use tor_onion.Common.Int.{ℤ, negsuc}
use tor_onion.TorMain.Hup.{when_, is_zero}
use tor_onion.TorMain.Run.{
  RunCall, free_argv, tor_free_all, tor_cleanup, do_main_loop, tor_init, LoopAnswers,
  load_directory, load_journal, run_tor_main_loop, MainAnswers, run_command_result, finish_run,
  run_initialized, run_from_pubsub, tor_run_main, pubsub_connect_events, is_run_tor, run_sandboxed,
  sandbox_init_filter, sandbox_init, make_getaddrinfo_cache_active, subsystems_init,
  nt_service_parse_options, pubsub_install,
}

-- How often argv is freed, the process's state is cleaned up, and the main loop is entered.
unfoldable pub frees : List RunCall → ℕ
frees [] = 0
frees (free_argv ∷ cs) = suc (frees cs)
frees (_ ∷ cs) = frees cs

unfoldable pub cleanups : List RunCall → ℕ
cleanups [] = 0
cleanups (tor_free_all ∷ cs) = suc (cleanups cs)
cleanups (tor_cleanup ∷ cs) = suc (cleanups cs)
cleanups (_ ∷ cs) = cleanups cs

unfoldable pub main_loops : List RunCall → ℕ
main_loops [] = 0
main_loops (do_main_loop ∷ cs) = suc (main_loops cs)
main_loops (_ ∷ cs) = main_loops cs

-- What must succeed before the main loop is entered. The name servers need not.
abbrev pub can_start : LoopAnswers → Bool
can_start a =
    (a.client_identity_key_is_set || a.init_keys_ok)
    && (not a.authdir_mode_v3 || (a.journal_loaded && a.journal_opened))
    && a.consensus_reloaded
    && a.router_list_reloaded
    && a.cpuworkers_ok
    && (not a.authdir_mode_v3 || a.shared_random_ok)

load_directory_lem :
    (a : LoopAnswers)
    → let ok =
        a.consensus_reloaded
        && a.router_list_reloaded
        && a.cpuworkers_ok
        && (not a.authdir_mode_v3 || a.shared_random_ok) in
      ((load_directory a).0 ≡ (if ok then a.main_loop else negsuc 0))
      × (main_loops (load_directory a).1 ≡ (if ok then 1 else 0))
      × (frees (load_directory a).1 ≡ 0)
      × (cleanups (load_directory a).1 ≡ 0)
unfolding load_directory main_loops frees cleanups
load_directory_lem a = ground arith

load_journal_lem :
    (a : LoopAnswers)
    → let ok =
        (not a.authdir_mode_v3 || (a.journal_loaded && a.journal_opened))
        && a.consensus_reloaded
        && a.router_list_reloaded
        && a.cpuworkers_ok
        && (not a.authdir_mode_v3 || a.shared_random_ok) in
      ((load_journal a).0 ≡ (if ok then a.main_loop else negsuc 0))
      × (main_loops (load_journal a).1 ≡ (if ok then 1 else 0))
      × (frees (load_journal a).1 ≡ 0)
      × (cleanups (load_journal a).1 ≡ 0)
unfolding load_journal main_loops frees cleanups
load_journal_lem a = ground (arith, load_directory_lem a)

-- run_tor_main_loop enters the main loop, once, and returns its result exactly if the keys, the
-- key-pinning journal and the shared random state of an authority, the consensus, the router list and
-- the cpuworkers are there; otherwise it returns -1 without entering it. A dns_init that fails does
-- not matter.
pub run_tor_main_loop_lem :
    (a : LoopAnswers)
    → ((run_tor_main_loop a).0 ≡ (if can_start a then a.main_loop else negsuc 0))
      × (main_loops (run_tor_main_loop a).1 ≡ (if can_start a then 1 else 0))
      × (frees (run_tor_main_loop a).1 ≡ 0)
      × (cleanups (run_tor_main_loop a).1 ≡ 0)
unfolding run_tor_main_loop main_loops frees cleanups
run_tor_main_loop_lem a = ground (arith, load_journal_lem a)

frees-append : (cs ds : List RunCall) → frees (cs ++ ds) ≡ frees cs + frees ds
unfolding frees
frees-append [] ds = omega arith
frees-append (free_argv ∷ cs) ds = omega (arith, frees-append cs ds)
frees-append (_ ∷ cs) ds = frees-append cs ds

cleanups-append : (cs ds : List RunCall) → cleanups (cs ++ ds) ≡ cleanups cs + cleanups ds
unfolding cleanups
cleanups-append [] ds = omega arith
cleanups-append (tor_free_all ∷ cs) ds = omega (arith, cleanups-append cs ds)
cleanups-append (tor_cleanup ∷ cs) ds = omega (arith, cleanups-append cs ds)
cleanups-append (_ ∷ cs) ds = cleanups-append cs ds

run_command_result_lem :
    (a : MainAnswers) (r : ℤ) (cs : List RunCall)
    → run_command_result a ≡ some (r, cs)
    → (frees cs ≡ 0) × (cleanups cs ≡ 0)
unfolding run_command_result frees cleanups
run_command_result_lem a r cs e = ground (arith, run_tor_main_loop_lem a.loop)

abbrev end_calls : List RunCall
end_calls = tor_cleanup ∷ free_argv ∷ []

ended :
    (before calls : List RunCall)
    → frees before ≡ 0
    → cleanups before ≡ 0
    → frees calls ≡ 0
    → cleanups calls ≡ 0
    → (frees (before ++ (calls ++ end_calls)) ≡ 1) × (cleanups (before ++ (calls ++ end_calls)) ≡ 1)
unfolding frees cleanups
ended before calls f c g d = omega (
  arith,
  frees-append before (calls ++ end_calls),
  frees-append calls end_calls,
  cleanups-append before (calls ++ end_calls),
  cleanups-append calls end_calls,
)

-- A run that has come so far without freeing argv or cleaning up.
finish_run_lem :
    (a : MainAnswers) (before : List RunCall) (r : ℤ) (cs : List RunCall)
    → frees before ≡ 0
    → cleanups before ≡ 0
    → finish_run (run_command_result a) before ≡ some (r, cs)
    → (frees cs ≡ 1) × (cleanups cs ≡ 1)
finish_run_lem a before r cs f c e = elim (Option-cases (run_command_result a)) [
  | inl failed ↦ ground arith
  | inr ((q, calls), done) ↦
      let (f0, c0) = run_command_result_lem a q calls done in
      let whole : cs ≡ before ++ (calls ++ end_calls) = ground arith in
      rw whole (ended before calls f c f0 c0)
]

frees_when :
    (b : Bool)
    → (frees (when_ b pubsub_connect_events) ≡ 0) × (cleanups (when_ b pubsub_connect_events) ≡ 0)
unfolding frees cleanups
frees_when true = (refl, refl)
frees_when false = (refl, refl)

module _ (before : List RunCall) (f : frees before ≡ 0) (c : cleanups before ≡ 0) where
  connected :
      (b : Bool)
      → (frees (before ++ when_ b pubsub_connect_events) ≡ 0)
        × (cleanups (before ++ when_ b pubsub_connect_events) ≡ 0)
  connected b = omega (
    arith,
    frees-append before (when_ b pubsub_connect_events),
    cleanups-append before (when_ b pubsub_connect_events),
    frees_when b,
  )

  boxed :
      (frees (before ++ (sandbox_init_filter ∷ sandbox_init ∷ make_getaddrinfo_cache_active ∷ []))
        ≡ 0)
      × (cleanups
            (before ++ (sandbox_init_filter ∷ sandbox_init ∷ make_getaddrinfo_cache_active ∷ []))
          ≡ 0)
  unfolding frees cleanups
  boxed = omega (
    arith,
    frees-append before (sandbox_init_filter ∷ sandbox_init ∷ make_getaddrinfo_cache_active ∷ []),
    cleanups-append before
        (sandbox_init_filter ∷ sandbox_init ∷ make_getaddrinfo_cache_active ∷ []),
  )

  unboxed :
      (frees (before ++ (sandbox_init_filter ∷ sandbox_init ∷ free_argv ∷ tor_free_all ∷ [])) ≡ 1)
      × (cleanups (before ++ (sandbox_init_filter ∷ sandbox_init ∷ free_argv ∷ tor_free_all ∷ []))
          ≡ 1)
  unfolding frees cleanups
  unboxed = omega (
    arith,
    frees-append before (sandbox_init_filter ∷ sandbox_init ∷ free_argv ∷ tor_free_all ∷ []),
    cleanups-append before (sandbox_init_filter ∷ sandbox_init ∷ free_argv ∷ tor_free_all ∷ []),
  )

run_sandboxed_lem :
    (a : MainAnswers) (before : List RunCall) (r : ℤ) (cs : List RunCall)
    → frees before ≡ 0
    → cleanups before ≡ 0
    → run_sandboxed a before ≡ some (r, cs)
    → (frees cs ≡ 1) × (cleanups cs ≡ 1)
unfolding run_sandboxed
run_sandboxed_lem a before r cs f c e = elim (Bool-cases a.sandbox_init_ok) [
  | inl ok ↦
      finish_run_lem a
        (before ++ (sandbox_init_filter ∷ sandbox_init ∷ make_getaddrinfo_cache_active ∷ [])) r cs
        (boxed before f c).0 (boxed before f c).1 (ground arith)
  | inr bad ↦
      let whole : cs
          ≡ before ++ (sandbox_init_filter ∷ sandbox_init ∷ free_argv ∷ tor_free_all ∷ []) =
        ground arith in
      rw whole (unboxed before f c)
]

run_initialized_lem :
    (a : MainAnswers) (before : List RunCall) (r : ℤ) (cs : List RunCall)
    → frees before ≡ 0
    → cleanups before ≡ 0
    → run_initialized a before ≡ some (r, cs)
    → (frees cs ≡ 1) × (cleanups cs ≡ 1)
unfolding run_initialized
run_initialized_lem a before r cs f c e =
    let before' = before ++ when_ (is_run_tor a.command) pubsub_connect_events in
    let (f', c') = connected before f c (is_run_tor a.command) in
    elim (Bool-cases (a.sandbox && is_run_tor a.command)) [
      | inl boxed_in ↦ run_sandboxed_lem a before' r cs f' c' (ground arith)
      | inr free ↦ finish_run_lem a before' r cs f' c' (ground arith)
    ]

tor_init_lem : (rv : ℤ) → (frees (tor_init rv).1 ≡ 0) × (cleanups (tor_init rv).1 ≡ 0)
unfolding tor_init frees cleanups
tor_init_lem rv = ground arith

abbrev begun : List RunCall → List RunCall
begun calls = subsystems_init ∷ nt_service_parse_options ∷ pubsub_install ∷ calls

failed_init :
    (calls : List RunCall)
    → frees calls ≡ 0
    → cleanups calls ≡ 0
    → (frees (begun calls ++ (tor_free_all ∷ free_argv ∷ [])) ≡ 1)
      × (cleanups (begun calls ++ (tor_free_all ∷ free_argv ∷ [])) ≡ 1)
unfolding frees cleanups
failed_init calls f c = omega (
  arith,
  frees-append calls (tor_free_all ∷ free_argv ∷ []),
  cleanups-append calls (tor_free_all ∷ free_argv ∷ []),
)

run_from_pubsub_lem :
    (a : MainAnswers) (r : ℤ) (cs : List RunCall)
    → run_from_pubsub a ≡ some (r, cs)
    → (frees cs ≡ 1) × (cleanups cs ≡ 1)
unfolding run_from_pubsub
run_from_pubsub_lem a r cs e =
    let (f, c) = tor_init_lem a.init_rv in
    elim (Bool-cases (is_zero (tor_init a.init_rv).0)) [
      | inl ok ↦
          run_initialized_lem a (begun (tor_init a.init_rv).1) r cs (unfold frees in f)
            (unfold cleanups in c) (ground arith)
      | inr bad ↦
          let whole : cs ≡ begun (tor_init a.init_rv).1 ++ (tor_free_all ∷ free_argv ∷ []) =
            ground arith in
          rw whole (failed_init (tor_init a.init_rv).1 f c)
    ]

-- Every run of tor_run_main that returns has freed its copy of argv exactly once, and has cleaned up
-- exactly once (tor_cleanup, or tor_free_all after an error), unless the service of the system has
-- done all the work: whatever the configuration, the sandbox, the command and the main loop answer.
pub tor_run_main_ended :
    (a : MainAnswers) (r : ℤ) (calls : List RunCall)
    → tor_run_main a ≡ some (r, calls)
    → (frees calls ≡ 1) × (cleanups calls ≡ (if is_some a.nt_service_result then 0 else 1))
unfolding tor_run_main frees cleanups
tor_run_main_ended a r calls e = elim (Option-cases a.nt_service_result) [
  | inl ours ↦ ground (arith, run_from_pubsub_lem a r calls)
  | inr (result, done) ↦ ground arith
]
