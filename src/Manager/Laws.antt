-- ===== src/Manager/Laws.antt =====
-- That the manager starts with everything registered, or not at all.
use questdb_operator.Prelude.{
  some, if◌then◌else◌, ◌&&◌, sym, subst, ◌≡◌, inl, inr, refl, Bool, true, false, none, List, [],
  ◌∷◌, arith, any,
}
use questdb_operator.Kube.Error.{error_of, Result-cases}
use questdb_operator.Kube.Exec.{Exec, State, ◌>>◌}
use questdb_operator.Manager.{
  add_to_scheme, client_go, volume_snapshot_v1, crd_v1beta1, init, run_process, Flags, Step, Call,
  Manager, new_manager, setup_controller, setup_webhook, add_healthz_check, add_readyz_check, start,
  options_of, questdb_controller, snapshot_controller, schedule_controller, questdb_webhook,
  snapshot_webhook, schedule_webhook, main, exit_code, must,
}

abbrev is_start : Step → Bool
is_start start = true
is_start _ = false

-- The manager was started.
abbrev pub has_started : List Call → Bool
has_started = any (λ c. is_start c.step)

-- The call of the manager that was made last had no error.
abbrev pub no_error : List Call → Bool
no_error [] = true
no_error (c ∷ calls) = elim c.error [ none ↦ true | some e ↦ false ]

abbrev done : Step → Call
done step = record { step = step; error = none }

-- All that is registered, the last first.
abbrev pub registered : Flags → List Call
registered flags =
    done (add_readyz_check "readyz")
    ∷ done (add_healthz_check "healthz")
    ∷ done (setup_webhook schedule_webhook)
    ∷ done (setup_webhook questdb_webhook)
    ∷ done (setup_webhook snapshot_webhook)
    ∷ done (setup_controller schedule_controller)
    ∷ done (setup_controller snapshot_controller)
    ∷ done (setup_controller questdb_controller)
    ∷ done (new_manager (options_of flags))
    ∷ done (add_to_scheme crd_v1beta1)
    ∷ done (add_to_scheme volume_snapshot_v1)
    ∷ done (add_to_scheme client_go)
    ∷ []

module _ {W : Type 0} (manager : Manager W) where
  -- What a program leaves behind that starts the manager: `f` says what it does before.
  abbrev Starts : (List Call → List Call) → Exec W Call (Unit {0}) → Type 0
  Starts f m =
      (s : State W Call)
      → has_started s.log ≡ false
      → has_started (m s).1.log ≡ true
      → (m s).1.log ≡ record { step = start; error = error_of (m s).0 } ∷ f s.log

  start-Starts : Starts (λ calls. calls) (must manager start)
  start-Starts s before after = refl

  must-Starts :
      (step : Step) (f : List Call → List Call) (m : Exec W Call (Unit {0}))
      → is_start step ≡ false
      → Starts f m
      → Starts (λ calls. f (done step ∷ calls)) (must manager step >> m)
  must-Starts step f m other starts s before after =
      let (answer, w) = manager step s.world in
      let s1 : State W Call = record {
        world = w;
        log = record { step = step; error = error_of answer } ∷ s.log;
      } in
      elim (Result-cases answer) [
        | inr (e, bad) ↦ ground (arith, bad)
        | inl (u, good) ↦ ground (arith, good, starts s1)
      ]

  main-Starts :
      (flags : Flags)
      → Starts
          (λ calls.
            done (add_readyz_check "readyz")
            ∷ done (add_healthz_check "healthz")
            ∷ done (setup_webhook schedule_webhook)
            ∷ done (setup_webhook questdb_webhook)
            ∷ done (setup_webhook snapshot_webhook)
            ∷ done (setup_controller schedule_controller)
            ∷ done (setup_controller snapshot_controller)
            ∷ done (setup_controller questdb_controller)
            ∷ done (new_manager (options_of flags))
            ∷ calls)
          (main manager flags)
  unfolding main
  main-Starts flags =
      (must-Starts (new_manager (options_of flags)) _ _ refl (
        must-Starts (setup_controller questdb_controller) _ _ refl (
          must-Starts (setup_controller snapshot_controller) _ _ refl (
            must-Starts (setup_controller schedule_controller) _ _ refl (
              must-Starts (setup_webhook snapshot_webhook) _ _ refl (
                must-Starts (setup_webhook questdb_webhook) _ _ refl (
                  must-Starts (setup_webhook schedule_webhook) _ _ refl (
                    must-Starts (add_healthz_check "healthz") _ _ refl
                      (must-Starts (add_readyz_check "readyz") _ _ refl (start-Starts))))))))))

  -- Whatever the libraries answer, if the process starts the manager, then once and after it has added
  -- the three packages of types and registered the three controllers, the three webhooks and the two
  -- checks, in this order and each without an error.
  pub run_process-registered :
      (flags : Flags) (w : W)
      → let (answer, s) = run_process manager flags (record { world = w; log = [] }) in
        has_started s.log ≡ true
        → s.log ≡ record { step = start; error = error_of answer } ∷ registered flags
  unfolding init
  run_process-registered flags w =
      let begin : State W Call = record { world = w; log = [] } in
      let same : run_process manager flags begin
          ≡ (must manager (add_to_scheme client_go)
                >> (must manager (add_to_scheme volume_snapshot_v1)
                    >> (must manager (add_to_scheme crd_v1beta1) >> main manager flags)))
              begin =
        ground arith in
      let whole = must-Starts (add_to_scheme client_go) _ _ refl (
        must-Starts (add_to_scheme volume_snapshot_v1) _ _ refl
          (must-Starts (add_to_scheme crd_v1beta1) _ _ refl (main-Starts flags))) in
      subst
        (λ r.
          has_started r.1.log ≡ true
          → r.1.log ≡ record { step = start; error = error_of r.0 } ∷ registered flags)
        (sym same) (whole begin refl)

-- Whatever the manager answers, the process exits with 0 exactly if the manager was started and ended
-- without an error, and with 1 otherwise.
pub main-exit_code :
    {W : Type 0} (manager : Manager W) (flags : Flags) (w : W)
    → let (answer, s) = main manager flags (record { world = w; log = [] }) in
      exit_code answer ≡ (if has_started s.log && no_error s.log then 0 else 1)
unfolding main
main-exit_code manager flags w = ground arith
