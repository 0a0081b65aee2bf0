-- ===== src/Schedule/Reconcile/Laws.antt =====
-- When snapshots are taken.
use questdb_operator.Prelude.{
  ℕ, ◌≡◌, refl, true, false, Bool, nat_eq, Option, none, some, List, [], ◌∷◌, arith,
}
use questdb_operator.Cron.{Cron}
use questdb_operator.Kube.Error.{ok, err}
use questdb_operator.Kube.Meta.{NamespacedName, MetaLib}
use questdb_operator.Schedule.Calls.{Client, Call, GoLib, updated_status, read_clock}
use questdb_operator.Schedule.Reconcile.{reconcile}
use questdb_operator.Schedule.Reconcile.Guard.{RetryRuns, creations_guarded, reconcile-Good}

-- The latest status that the server took, if the latest update was taken, has the time `t`.
abbrev pub is_recorded : ℕ → List Call → Bool
is_recorded t [] = false
is_recorded t (updated_status sched (ok _) ∷ calls) = nat_eq sched.status.last_snapshot t
is_recorded t (updated_status sched (err _) ∷ calls) = false
is_recorded t (_ ∷ calls) = is_recorded t calls

abbrev pub latest_clock : List Call → Option ℕ
latest_clock [] = none
latest_clock (read_clock t ∷ calls) = some t
latest_clock (_ ∷ calls) = latest_clock calls

-- The latest reading of the clock was written to the status, and the server took it.
abbrev pub is_prepared : List Call → Bool
is_prepared calls = elim (latest_clock calls) [ none ↦ false | some t ↦ is_recorded t calls ]

-- Each creation came after the time was stored.
abbrev pub creations_prepared : List Call → Bool
creations_prepared = creations_guarded is_prepared

module _ {W : Type 0} (client : Client W) (lib : MetaLib) (go : GoLib W) (cron : Cron)
    (runs : RetryRuns go) where
  -- If a retry does nothing but run its closure, then, whatever the server answers, a
  -- reconciliation creates a snapshot only after the time that it read last was written to the
  -- schedule as that of its last snapshot and the server took that status.
  pub reconcile-creations_prepared :
      (req : NamespacedName) (w : W)
      → creations_prepared (reconcile client lib go cron req (record { world = w; log = [] })).1.log
        ≡ true
  reconcile-creations_prepared req w =
      reconcile-Good client lib go cron runs is_prepared (λ snap r calls. refl) (λ _. Unit {0})
        (record {
          retention = λ sched stored s q e. tt;
          phase = λ latest sched stored s q e. tt;
          clock =
              λ sched children now w' calls q crontab parsed due stored taken free. ground arith;
        })
        req w (λ found e. tt)
