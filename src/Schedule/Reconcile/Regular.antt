-- ===== src/Schedule/Reconcile/Regular.antt =====
-- Servers that know a schedule by its resource version, and how far a reconciliation may take it.
pub mod Steps
pub mod Runs
pub mod Laws
use questdb_operator.Prelude.{
  ℕ, String, ◌≡◌, ◌≤◌, ◌⊎◌, inl, inr, refl, ◌∙◌, subst, sym, some, List, [], ◌∷◌, arith,
}
use questdb_operator.Cron.{Cron, NextIsLater}
use questdb_operator.Kube.Error.{Result, ok}
use questdb_operator.Kube.Meta.{NamespacedName, object_key}
use questdb_operator.Kube.Exec.{State}
use questdb_operator.Kube.Exec.Moves.{IsPreorder}
use questdb_operator.Api.Types.{QuestDbSnapshot, QuestDbSnapshotSchedule}
use questdb_operator.Schedule.Calls.{Client, Call}
use questdb_operator.Schedule.Children.{build_crontab, get_last_snapshot_time}
use questdb_operator.Schedule.Reconcile.Timing.{creations}

-- The same time, or one at or past the next time of the cron text.
abbrev pub IsSpaced : (cron : Cron) → Cron.Crontab cron → ℕ → ℕ → Type 0
IsSpaced cron crontab a b = (a ≡ b) ⊎ (Cron.next cron crontab a ≤ b)

-- A version of the schedule with this key and this cron text, where `last_of` tells which last time
-- the schedule had at a resource version.
abbrev pub IsVersion :
    (cron : Cron)
    → Cron.Crontab cron
    → NamespacedName
    → (String → ℕ)
    → QuestDbSnapshotSchedule
    → Type 0
IsVersion cron crontab key last_of sched =
    (object_key sched.meta ≡ key)
    × (last_of sched.meta.resource_version ≡ get_last_snapshot_time sched)
    × (build_crontab cron sched ≡ some crontab)

-- A server on which the schedule with this key has a last time and always this cron text, and which
-- tells its versions apart. Others may write the schedule before and behind each call, and record
-- runs of their own that are spaced. A read is answered with some version, perhaps an old one. A
-- status is taken only from the version that is there at that time, also where the answer does not
-- tell that it was taken; else it is refused.
pub record Versioned {W : Type 0} (client : Client W) (cron : Cron) (crontab : Cron.Crontab cron)
    (key : NamespacedName) (last : W → ℕ) (last_of : String → ℕ) : Type 0 where
  pub read :
      (w : W) (sched : QuestDbSnapshotSchedule)
      → (client.get_schedule key w).0 ≡ ok sched
      → IsVersion cron crontab key last_of sched
  pub update :
      (sched r : QuestDbSnapshotSchedule) (w : W)
      → IsVersion cron crontab key last_of sched
      → (client.update_schedule sched w).0 ≡ ok r
      → IsVersion cron crontab key last_of r
  pub status :
      (sched r : QuestDbSnapshotSchedule) (w : W)
      → object_key sched.meta ≡ key
      → build_crontab cron sched ≡ some crontab
      → (client.update_schedule_status sched w).0 ≡ ok r
      → IsVersion cron crontab key last_of r
        × IsSpaced cron crontab (last w) (last_of sched.meta.resource_version)
        × IsSpaced cron crontab
            (get_last_snapshot_time sched)
            (last (client.update_schedule_status sched w).1)
  pub status_moves :
      (sched : QuestDbSnapshotSchedule) (w : W)
      → object_key sched.meta ≡ key
      → let w' = (client.update_schedule_status sched w).1 in
        IsSpaced cron crontab (last w) (last w')
        ⊎ (IsSpaced cron crontab (last w) (last_of sched.meta.resource_version)
            × IsSpaced cron crontab (get_last_snapshot_time sched) (last w'))
  pub update_moves :
      (sched : QuestDbSnapshotSchedule) (w : W)
      → object_key sched.meta ≡ key
      → IsSpaced cron crontab (last w) (last (client.update_schedule sched w).1)
  pub read_moves : (w : W) → IsSpaced cron crontab (last w) (last (client.get_schedule key w).1)
  pub list_moves :
      (ns : String) (w : W) → IsSpaced cron crontab (last w) (last (client.list_snapshots ns w).1)
  pub create_moves :
      (snap : QuestDbSnapshot) (w : W)
      → IsSpaced cron crontab (last w) (last (client.create_snapshot snap w).1)
  pub delete_moves :
      (snap : QuestDbSnapshot) (w : W)
      → IsSpaced cron crontab (last w) (last (client.delete_snapshot snap w).1)
  pub now_moves : (w : W) → IsSpaced cron crontab (last w) (last (client.now w).1)

-- A schedule on such a server.
pub record Setting {W : Type 0} (client : Client W) (cron : Cron) : Type 0 where
  pub crontab : Cron.Crontab cron
  pub key : NamespacedName
  pub last : W → ℕ
  pub last_of : String → ℕ
  pub server : Versioned client cron crontab key last last_of
  pub later : NextIsLater cron

pub IsSpaced-trans :
    (cron : Cron) (crontab : Cron.Crontab cron) (a b c : ℕ)
    → NextIsLater cron
    → IsSpaced cron crontab a b
    → IsSpaced cron crontab b c
    → IsSpaced cron crontab a c
IsSpaced-trans cron crontab a b c later (inl e) (inl f) = inl (e ∙ f)
IsSpaced-trans cron crontab a b c later (inl e) (inr l) =
    inr (subst (λ x. Cron.next cron crontab x ≤ c) (sym e) l)
IsSpaced-trans cron crontab a b c later (inr k) (inl f) =
    inr (subst (λ x. Cron.next cron crontab a ≤ x) f k)
IsSpaced-trans cron crontab a b c later (inr k) (inr l) =
    let ahead = later crontab b in inr (omega (arith, k, l, ahead))

module _ {W : Type 0} {client : Client W} {cron : Cron} (set : Setting client cron) where
  abbrev pub Spaced : ℕ → ℕ → Type 0
  Spaced = IsSpaced cron set.crontab

  pub Spaced-trans : (a b c : ℕ) → Spaced a b → Spaced b c → Spaced a c
  Spaced-trans a b c = IsSpaced-trans cron set.crontab a b c set.later

  -- The last time of one state is past the next time of another's.
  abbrev pub HasRun : State W Call → State W Call → Type 0
  HasRun s s' = Cron.next cron set.crontab (set.last s.world) ≤ set.last s'.world

  -- The recorded times are spaced, and whoever has asked for a snapshot has recorded a run.
  abbrev pub Regular : State W Call → State W Call → Type 0
  Regular s s' =
      Spaced (set.last s.world) (set.last s'.world)
      × ((creations s'.log ≡ creations s.log) ⊎ HasRun s s')

  pub next-before :
      (a b c : ℕ) → Spaced a b → Cron.next cron set.crontab b ≤ c → Cron.next cron set.crontab a ≤ c
  next-before a b c (inl e) le = subst (λ x. Cron.next cron set.crontab x ≤ c) (sym e) le
  next-before a b c (inr k) le = let ahead = set.later set.crontab b in omega (arith, k, le, ahead)

  pub next-after :
      (a b c : ℕ) → Cron.next cron set.crontab a ≤ b → Spaced b c → Cron.next cron set.crontab a ≤ c
  next-after a b c le (inl e) = subst (λ x. Cron.next cron set.crontab a ≤ x) e le
  next-after a b c le (inr k) = let ahead = set.later set.crontab b in omega (arith, k, le, ahead)

  Regular-trans : (s t u : State W Call) → Regular s t → Regular t u → Regular s u
  Regular-trans s t u (a, inl same) (b, inl same') = (Spaced-trans _ _ _ a b, inl (same' ∙ same))
  Regular-trans s t u (a, inr run) (b, _) = (Spaced-trans _ _ _ a b, inr (next-after _ _ _ run b))
  Regular-trans s t u (a, inl same) (b, inr run) =
      (Spaced-trans _ _ _ a b, inr (next-before _ _ _ a run))

  pub order : IsPreorder Regular
  order = record { reflexive = λ s. (inl refl, inl refl); transitive = Regular-trans }
