-- ===== src/Snapshot/Reconcile/Patience.antt =====
-- A snapshot that has to wait: reconciliations in which requests fail or jobs are not done.
use questdb_operator.Prelude.{◌≡◌, ℕ, ◌+◌, ◌<◌, List, [], ◌∷◌}
use questdb_operator.Kube.Meta.{NamespacedName, MetaLib, Owns, object_key}
use questdb_operator.Api.Types.{QuestDbSnapshot}
use questdb_operator.Snapshot.Calls.{Client}
use questdb_operator.Snapshot.Phases.Progress.{Scene, Cooperates, IsAwaited, AddsOnly}
use questdb_operator.Snapshot.Phases.Patience.{IsPatient, left}
use questdb_operator.Snapshot.Phases.Patience.Pending.{KeepsDeletion}
use questdb_operator.Snapshot.Reconcile.Success.{run}

-- A reconciliation on a server with answers of its own, and what others do behind it: one that goes
-- well, or one that may not.
pub data Round (W : Type 0) : Type 0 where
  well slow : Client W → (W → W) → Round W

abbrev after : {W : Type 0} → MetaLib → NamespacedName → Round W → W → W
after lib key (well client behind) w = behind (run client lib key w)
after lib key (slow client behind) w = behind (run client lib key w)

abbrev pub rounds_from : {W : Type 0} → MetaLib → NamespacedName → List (Round W) → W → W
rounds_from lib key [] w = w
rounds_from lib key (r ∷ rounds) w = rounds_from lib key rounds (after lib key r w)

abbrev pub count_well : {W : Type 0} → List (Round W) → ℕ
count_well [] = 0
count_well (well _ _ ∷ rounds) = 1 + count_well rounds
count_well (slow _ _ ∷ rounds) = count_well rounds

-- Nothing fails, the snapshot is not at its end, and the object that its phase waits for is there
-- and done.
pub record IsWell {W : Type 0} (client : Client W) (key : NamespacedName) (scene : W → Scene)
    (w : W) : Type 0 where
  pub cooperates : Cooperates client key scene
  pub named : object_key (scene w).snapshot.meta ≡ key
  pub unfinished : 0 < left (scene w).snapshot.phase
  pub awaited : IsAwaited (scene w).snapshot.phase (scene w)

-- What others do leaves the snapshot alone.
abbrev pub IsRound :
    {W : Type 0} → MetaLib → NamespacedName → (W → Scene) → ℕ → Round W → W → Type 0
IsRound lib key scene n (well client behind) w =
    IsWell client key scene w
    × ((scene (behind (run client lib key w))).snapshot ≡ (scene (run client lib key w)).snapshot)
IsRound lib key scene n (slow client behind) w =
    IsPatient client key (λ w. (scene w).snapshot) n
    × ((scene (behind (run client lib key w))).snapshot ≡ (scene (run client lib key w)).snapshot)

abbrev pub AreRounds :
    {W : Type 0} → MetaLib → NamespacedName → (W → Scene) → ℕ → List (Round W) → W → Type 0
AreRounds lib key scene n [] w = Unit {0}
AreRounds lib key scene n (r ∷ rounds) w =
    IsRound lib key scene n r w × AreRounds lib key scene n rounds (after lib key r w)

module _ {W : Type 0} (lib : MetaLib) (keeps : KeepsDeletion lib) (key : NamespacedName)
    (scene : W → Scene) (n : ℕ) (positive : 0 < n) (owns : Owns lib) (adds : AddsOnly lib) where
  abbrev stored : W → QuestDbSnapshot
  stored w = (scene w).snapshot
