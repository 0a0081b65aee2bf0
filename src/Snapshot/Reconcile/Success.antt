-- ===== src/Snapshot/Reconcile/Success.antt =====
-- A snapshot on a server where nothing fails and what is created gets done succeeds.
use questdb_operator.Prelude.{
  ◌≡◌, ◌⊎◌, inl, inr, refl, ap, sym, subst, ◌∙◌, ℕ, ◌<◌, suc, zero, [], ◌∷◌, arith,
}
use questdb_operator.Kube.Meta.{NamespacedName, MetaLib, Owns}
use questdb_operator.Kube.Exec.{State}
use questdb_operator.Api.Types.{
  SnapshotPhase, empty, pending, running, finalizing, failed, succeeded, unknown,
}
use questdb_operator.Snapshot.Calls.{Client, Call, got_snapshot}
use questdb_operator.Snapshot.Phases.{handle_phase}
use questdb_operator.Snapshot.Phases.Patience.{next, left}
use questdb_operator.Snapshot.Phases.Progress.{
  Scene, AddsOnly, Cooperates, Stands, IsAbsent, IsPresent, IsAwaited,
}
use questdb_operator.Snapshot.Phases.Progress.Pending.{pending_begins, pending_to_running}
use questdb_operator.Snapshot.Phases.Progress.Handlers.{
  empty_to_pending, running_begins, running_to_finalizing, finalizing_begins,
  finalizing_to_succeeded,
}
use questdb_operator.Snapshot.Reconcile.{ensure_backoff_limit, reconcile_snapshot, reconcile}

-- What a reconciliation makes of the server.
abbrev pub run : {W : Type 0} → Client W → MetaLib → NamespacedName → W → W
run client lib key w = (reconcile client lib key (record { world = w; log = [] })).1.world

-- What others make of the scene between two reconciliations: an object that is there gets done, and
-- where none is, there is none behind it or one that is done.
pub record Works (c c' : Scene) : Type 0 where
  pub snapshot : c'.snapshot ≡ c.snapshot
  pub finished : (p : SnapshotPhase) → IsAwaited p c' ⊎ (IsAbsent p c × IsAbsent p c')

abbrev pub IsSettled : Scene → Type 0
IsSettled c = (p : SnapshotPhase) → IsAwaited p c ⊎ IsAbsent p c

present-absent : (p : SnapshotPhase) (c : Scene) → IsPresent p c → IsAbsent p c → ⊥
present-absent pending c (t, e, _) h = ground (arith, e, h)
present-absent running c (t, e, _) h = ground (arith, e, h)
present-absent finalizing c (t, e, _) h = ground (arith, e, h)
present-absent empty c e h = h
present-absent failed c e h = h
present-absent succeeded c e h = h
present-absent (unknown text) c e h = h

-- The snapshot of the scene has succeeded after at most so many rounds.
abbrev pub SucceedsWithin : {W : Type 0} → (W → Scene) → (W → W) → ℕ → W → Type 0
SucceedsWithin scene round zero w = (scene w).snapshot.phase ≡ succeeded
SucceedsWithin scene round (suc k) w =
    ((scene w).snapshot.phase ≡ succeeded) ⊎ SucceedsWithin scene round k (round w)

weaken :
    {W : Type 0} (scene : W → Scene) (round : W → W) (k : ℕ) (w : W)
    → SucceedsWithin scene round k w
    → SucceedsWithin scene round (suc k) w
weaken scene round zero w h = inl h
weaken scene round (suc k) w (inl h) = inl h
weaken scene round (suc k) w (inr h) = inr (weaken scene round k (round w) h)

module _ {W : Type 0} (client : Client W) (lib : MetaLib) (key : NamespacedName) (scene : W → Scene)
    (good : Cooperates client key scene) (owns : Owns lib) (adds : AddsOnly lib) (n : ℕ)
    (positive : 0 < n) where
  abbrev StandsIn : SnapshotPhase → W → Type 0
  StandsIn p w = Stands key n p (scene w).snapshot

  -- The state behind the first read.
  abbrev read : W → State W Call
  read w = record {
    world = (client.get_snapshot key w).1;
    log = got_snapshot key (client.get_snapshot key w).0 ∷ [];
  }

  run-handle_phase :
      (p : SnapshotPhase) (w : W)
      → StandsIn p w
      → run client lib key w ≡ (handle_phase client lib p (scene w).snapshot (read w)).1.world
  unfolding reconcile reconcile_snapshot ensure_backoff_limit
  run-handle_phase p w fit =
      let found = good.read w in ground (arith, found, fit.at, fit.limit, positive)

  -- A snapshot whose object is done goes on.
  pub advances :
      (p : SnapshotPhase) (w : W)
      → StandsIn p w
      → IsAwaited p (scene w)
      → 0 < left p
      → StandsIn (next p) (run client lib key w)
  advances empty w fit _ _ =
      let s1 = read w in
      let snap = (scene w).snapshot in
      let same = good.read_scene w in
      let after =
        empty_to_pending client lib key scene good owns adds n positive snap s1
          (ap (λ c. c.snapshot) same) fit in
      subst (Stands key n pending)
        (sym (
          ap (λ w'. (scene w').snapshot) (run-handle_phase empty w fit)
          ∙ ap (λ c. c.snapshot) after))
        (record { at = refl; limit = fit.limit; kept = fit.kept; named = fit.named })
  advances pending w fit (old, there, done) _ =
      let same = good.read_scene w in
      subst (λ w'. Stands key n running (scene w').snapshot) (sym (run-handle_phase pending w fit))
        (pending_to_running client lib key scene good owns adds n positive (scene w).snapshot
          (read w) (ap (λ c. c.snapshot) same) fit old (ap (λ c. c.pre_job) same ∙ there) done)
  advances running w fit (old, there, ready) _ =
      let same = good.read_scene w in
      let after =
        running_to_finalizing client lib key scene good owns adds n positive (scene w).snapshot
          (read w) (ap (λ c. c.snapshot) same) fit old (ap (λ c. c.volume) same ∙ there) ready in
      subst (Stands key n finalizing)
        (sym (
          ap (λ w'. (scene w').snapshot) (run-handle_phase running w fit)
          ∙ ap (λ c. c.snapshot) after))
        (record { at = refl; limit = fit.limit; kept = fit.kept; named = fit.named })
  advances finalizing w fit (old, there, done) _ =
      let same = good.read_scene w in
      let after =
        finalizing_to_succeeded client lib key scene good owns adds n positive (scene w).snapshot
          (read w) (ap (λ c. c.snapshot) same) fit old (ap (λ c. c.post_job) same ∙ there) done in
      subst (Stands key n succeeded)
        (sym (
          ap (λ w'. (scene w').snapshot) (run-handle_phase finalizing w fit)
          ∙ ap (λ c. c.snapshot) after))
        (record { at = refl; limit = fit.limit; kept = fit.kept; named = fit.named })
  advances succeeded w fit _ more = absurd (omega (arith, more))
  advances failed w fit _ more = absurd (omega (arith, more))
  advances (unknown text) w fit _ more = absurd (omega (arith, more))

  -- A snapshot whose object is not there stays, and gets it made.
  begins :
      (p : SnapshotPhase) (w : W)
      → StandsIn p w
      → IsAbsent p (scene w)
      → ((scene (run client lib key w)).snapshot ≡ (scene w).snapshot)
        × IsPresent p (scene (run client lib key w))
  begins pending w fit missing =
      let same = good.read_scene w in
      let (j, after) =
        pending_begins client lib key scene good owns adds n positive (scene w).snapshot (read w)
          fit (ap (λ c. c.pre_job) same ∙ missing) in
      let e = ap scene (run-handle_phase pending w fit) ∙ after in
      (ap (λ c. c.snapshot) e ∙ ap (λ c. c.snapshot) same, (j, ap (λ c. c.pre_job) e, tt))
  begins running w fit missing =
      let same = good.read_scene w in
      let (v, after) =
        running_begins client lib key scene good owns adds n positive (scene w).snapshot (read w)
          (ap (λ c. c.snapshot) same) fit (ap (λ c. c.volume) same ∙ missing) in
      let e = ap scene (run-handle_phase running w fit) ∙ after in
      (ap (λ c. c.snapshot) e ∙ ap (λ c. c.snapshot) same, (v, ap (λ c. c.volume) e, tt))
  begins finalizing w fit missing =
      let same = good.read_scene w in
      let (j, after) =
        finalizing_begins client lib key scene good owns adds n positive (scene w).snapshot (read w)
          fit (ap (λ c. c.post_job) same ∙ missing) in
      let e = ap scene (run-handle_phase finalizing w fit) ∙ after in
      (ap (λ c. c.snapshot) e ∙ ap (λ c. c.snapshot) same, (j, ap (λ c. c.post_job) e, tt))
  begins empty w fit missing = absurd missing
  begins succeeded w fit missing = absurd missing
  begins failed w fit missing = absurd missing
  begins (unknown text) w fit missing = absurd missing

  module _ (work : W → W) (works : (w : W) → Works (scene w) (scene (work w))) where
    -- A reconciliation, and what others do behind it.
    abbrev round : W → W
    round w = work (run client lib key w)

    round-IsSettled : (w : W) → IsSettled (scene (round w))
    round-IsSettled w p = elim ((works (run client lib key w)).finished p) [
      | inl awaited ↦ inl awaited
      | inr (_, absent) ↦ inr absent
    ]

    -- One phase takes two rounds at most.
    crosses :
        (p : SnapshotPhase) (k : ℕ) (w : W)
        → 0 < left p
        → ((w' : W) → StandsIn (next p) w' → IsSettled (scene w') → SucceedsWithin scene round k w')
        → StandsIn p w
        → IsSettled (scene w)
        → SucceedsWithin scene round (suc (suc k)) w
    crosses p k w more behind fit settled = elim (settled p) [
      | inl awaited ↦ weaken scene round (suc k) w (inr (moves w fit awaited))
      | inr absent ↦
          let w1 = run client lib key w in
          let (same, present) = begins p w fit absent in
          let done = (works w1).snapshot ∙ same in
          let fit1 : StandsIn p (round w) = subst (Stands key n p) (sym done) fit in
          inr (
            inr (
              moves (round w) fit1 (elim ((works w1).finished p) [
                | inl awaited ↦ awaited
                | inr (still, _) ↦ absurd (present-absent p (scene w1) present still)
              ])))
    ]
      where
        moves :
            (w' : W)
            → StandsIn p w'
            → IsAwaited p (scene w')
            → SucceedsWithin scene round k (round w')
        moves w' fit' awaited =
            behind (round w')
              (subst (Stands key n (next p)) (sym (works (run client lib key w')).snapshot)
                (advances p w' fit' awaited more))
              (round-IsSettled w')

    -- Let nothing fail on the server, which holds the snapshot under its key as it is written, with the
    -- database, the classes and usable secrets, which makes an object where there is none, without a
    -- status, and refuses to make it where there is one; and let others do the jobs and make the
    -- volume snapshot ready between two reconciliations. Let a new object be open to an owner, and a
    -- finalizer leave the name and the mark for deletion alone. Then a new snapshot that is not
    -- marked for deletion and may fail a positive number of times, each of whose objects is not there
    -- or is done, has succeeded after seven reconciliations at most.
    pub reconcile-succeeds :
        (w : W)
        → Stands key n empty (scene w).snapshot
        → IsSettled (scene w)
        → SucceedsWithin scene round 7 w
    reconcile-succeeds w fit settled = inr (
        crosses pending 4 (round w) (omega arith)
          (λ w2.
            crosses running 2 w2 (omega arith)
              (λ w4. crosses finalizing 0 w4 (omega arith) (λ w6 fit6 _. fit6.at)))
          (subst (Stands key n pending) (sym (works (run client lib key w)).snapshot)
            (advances empty w fit tt (omega arith)))
          (round-IsSettled w))
