-- ===== src/Workflow/Engine/Completion.antt =====
-- The row of the run at the end of the loop of workflow/engine.py.
use agentic_test_system.Prelude.{
  ℕ, zero, suc, String, ◌≡◌, refl, ap, Bool, true, false, Option, none, some, is_missing, is_some,
  ◌==◌, string_eq, if◌then◌else◌,
}
use agentic_test_system.Core.{
  WorkflowState, Timestamp, Platform, Result, ok, err, Action, continue, ◌>>=◌,
}
use agentic_test_system.Storage.Database.{RunRecord}
use agentic_test_system.Workflow.Services.{Services}
use agentic_test_system.Workflow.Machine.{Machine, track_run}
use agentic_test_system.Workflow.Engine.Loop.{
  Outcome, complete, complete_report, node_steps, node_body, final_fields, step_payload, route,
  iteration, after_round, loop,
}
use agentic_test_system.Workflow.Engine.Progress.{resolve_next_node_stops}
use agentic_test_system.Workflow.Engine.Tracking.{
  Tracks, Tracks-frame, Tracks-continue, IsComplete, track_run_complete,
}
use agentic_test_system.Workflow.Engine.Rounds.{
  Keeps, Keeps-bind, enter-Keeps, emit_own-Keeps, dispatch-Keeps, persist-Keeps, checkpoint-Keeps,
}

-- The tracked record has a final status, and the time that the clock gave when it was the last thing
-- that the world was asked for.
pub record HasStatus (p : Platform) (status : String) (world : p.World) (tracked : Option RunRecord)
    : Type 0 where
  pub final : RunRecord
  pub is_tracked : tracked ≡ some final
  pub status_is : final.final_status ≡ status
  pub asked : p.World
  pub asked_last : world ≡ (p.now asked).1
  pub completed : final.completed_at ≡ some (p.now asked).0

module _ (p : Platform) (k : String) (present : is_missing k ≡ false)
    (services : Services p.World) where
  final-IsComplete :
      (s : WorkflowState) (r : RunRecord) (now : Timestamp) (status : String)
      (message : Option String)
      → s.run_id ≡ k
      → IsComplete p k (final_fields s r now status message)
  final-IsComplete s r now status message own = record {
    run_given = ap some own;
    path = s.repo_path;
    path_given = refl;
    commit = r.current_commit;
    commit_given = refl;
    base = r.base_commit;
    base_given = refl;
    branch = r.branch_name;
    branch_given = refl;
  }

  -- What the write of a final record leaves.
  pub record Finished (status : String) (x : Result (Unit {0}) × Machine p) : Type 0 where
    pub succeeded : x.0 ≡ ok tt
    pub still : Tracks p k x.1
    pub has_status : HasStatus p status x.1.world x.1.current_run

  -- The write of a final record with the time that the clock gives.
  pub track_final :
      (m : Machine p) (s : WorkflowState) (r : RunRecord) (status : String)
      (message : Option String)
      → m.state.run_id ≡ k
      → s.run_id ≡ k
      → Finished status (
          track_run p
            (final_fields s r (p.now m.world).0 status message)
            (record m { world = (p.now m.world).1 }))
  track_final m s r status message own same =
      let now = (p.now m.world).0 in
      let (done, t, (final, tracked, is_record), untouched) =
        track_run_complete p k (final_fields s r now status message)
          (record m { world = (p.now m.world).1 }) present own
          (final-IsComplete s r now status message same) in
      record {
        succeeded = done;
        still = t;
        has_status = record {
          final = final;
          is_tracked = tracked;
          status_is = is_record.status;
          asked = m.world;
          asked_last = untouched;
          completed = is_record.completion;
        };
      }

  complete-Finished :
      (r : Option RunRecord) (m : Machine p)
      → Tracks p k m
      → is_some r ≡ true
      → Finished "COMPLETED" (complete p services r m)
  unfolding complete
  complete-Finished none m t h = absurd cc
  complete-Finished (some r) m t h =
      track_final m m.state r "COMPLETED" m.state.error_message t.own_run t.own_run

  if-Tracks :
      (b : Bool) (x y : Result (Unit {0}) × Machine p)
      → Tracks p k x.1
      → Tracks p k y.1
      → Tracks p k (if b then x else y).1
  if-Tracks true x y h h' = h
  if-Tracks false x y h h' = h'

  complete_report-Keeps : (n : String) → Keeps p k present services (complete_report p services n)
  unfolding complete_report
  complete_report-Keeps n = record {
    at = λ m t.
        if-Tracks (n == "report_node") _ _ (complete-Finished m.current_run m t t.known).still t;
  }

  node_steps-Keeps : (n : String) (i : ℕ) → Keeps p k present services (node_steps p services n i)
  unfolding node_steps
  node_steps-Keeps n i =
      Keeps-bind p k present services _ _
        (emit_own-Keeps p k present services "NODE_STARTED" (step_payload i) n)
        (λ _. Keeps-bind p k present services _ _ (dispatch-Keeps p k present services n) (λ _.
          Keeps-bind p k present services _ _ (persist-Keeps p k present services n) (λ _.
            Keeps-bind p k present services _ _
              (emit_own-Keeps p k present services "NODE_COMPLETED" (step_payload i) n)
              (λ _. checkpoint-Keeps p k present services i n))))

  -- An action that leaves the tracked record completed wherever it returns.
  record Completes {A : Type 0} (f : Action (Machine p) A) : Type 0 where
    at :
        (m : Machine p)
        → Tracks p k m
        → (a : A) → (f m).0 ≡ ok a
        → HasStatus p "COMPLETED" (f m).1.world (f m).1.current_run

  Completes-continue :
      {A B : Type 0} (g : A → Action (Machine p) B) (r : Result A) (m : Machine p)
      → Tracks p k m
      → ((a : A) → Completes (g a))
      → (b : B) → (continue g r m).0 ≡ ok b
      → HasStatus p "COMPLETED" (continue g r m).1.world (continue g r m).1.current_run
  Completes-continue g (ok a) m t h b e = (h a).at m t b e
  Completes-continue g (err x) m t h b e = absurd cc

  Completes-bind :
      {A B : Type 0} (f : Action (Machine p) A) (g : A → Action (Machine p) B)
      → Keeps p k present services f
      → ((a : A) → Completes (g a))
      → Completes (f >>= g)
  Completes-bind f g h h' = record {
    at = λ m t b e. Completes-continue g (f m).0 (f m).1 (h.at m t) h' b e;
  }

  report-Completes : Completes (complete_report p services "report_node")
  unfolding complete_report
  report-Completes = record {
    at = λ m t a e. (complete-Finished m.current_run m t t.known).has_status;
  }

  visit :
      (n : String) (m : Machine p) → Tracks p k m → Tracks p k (record m { current_node = some n })
  visit n m t = Tracks-frame p k m _ t refl refl refl

  node_body-Tracks :
      (n : String) (m : Machine p) → Tracks p k m → Tracks p k (node_body p services n m).1
  unfolding node_body
  node_body-Tracks n m t =
      (Keeps-bind p k present services _ _ (enter-Keeps p k present services n) (λ i.
          Keeps-bind p k present services _ _ (node_steps-Keeps n i)
            (λ _. complete_report-Keeps n))).at
        (record m { current_node = some n }) (visit n m t)

  report_body :
      (m : Machine p)
      → Tracks p k m
      → (u : Unit {0}) → (node_body p services "report_node" m).0 ≡ ok u
      → HasStatus p "COMPLETED"
          (node_body p services "report_node" m).1.world
          (node_body p services "report_node" m).1.current_run
  unfolding node_body
  report_body m t u e =
      (Completes-bind _ _ (enter-Keeps p k present services "report_node")
          (λ i. Completes-bind _ _ (node_steps-Keeps "report_node" i) (λ _. report-Completes))).at
        (record m { current_node = some "report_node" }) (visit "report_node" m t) u e

  iteration-Tracks :
      (n : String) (m : Machine p) → Tracks p k m → Tracks p k (iteration p services n m).1
  unfolding iteration
  iteration-Tracks n m t =
      Tracks-continue p k (route p services n) (node_body p services n m).0
        (node_body p services n m).1 (node_body-Tracks n m t) (λ _. node_body-Tracks n m t)

  routed_report :
      (n : String) (r : Result (Unit {0})) (m : Machine p)
      → (continue (route p services n) r m).0 ≡ ok none
      → ((u : Unit {0}) × (r ≡ ok u)) × (n ≡ "report_node")
  routed_report n (ok u) m e = ((u, refl), resolve_next_node_stops n m.state e)
  routed_report n (err x) m e = absurd cc

  continue-route :
      (n : String) (r : Result (Unit {0})) (m : Machine p)
      → (continue (route p services n) r m).1 ≡ m
  continue-route n (ok u) m = refl
  continue-route n (err e) m = refl

  -- A round after which the loop returns has completed the run.
  iteration-completes :
      (n : String) (m : Machine p)
      → Tracks p k m
      → (iteration p services n m).0 ≡ ok none
      → HasStatus p "COMPLETED"
          (iteration p services n m).1.world
          (iteration p services n m).1.current_run
  unfolding iteration
  iteration-completes n m t e =
      let ((u, returned), at_report) =
        routed_report n (node_body p services n m).0 (node_body p services n m).1 e in
      rw (continue-route n (node_body p services n m).0 (node_body p services n m).1, at_report)
        (report_body m t u (rw at_report at returned))

  -- What the loop leaves.
  pub record Settled (x : Result WorkflowState × Machine p) : Type 0 where
    pub still : Tracks p k x.1
    pub returns_completed :
        (s : WorkflowState) → x.0 ≡ ok s → HasStatus p "COMPLETED" x.1.world x.1.current_run

  pub Settled-some :
      (y x : Result WorkflowState × Machine p) → some y ≡ some x → Settled y → Settled x
  Settled-some y x h s = let e : y ≡ x = cc in rw e at s

  after_round-Settled :
      (next : String → Machine p → Outcome p) (r : Result (Option String)) (m : Machine p)
      (x : Result WorkflowState × Machine p)
      → Tracks p k m
      → (r ≡ ok none → HasStatus p "COMPLETED" m.world m.current_run)
      → ((n : String) → next n m ≡ some x → Settled x)
      → after_round p services next r m ≡ some x
      → Settled x
  after_round-Settled next (err e) m x t done later h =
      Settled-some (err e, m) x h (record { still = t; returns_completed = λ s e'. absurd cc })
  after_round-Settled next (ok none) m x t done later h =
      Settled-some (ok m.state, record m { current_node = none }) x h
        (record {
          still = Tracks-frame p k m (record m { current_node = none }) t refl refl refl;
          returns_completed = λ s e. done refl;
        })
  after_round-Settled next (ok (some n)) m x t done later h = later n h

  pub loop-Settled :
      (fuel : ℕ) (n : String) (m : Machine p) (x : Result WorkflowState × Machine p)
      → Tracks p k m
      → loop p services fuel n m ≡ some x
      → Settled x
  unfolding loop
  loop-Settled zero n m x t h = absurd cc
  loop-Settled (suc fuel) n m x t h =
      after_round-Settled (loop p services fuel) (iteration p services n m).0
        (iteration p services n m).1 x (iteration-Tracks n m t) (iteration-completes n m t)
        (λ n'. loop-Settled fuel n' (iteration p services n m).1 x (iteration-Tracks n m t)) h
