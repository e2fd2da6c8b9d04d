-- ===== src/Workflow/Engine/Rounds.antt =====
-- A whole round of the loop of workflow/engine.py, the row of the run, and the record that the
-- engine tracks.
use agentic_test_system.Prelude.{
  ℕ, String, ◌≡◌, refl, ap, Bool, true, false, ◌||◌, Option, none, some, List, [], ◌∷◌, arith,
  is_missing, ◌==◌, string_eq, if◌then◌else◌,
}
use agentic_test_system.Core.{
  WorkflowState, RepositorySnapshot, ExecutionPlan, TestCandidate, ExecutionEvidence,
  FailureDiagnosis, Platform, Result, ok, Action, continue, ◌>>=◌, ◌>>◌, for_each,
}
use agentic_test_system.Storage.Database.{RunRecord, Payload}
use agentic_test_system.Storage.Frames.{
  runs-save_candidate, runs-save_evidence, runs-save_diagnosis,
}
use agentic_test_system.Workflow.Services.{Services}
use agentic_test_system.Workflow.Nodes.SameRun.{OfRun, returned, raised, dispatch_node-OfRun}
use agentic_test_system.Workflow.Machine.{Machine, checkpoint}
use agentic_test_system.Workflow.Engine.Dispatch.{dispatch_node}
use agentic_test_system.Workflow.Engine.Artifacts.{
  persist_snapshot, persist_plan, snapshot_fields, plan_fields, own_candidate, own_evidence,
  persist_candidate, persist_evidence, persist_diagnosis, persist_node_artifacts, optional,
}
use agentic_test_system.Workflow.Engine.Loop.{enter, dispatch, persist, emit_own}
use agentic_test_system.Workflow.Engine.Tracking.{
  Tracks, Tracks-frame, Tracks-continue, track_run_complete, emit-Tracks, checkpoint-Tracks,
}

module _ (p : Platform) (k : String) (present : is_missing k ≡ false)
    (services : Services p.World) where
  -- An action that keeps the row and the tracked record together.
  pub record Keeps {A : Type 0} (f : Action (Machine p) A) : Type 0 where
    pub at : (m : Machine p) → Tracks p k m → Tracks p k (f m).1

  pub Keeps-bind :
      {A B : Type 0} (f : Action (Machine p) A) (g : A → Action (Machine p) B)
      → Keeps f
      → ((a : A) → Keeps (g a))
      → Keeps (f >>= g)
  Keeps-bind f g h h' = record {
    at = λ m t.
        let t' = h.at m t in Tracks-continue p k g (f m).0 (f m).1 t' (λ a. (h' a).at (f m).1 t');
  }

  candidate-Keeps : (run : String) (c : TestCandidate) → Keeps (persist_candidate p run c)
  unfolding persist_candidate
  candidate-Keeps run c = record {
    at = λ m t.
        Tracks-frame p k m (persist_candidate p run c m).1 t (ground arith) (ground arith)
          (ground (arith, runs-save_candidate m.db (own_candidate run c)));
  }

  evidence-Keeps : (run : String) (e : ExecutionEvidence) → Keeps (persist_evidence p run e)
  unfolding persist_evidence
  evidence-Keeps run e = record {
    at = λ m t.
        Tracks-frame p k m (persist_evidence p run e m).1 t (ground arith) (ground arith)
          (ground (arith, runs-save_evidence m.db (own_evidence run e)));
  }

  diagnosis-Keeps : (run : String) (d : FailureDiagnosis) → Keeps (persist_diagnosis p run d)
  unfolding persist_diagnosis
  diagnosis-Keeps run d = record {
    at = λ m t.
        Tracks-frame p k m (persist_diagnosis p run d m).1 t (ground arith) (ground arith)
          (ground (arith, runs-save_diagnosis m.db d (some run)));
  }

  for_each-Keeps :
      {A : Type 0} (f : A → Action (Machine p) (Unit {0})) (xs : List A)
      → ((a : A) → Keeps (f a))
      → Keeps (for_each f xs)
  unfolding for_each
  for_each-Keeps f [] h = record { at = λ m t. t }
  for_each-Keeps f (x ∷ xs) h = record {
    at = λ m t.
        Tracks-continue p k (λ _. for_each f xs) (f x m).0 (f x m).1 ((h x).at m t)
          (λ _. (for_each-Keeps f xs h).at (f x m).1 ((h x).at m t));
  }

  if-Keeps :
      (b : Bool) (f g : Action (Machine p) (Unit {0})) (m : Machine p)
      → Tracks p k (f m).1
      → Tracks p k (g m).1
      → Tracks p k ((if b then f else g) m).1
  if-Keeps true f g m h h' = h
  if-Keeps false f g m h h' = h'

  snapshot-Tracks :
      (snapshot : Option RepositorySnapshot) (r : Option RunRecord) (m : Machine p)
      → Tracks p k m
      → Tracks p k (persist_snapshot p m.state snapshot r m).1
  unfolding persist_snapshot
  snapshot-Tracks none r m t = t
  snapshot-Tracks (some s) none m t = t
  snapshot-Tracks (some s) (some r) m t =
      (track_run_complete p k (snapshot_fields p m.state s r) m present t.own_run (record {
        run_given = ap some t.own_run;
        path = m.state.repo_path;
        path_given = refl;
        commit = s.current_commit;
        commit_given = refl;
        base = s.base_commit;
        base_given = refl;
        branch = s.branch_name;
        branch_given = refl;
      })).1

  plan-Tracks :
      (plan : Option ExecutionPlan) (r : Option RunRecord) (m : Machine p)
      → Tracks p k m
      → Tracks p k (persist_plan p m.state plan r m).1
  unfolding persist_plan
  plan-Tracks none r m t = t
  plan-Tracks (some s) none m t = t
  plan-Tracks (some s) (some r) m t =
      (track_run_complete p k (plan_fields p m.state s r) m present t.own_run (record {
        run_given = ap some t.own_run;
        path = m.state.repo_path;
        path_given = refl;
        commit = r.current_commit;
        commit_given = refl;
        base = r.base_commit;
        base_given = refl;
        branch = r.branch_name;
        branch_given = refl;
      })).1

  evidences-Keeps :
      (s : WorkflowState)
      → Keeps (
          for_each (persist_evidence p s.run_id) (optional p s.baseline_evidence)
          >> for_each (persist_evidence p s.run_id) s.evidences)
  evidences-Keeps s =
      Keeps-bind (for_each (persist_evidence p s.run_id) (optional p s.baseline_evidence))
        (λ _. for_each (persist_evidence p s.run_id) s.evidences)
        (for_each-Keeps _ (optional p s.baseline_evidence) (evidence-Keeps s.run_id))
        (λ _. for_each-Keeps _ s.evidences (evidence-Keeps s.run_id))

  persist-Tracks :
      (n : String) (m : Machine p) → Tracks p k m → Tracks p k (persist p services n m).1
  unfolding persist persist_node_artifacts
  persist-Tracks n m t =
      if-Keeps (n == "ingest_and_analyze_node") _ _ m
        (snapshot-Tracks m.state.snapshot m.current_run m t)
        (if-Keeps (n == "plan_execution_node") _ _ m (plan-Tracks m.state.plan m.current_run m t) (
          if-Keeps (n == "generate_tests_node" || n == "validate_candidates_node") _ _ m
            ((for_each-Keeps _ m.state.candidates (candidate-Keeps m.state.run_id)).at m t)
            (if-Keeps (n == "execute_sandbox_node") _ _ m ((evidences-Keeps m.state).at m t) (
              if-Keeps (n == "diagnose_failure_node") _ _ m
                ((for_each-Keeps _ m.state.diagnoses (diagnosis-Keeps m.state.run_id)).at m t) t))))

  pub persist-Keeps : (n : String) → Keeps (persist p services n)
  persist-Keeps n = record { at = persist-Tracks n }

  pub enter-Keeps : (n : String) → Keeps (enter p services n)
  unfolding enter
  enter-Keeps n = record {
    at = λ m t.
        Tracks-frame p k m (enter p services n m).1 t (ground arith) (ground arith) (ground arith);
  }

  pub emit_own-Keeps :
      (event_type : String) (payload : Payload) (n : String)
      → Keeps (emit_own p services event_type payload n)
  unfolding emit_own
  emit_own-Keeps event_type payload n = record {
    at = λ m t. emit-Tracks p k m.state.run_id event_type payload (some n) m t;
  }

  pub checkpoint-Keeps : (i : ℕ) (n : String) → Keeps (checkpoint p i n)
  checkpoint-Keeps i n = record { at = checkpoint-Tracks p k i n }

  dispatched :
      (r : Result WorkflowState) (m : Machine p)
      → Tracks p k m
      → OfRun m.state.run_id r
      → Tracks p k (continue (λ s m'. (ok tt, record m' { state = s })) r m).1
  dispatched r m t (returned s same) = Tracks-frame p k m (record m { state = s }) t same refl refl
  dispatched r m t (raised e) = t

  pub dispatch-Keeps : (n : String) → Keeps (dispatch p services n)
  unfolding dispatch
  dispatch-Keeps n = record {
    at = λ m t.
        dispatched (dispatch_node services n m.state m.world).0
          (record m { world = (dispatch_node services n m.state m.world).1 })
          (Tracks-frame p k m _ t refl refl refl) (dispatch_node-OfRun m.state services n m.world);
  }
