-- ===== src/Workflow/Engine/Lifecycle.antt =====
-- The life of a run in `run` of workflow/engine.py, from its record to the handler.
use agentic_test_system.Prelude.{
  ◌∙◌, Ends, String, ◌≡◌, ◌≢◌, refl, ap, Bool, true, false, Option, none, some, arith, is_missing,
  is_some, if◌then◌else◌, ◌≤◌, ◌<◌, ◌+◌,
}
use agentic_test_system.Core.{
  WorkflowState, Timestamp, Platform, Exn, str, Result, ok, err, Action, continue, ◌>>◌, raise,
}
use agentic_test_system.Storage.Database.{RunRecord, Payload}
use agentic_test_system.Storage.Runs.{get_run}
use agentic_test_system.Workflow.Services.{Services}
use agentic_test_system.Workflow.Machine.{Machine, track_run, emit, checkpoint}
use agentic_test_system.Workflow.Engine.Dispatch.{step_of}
use agentic_test_system.Workflow.Engine.Loop.{Outcome, failure_payload}
use agentic_test_system.Workflow.Engine.Run.{
  GitMeta, resolve_initial_git_meta, initial_fields, mark_running, prologue, record_failure, fail,
  handled, begin, start, run,
}
use agentic_test_system.Workflow.Engine.Progress.{rank, loop-Ends}
use agentic_test_system.Workflow.Engine.Tracking.{
  emit-world, Tracks, Tracks-continue, track_run_complete, emit-Tracks, emit-current_run,
}
use agentic_test_system.Workflow.Engine.Rounds.{Keeps-bind, checkpoint-Keeps}
use agentic_test_system.Workflow.Engine.Completion.{
  HasStatus, Finished, track_final, Settled, Settled-some, loop-Settled,
}

module _ (p : Platform) (services : Services p.World) where
  first_node_small : rank "ingest_and_analyze_node" ≤ 7
  unfolding step_of
  first_node_small = omega arith

  enough_rounds : 7 < 7 + rank "ingest_and_analyze_node"
  unfolding step_of
  enough_rounds = omega arith

  begin-Ends : (r : Result (Unit {0})) (m : Machine p) → Ends (begin p services r m)
  begin-Ends (ok u) m =
      loop-Ends p services 7 "ingest_and_analyze_node" m first_node_small enough_rounds
  begin-Ends (err e) m = ((err e, m), refl)

  pub handled-Ends :
      (handler : Exn → Action (Machine p) WorkflowState) (o : Outcome p)
      → Ends o
      → Ends (handled p services handler o)
  handled-Ends handler none (x, e) = absurd cc
  handled-Ends handler (some (ok s, m)) h = ((ok s, m), refl)
  handled-Ends handler (some (err e, m)) h = (handler e m, refl)

  if-Ends : (b : Bool) (o o' : Outcome p) → Ends o → Ends o' → Ends (if b then o else o')
  if-Ends true o o' h h' = h
  if-Ends false o o' h h' = h'

  -- A run ends, whatever the services answer: the seven rounds of the loop are enough.
  pub run-Ends : (m : Machine p) → Ends (run p services m)
  unfolding run
  run-Ends m =
      if-Ends (is_missing m.state.run_id) _ _ (_, refl)
        (handled-Ends (fail p services)
          (begin p services (prologue p services (start p services m)).0
            (prologue p services (start p services m)).1)
          (begin-Ends (prologue p services (start p services m)).0
            (prologue p services (start p services m)).1))

module _ (p : Platform) (k : String) (present : is_missing k ≡ false)
    (services : Services p.World) where
  initial_write-Tracks :
      (m : Machine p) (g : GitMeta) (t : Timestamp) (status : String)
      → m.state.run_id ≡ k
      → Tracks p k (track_run p (initial_fields m.state g t status) m).1
  initial_write-Tracks m (commit, base, branch) t status own =
      (track_run_complete p k (initial_fields m.state (commit, base, branch) t status) m present own
        (record {
          run_given = ap some own;
          path = m.state.repo_path;
          path_given = refl;
          commit = commit;
          commit_given = refl;
          base = base;
          base_given = refl;
          branch = branch;
          branch_given = refl;
        })).1

  mark_running-Tracks :
      (r : Option RunRecord) (m : Machine p)
      → Tracks p k m
      → Tracks p k (mark_running p services r m).1
  unfolding mark_running
  mark_running-Tracks none m t = t
  mark_running-Tracks (some r) m t =
      initial_write-Tracks m (r.current_commit, r.base_commit, r.branch_name) r.started_at "RUNNING"
        t.own_run

  -- The writes of steps 1 to 3 of `run`, from the object as the clock left it.
  recorded-Tracks :
      (m : Machine p) (g : GitMeta) (t : Timestamp)
      → m.state.run_id ≡ k
      → Tracks p k
          ((track_run p (initial_fields m.state g t "INITIALIZED")
              >> (checkpoint p 0 "initialized" >> λ m'. mark_running p services m'.current_run m'))
            m).1
  recorded-Tracks m g t own =
      Tracks-continue p k _ (track_run p (initial_fields m.state g t "INITIALIZED") m).0
        (track_run p (initial_fields m.state g t "INITIALIZED") m).1
        (initial_write-Tracks m g t "INITIALIZED" own)
        (λ _.
          (Keeps-bind p k present services _ _
              (checkpoint-Keeps p k present services 0 "initialized")
              (λ _. record { at = λ m' t'. mark_running-Tracks m'.current_run m' t' })).at
            _ (initial_write-Tracks m g t "INITIALIZED" own))

  prologue-Tracks : (m : Machine p) → m.state.run_id ≡ k → Tracks p k (prologue p services m).1
  unfolding prologue resolve_initial_git_meta
  prologue-Tracks m own = recorded-Tracks (record m { world = _ }) _ _ own

  -- The handler writes the failure down, and raises the exception again.
  failed_write :
      (e : Exn) (r : Option RunRecord) (m : Machine p)
      → Tracks p k m
      → is_some r ≡ true
      → Finished p k present services "FAILED" (record_failure p services e r m)
  unfolding record_failure
  failed_write e none m t h = absurd cc
  failed_write e (some r) m t h =
      track_final p k present services m m.state r "FAILED" (some (str e)) t.own_run t.own_run

  -- The tracked record is that of a failure, and behind its time the world was asked for an
  -- identifier and for a time, those of the event, and for nothing else.
  record IsFailure (world : p.World) (tracked : Option RunRecord) : Type 0 where
    before_event : p.World
    event_drawn : world ≡ (p.now (p.uuid4 before_event).1).1
    failed : HasStatus p "FAILED" before_event tracked

  -- What the handler leaves.
  record Failed (x : Result WorkflowState × Machine p) : Type 0 where
    still : Tracks p k x.1
    has_failed : IsFailure x.1.world x.1.current_run
    raises : (s : WorkflowState) → x.0 ≢ ok s

  reraised :
      (e : Exn) (r : Result (Unit {0})) (m : Machine p)
      → Tracks p k m
      → IsFailure m.world m.current_run
      → Failed (continue (λ _. raise e) r m)
  reraised e (ok u) m t h = record { still = t; has_failed = h; raises = λ s q. cc }
  reraised e (err e') m t h = record { still = t; has_failed = h; raises = λ s q. cc }

  announced :
      (e : Exn) (run : String) (payload : Payload) (at_node : Option String) (m : Machine p)
      → Tracks p k m
      → HasStatus p "FAILED" m.world m.current_run
      → Failed ((emit p run "RUN_FAILED" payload at_node >> raise e) m)
  announced e run payload at_node m t h =
      reraised e (emit p run "RUN_FAILED" payload at_node m).0
        (emit p run "RUN_FAILED" payload at_node m).1
        (emit-Tracks p k run "RUN_FAILED" payload at_node m t)
        (rw (emit-current_run p k run "RUN_FAILED" payload at_node m) (record {
          before_event = m.world;
          event_drawn = emit-world p k run "RUN_FAILED" payload at_node m;
          failed = h;
        }))

  after_write :
      (e : Exn) (r : Result (Unit {0})) (m : Machine p)
      → r ≡ ok tt
      → Tracks p k m
      → HasStatus p "FAILED" m.world m.current_run
      → Failed (
          continue
            (λ _ m'.
              (emit p m'.state.run_id "RUN_FAILED"
                    (failure_payload (str e) m'.step_index)
                    m'.current_node
                  >> raise e)
                m')
            r
            m)
  after_write e (ok u) m q t h = announced e _ _ _ m t h
  after_write e (err e') m q t h = absurd cc

  fail-Failed : (e : Exn) (m : Machine p) → Tracks p k m → Failed (fail p services e m)
  unfolding fail
  fail-Failed e m t =
      let f = failed_write e m.current_run m t t.known in
      after_write e (record_failure p services e m.current_run m).0
        (record_failure p services e m.current_run m).1 f.succeeded f.still f.has_status

  -- How a run that has a name ends: COMPLETED where it returns, FAILED where it raises.
  record Closed (x : Result WorkflowState × Machine p) : Type 0 where
    still : Tracks p k x.1
    returns_completed :
        (s : WorkflowState) → x.0 ≡ ok s → HasStatus p "COMPLETED" x.1.world x.1.current_run
    raises_failed : (e : Exn) → x.0 ≡ err e → IsFailure x.1.world x.1.current_run

  Failed-Closed : (x : Result WorkflowState × Machine p) → Failed x → Closed x
  Failed-Closed x f = record {
    still = f.still;
    returns_completed = λ s h. absurd (f.raises s h);
    raises_failed = λ e h. f.has_failed;
  }

  Closed-some : (y x : Result WorkflowState × Machine p) → some y ≡ some x → Closed y → Closed x
  Closed-some y x h s = let e : y ≡ x = cc in rw e at s

  handled-Closed :
      (o : Outcome p) (x : Result WorkflowState × Machine p)
      → ((y : Result WorkflowState × Machine p) → o ≡ some y → Settled p k present services y)
      → handled p services (fail p services) o ≡ some x
      → Closed x
  handled-Closed none x h e = absurd cc
  handled-Closed (some (ok s, m)) x h e =
      let t = h (ok s, m) refl in
      Closed-some (ok s, m) x e
        (record {
          still = t.still;
          returns_completed = t.returns_completed;
          raises_failed = λ e' q. absurd cc;
        })
  handled-Closed (some (err e', m)) x h e =
      Closed-some (fail p services e' m) x e
        (Failed-Closed _ (fail-Failed e' m (h (err e', m) refl).still))

  begin-Settled :
      (r : Result (Unit {0})) (m : Machine p) (y : Result WorkflowState × Machine p)
      → Tracks p k m
      → begin p services r m ≡ some y
      → Settled p k present services y
  begin-Settled (ok u) m y t h =
      loop-Settled p k present services 7 "ingest_and_analyze_node" m y t h
  begin-Settled (err e) m y t h =
      Settled-some p k present services (err e, m) y h
        (record { still = t; returns_completed = λ s q. absurd cc })

  -- A run of a given name that ends.
  run-Closed :
      (m : Machine p) (x : Result WorkflowState × Machine p)
      → m.state.run_id ≡ k
      → run p services m ≡ some x
      → Closed x
  unfolding run
  run-Closed m x own h =
      handled-Closed
        (begin p services (prologue p services (start p services m)).0
          (prologue p services (start p services m)).1)
        x
        (λ y.
          begin-Settled (prologue p services (start p services m)).0
            (prologue p services (start p services m)).1 y
            (prologue-Tracks (start p services m) own))
        (let named : is_missing m.state.run_id ≡ false = rw own present in rw named at h)

  -- The row of the run that `get_run` shows has the status, and the time of the end.
  pub row_of_status :
      (status : String) (m : Machine p) (world : p.World)
      → Tracks p k m
      → HasStatus p status world m.current_run
      → (r : RunRecord) × (get_run k m.db ≡ (ok (some r), m.db))
        × (r.final_status ≡ status)
        × ((w : p.World) × (world ≡ (p.now w).1) × (r.completed_at ≡ some (p.now w).0))
  unfolding get_run
  row_of_status status m world t h = (
    h.final,
    rw (present, t.in_table, h.is_tracked) refl,
    h.status_is,
    (h.asked, h.asked_last, h.completed),
  )

module _ (p : Platform) (services : Services p.World) where
  -- A run under a name that is not blank which returns leaves a row that says COMPLETED and that
  -- `get_run` finds, and the time of its end is the one that the clock gave when the run asked it:
  -- behind that, nothing more was asked of the world outside.
  pub run_completed :
      (m m' : Machine p) (s : WorkflowState)
      → is_missing m.state.run_id ≡ false
      → run p services m ≡ some (ok s, m')
      → (r : RunRecord) × (get_run m.state.run_id m'.db ≡ (ok (some r), m'.db))
        × (r.final_status ≡ "COMPLETED")
        × ((w : p.World) × (m'.world ≡ (p.now w).1) × (r.completed_at ≡ some (p.now w).0))
  run_completed m m' s present h =
      let c = run-Closed p m.state.run_id present services m (ok s, m') refl h in
      row_of_status p m.state.run_id present services "COMPLETED" m' m'.world c.still
        (c.returns_completed s refl)

  -- A run under a name that is not blank which raises leaves a row that says FAILED and that
  -- `get_run` finds, and the time of its end is the one that the clock gave when the run asked it:
  -- behind that, the world outside was asked only for an identifier and a time, those of an event.
  pub run_failed :
      (m m' : Machine p) (e : Exn)
      → is_missing m.state.run_id ≡ false
      → run p services m ≡ some (err e, m')
      → (r : RunRecord) × (get_run m.state.run_id m'.db ≡ (ok (some r), m'.db))
        × (r.final_status ≡ "FAILED")
        × ((w : p.World) × (m'.world ≡ (p.now (p.uuid4 (p.now w).1).1).1)
            × (r.completed_at ≡ some (p.now w).0))
  run_failed m m' e present h =
      let c = run-Closed p m.state.run_id present services m (err e, m') refl h in
      let f = c.raises_failed e refl in
      let (r, row, status, (w, asked, ended)) =
        row_of_status p m.state.run_id present services "FAILED" m' f.before_event c.still
          f.failed in
      (r, row, status, (w, f.event_drawn ∙ ap (λ v. (p.now (p.uuid4 v).1).1) asked, ended))
