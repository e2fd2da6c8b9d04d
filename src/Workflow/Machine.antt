-- ===== src/Workflow/Machine.antt =====
-- The object that a run works on: the store and `_current_run` of the engine, the world outside,
-- and the local variables of `run` and `resume`, which the exception handler reads.
use agentic_test_system.Prelude.{ℕ, String, Option, none, some, List}
use agentic_test_system.Core.{Timestamp, WorkflowState, Platform, Action, ok, pure, ◌>>=◌, ◌>>◌}
use agentic_test_system.Storage.Database.{RunRecord, Database, Payload}
use agentic_test_system.Storage.Runs.{RunFields, save_run}
use agentic_test_system.Storage.Checkpoints.{save_checkpoint}
use agentic_test_system.Storage.Events.{emit_event}

pub record Machine (p : Platform) : Type 0 where
  pub db : Database
  pub current_run : Option RunRecord
  pub world : p.World
  pub state : WorkflowState
  pub current_node : Option String
  pub step_index : ℕ
  pub executed_nodes : List String

module _ {p : Platform} where
  open p use {World}

  abbrev pub on_db : {A : Type 0} → Action Database A → Action (Machine p) A
  on_db f m = let (r, db') = f m.db in (r, record m { db = db' })

  abbrev pub on_world : {A : Type 0} → Action World A → Action (Machine p) A
  on_world f m = let (r, w) = f m.world in (r, record m { world = w })

module _ (p : Platform) where
  -- datetime.now(timezone.utc)
  abbrev pub read_clock : Action (Machine p) Timestamp
  read_clock m = let (t, w) = p.now m.world in (ok t, record m { world = w })

  -- str(uuid.uuid4())
  abbrev pub fresh_id : Action (Machine p) String
  fresh_id m = let (k, w) = p.uuid4 m.world in (ok k, record m { world = w })

  -- `self._current_run = self.repository.save_run(…)`, where the call gives `started_at`.
  unfoldable pub track_run : RunFields → Action (Machine p) (Unit {0})
  track_run f = do r ← on_db (save_run none f 0); λ m. (ok tt, record m { current_run = some r })

  -- `self.event_store.emit_event(run_id=run, …)`
  unfoldable pub emit : String → String → Payload → Option String → Action (Machine p) (Unit {0})
  emit run event_type payload node = do
    k ← fresh_id
    t ← read_clock
    on_db (emit_event run event_type payload node none none k t)
    pure tt

  -- `self.repository.save_checkpoint(state=state, …)`
  unfoldable pub checkpoint : ℕ → String → Action (Machine p) (Unit {0})
  checkpoint step node m =
      (do
        k ← fresh_id
        t ← read_clock
        on_db (save_checkpoint p m.state step node none none k t)
        pure tt)
        m
