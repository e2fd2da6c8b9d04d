-- ===== src/Workflow/Engine/Tracking.antt =====
-- The row of the run in the table `runs` and the record that the engine tracks, part by part of a
-- round of the loop in workflow/engine.py.
use agentic_test_system.Prelude.{
  ℕ, String, ◌≡◌, refl, true, false, Option, none, some, arith, strip, is_missing, is_some, or_else,
  ◌∙◌, string_eq,
}
use text.Mathlib.TextEquality.{eq_iff}
use agentic_test_system.Core.{FilePath, Platform, Result, ok, err, Action, continue}
use agentic_test_system.Storage.Table.{find_row, upsert, find_row-upsert}
use agentic_test_system.Storage.Database.{RunRecord, Database, Payload}
use agentic_test_system.Storage.Runs.{run_key, RunFields, save_run}
use agentic_test_system.Storage.Frames.{runs-emit_event, runs-save_checkpoint}
use agentic_test_system.Workflow.Machine.{Machine, track_run, emit, checkpoint}

module _ (p : Platform) (k : String) where
  pub record Tracks (m : Machine p) : Type 0 where
    pub own_run : m.state.run_id ≡ k
    pub known : is_some m.current_run ≡ true
    pub in_table : find_row run_key (strip k) m.db.runs ≡ m.current_run

  -- What leaves the state's run, the tracked record and the table of runs alone keeps the fact.
  pub Tracks-frame :
      (m m' : Machine p)
      → Tracks m
      → m'.state.run_id ≡ m.state.run_id
      → m'.current_run ≡ m.current_run
      → m'.db.runs ≡ m.db.runs
      → Tracks m'
  Tracks-frame m m' t s c d = record {
    own_run = s ∙ t.own_run;
    known = rw c t.known;
    in_table = rw (c, d) t.in_table;
  }

  pub Tracks-continue :
      {A B : Type 0} (f : A → Action (Machine p) B) (r : Result A) (m : Machine p)
      → Tracks m
      → ((a : A) → Tracks (f a m).1)
      → Tracks (continue f r m).1
  Tracks-continue f (ok a) m t h = h a
  Tracks-continue f (err e) m t h = t

  -- Fields that `save_run` accepts for the run `k`.
  pub record IsComplete (f : RunFields) : Type 0 where
    pub run_given : f.run_id ≡ some k
    pub path : FilePath
    pub path_given : f.repo_path ≡ some path
    pub commit : String
    pub commit_given : f.current_commit ≡ some commit
    pub base : String
    pub base_given : f.base_commit ≡ some base
    pub branch : String
    pub branch_given : f.branch_name ≡ some branch

  -- The record that is written for complete fields.
  pub record IsRecordOf (f : RunFields) (r : RunRecord) : Type 0 where
    pub key : r.run_id ≡ strip k
    pub route : r.route_selected ≡ f.route_selected
    pub status : r.final_status ≡ f.final_status
    pub message : r.error_message ≡ f.error_message
    pub completion : r.completed_at ≡ f.completed_at

  complete_record : (f : RunFields) → IsComplete f → RunRecord
  complete_record f c = record {
    run_id = strip k;
    repo_path = c.path;
    current_commit = strip c.commit;
    base_commit = strip c.base;
    branch_name = strip c.branch;
    route_selected = f.route_selected;
    started_at = or_else f.started_at 0;
    completed_at = f.completed_at;
    final_status = f.final_status;
    error_message = f.error_message;
  }

  complete_record-IsRecordOf :
      (f : RunFields) (c : IsComplete f) → IsRecordOf f (complete_record f c)
  unfolding complete_record
  complete_record-IsRecordOf f c = record {
    key = refl;
    route = refl;
    status = refl;
    message = refl;
    completion = refl;
  }

  save_run_complete :
      (f : RunFields) (db : Database) (c : IsComplete f)
      → is_missing k ≡ false
      → save_run none f 0 db ≡ (
        ok (complete_record f c),
        record db { runs = upsert run_key (complete_record f c) db.runs },
      )
  unfolding save_run complete_record
  save_run_complete f db c h = ground arith

  in_table_after :
      (f : RunFields) (db : Database) (c : IsComplete f)
      → find_row run_key (strip k) (upsert run_key (complete_record f c) db.runs)
        ≡ some (complete_record f c)
  unfolding complete_record
  in_table_after f db c = ground (
    arith,
    find_row-upsert run_key (strip k) (complete_record f c) db.runs,
    eq_iff (strip k) (strip k),
  )

  -- Writing complete fields cannot fail, and the record that is written becomes the tracked one.
  pub track_run_complete :
      (f : RunFields) (m : Machine p)
      → is_missing k ≡ false
      → m.state.run_id ≡ k
      → IsComplete f
      → ((track_run p f m).0 ≡ ok tt)
        × Tracks (track_run p f m).1
        × ((r : RunRecord) × ((track_run p f m).1.current_run ≡ some r) × IsRecordOf f r)
        × ((track_run p f m).1.world ≡ m.world)
  unfolding track_run
  track_run_complete f m h own c = rw (save_run_complete f m.db c h) (
    refl,
    record { own_run = own; known = refl; in_table = in_table_after f m.db c },
    (complete_record f c, refl, complete_record-IsRecordOf f c),
    refl,
  )

  pub emit-current_run :
      (run event_type : String) (payload : Payload) (at_node : Option String) (m : Machine p)
      → (emit p run event_type payload at_node m).1.current_run ≡ m.current_run
  unfolding emit
  emit-current_run run event_type payload at_node m = ground arith

  -- An event draws its identifier and its time, whether it is written or not.
  pub emit-world :
      (run event_type : String) (payload : Payload) (at_node : Option String) (m : Machine p)
      → (emit p run event_type payload at_node m).1.world ≡ (p.now (p.uuid4 m.world).1).1
  unfolding emit
  emit-world run event_type payload at_node m = ground arith

  pub emit-Tracks :
      (run event_type : String) (payload : Payload) (at_node : Option String) (m : Machine p)
      → Tracks m
      → Tracks (emit p run event_type payload at_node m).1
  unfolding emit
  emit-Tracks run event_type payload at_node m t =
      let (fresh, w) = p.uuid4 m.world in
      let (now, w') = p.now w in
      Tracks-frame m (emit p run event_type payload at_node m).1 t (ground arith) (ground arith)
        (ground (arith, runs-emit_event m.db run event_type payload at_node none none fresh now))

  pub checkpoint-Tracks :
      (step : ℕ) (node : String) (m : Machine p) → Tracks m → Tracks (checkpoint p step node m).1
  unfolding checkpoint
  checkpoint-Tracks step node m t =
      let (fresh, w) = p.uuid4 m.world in
      let (now, w') = p.now w in
      Tracks-frame m (checkpoint p step node m).1 t (ground arith) (ground arith)
        (ground (arith, runs-save_checkpoint p m.db m.state step node none none fresh now))
