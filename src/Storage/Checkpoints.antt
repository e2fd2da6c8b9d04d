-- ===== src/Storage/Checkpoints.antt =====
-- storage/repository.py: `save_checkpoint`, `get_latest_checkpoint` and `get_checkpoints`.
use agentic_test_system.Prelude.{
  ℕ, String, Bool, not, Option, none, some, List, [], ◌∷◌, ◌++◌, strip, is_missing, ◌==◌, string_eq,
  or_else, filter, leb, if◌then◌else◌, is_some, sort_by, then_by, text_leb,
}
use agentic_test_system.Core.{
  Timestamp, WorkflowState, Platform, value_error, integrity_error, Result, ok, err, Action,
}
use agentic_test_system.Storage.Table.{find_row}
use agentic_test_system.Storage.Database.{CheckpointRow, Database}
use agentic_test_system.Storage.Runs.{has_run}

pub record CheckpointRecord : Type 0 where
  pub checkpoint_id : String
  pub run_id : String
  pub step_index : ℕ
  pub node_name : String
  pub state : WorkflowState
  pub created_at : Timestamp

abbrev pub checkpoint_key : CheckpointRow → String
checkpoint_key r = r.checkpoint_id

-- The identifier given, unless it is absent or blank.
abbrev pub given_id : Option String → String → String
given_id none fresh = fresh
given_id (some k) fresh = if is_missing k then fresh else strip k

-- INSERT INTO checkpoints
unfoldable pub insert_checkpoint : CheckpointRow → Action Database (Unit {0})
insert_checkpoint r db =
    if is_some (find_row checkpoint_key r.checkpoint_id db.checkpoints)
    then (err (integrity_error "UNIQUE constraint failed: checkpoints.checkpoint_id"), db)
    else if not (has_run db r.run_id)
    then (err (integrity_error "FOREIGN KEY constraint failed"), db)
    else (ok tt, record db { checkpoints = db.checkpoints ++ r ∷ [] })

-- ORDER BY step_index, created_at, checkpoint_id
abbrev pub checkpoint_order : CheckpointRow → CheckpointRow → Bool
checkpoint_order =
    then_by (λ a b. leb a.step_index b.step_index)
      (then_by (λ a b. leb a.created_at b.created_at)
        (λ a b. text_leb a.checkpoint_id b.checkpoint_id))

abbrev pub checkpoint_order_desc : CheckpointRow → CheckpointRow → Bool
checkpoint_order_desc a b = checkpoint_order b a

abbrev pub of_run : String → CheckpointRow → Bool
of_run k r = r.run_id == k

abbrev pub first_row : List CheckpointRow → Option CheckpointRow
first_row [] = none
first_row (r ∷ rs) = some r

module _ (p : Platform) where
  unfoldable pub checkpoint_row : WorkflowState → ℕ → String → String → Timestamp → CheckpointRow
  checkpoint_row s step node k t = record {
    checkpoint_id = k;
    run_id = s.run_id;
    step_index = step;
    node_name = strip node;
    state_payload = p.model_dump_json s;
    created_at = t;
  }

  abbrev pub stored :
      CheckpointRow
      → WorkflowState
      → Result (Unit {0}) × Database
      → Result CheckpointRecord × Database
  stored r s (err e, db) = (err e, db)
  stored r s (ok _, db) = (
    ok (record {
      checkpoint_id = r.checkpoint_id;
      run_id = r.run_id;
      step_index = r.step_index;
      node_name = r.node_name;
      state = s;
      created_at = r.created_at;
    }),
    db,
  )

  -- The arguments behind the state are the step, the node, the identifier and the time, where they
  -- are given, and then a fresh identifier and the time of the clock. (The step is no negative
  -- number, as the code demands.)
  unfoldable pub save_checkpoint :
      WorkflowState
      → ℕ
      → String
      → Option String
      → Option Timestamp
      → String
      → Timestamp
      → Action Database CheckpointRecord
  unfolding insert_checkpoint checkpoint_row
  save_checkpoint s step node k t fresh now db =
      if is_missing node
      then (err (value_error "node_name must be a non-empty string"), db)
      else (let r = checkpoint_row s step node (given_id k fresh) (or_else t now) in
          stored r s (insert_checkpoint r db))

  -- The record of a row, whose text may be no state.
  unfoldable pub read_checkpoint : CheckpointRow → Result CheckpointRecord
  read_checkpoint r = elim (p.model_validate_json r.state_payload) [
    | ok s ↦ ok (record {
      checkpoint_id = r.checkpoint_id;
      run_id = r.run_id;
      step_index = r.step_index;
      node_name = r.node_name;
      state = s;
      created_at = r.created_at;
    })
    | err e ↦ err e
  ]

  unfoldable pub read_first : Option CheckpointRow → Result (Option CheckpointRecord)
  unfolding read_checkpoint
  read_first none = ok none
  read_first (some r) = elim (read_checkpoint r) [ ok c ↦ ok (some c) | err e ↦ err e ]

  read_all : List CheckpointRow → Result (List CheckpointRecord)
  unfolding read_checkpoint
  read_all [] = ok []
  read_all (r ∷ rs) =
      let rest = read_all rs in
      elim (read_checkpoint r) [
        | err e ↦ err e
        | ok c ↦ elim rest [ ok cs ↦ ok (c ∷ cs) | err e ↦ err e ]
      ]

  unfoldable pub get_latest_checkpoint : String → Action Database (Option CheckpointRecord)
  unfolding read_first
  get_latest_checkpoint k db =
      if is_missing k then (err (value_error "run_id must be a non-empty string"), db) else (
        read_first
            (first_row (sort_by checkpoint_order_desc (filter (of_run (strip k)) db.checkpoints))),
        db,
      )

  unfoldable pub get_checkpoints : String → Action Database (List CheckpointRecord)
  unfolding read_all
  get_checkpoints k db =
      if is_missing k
      then (err (value_error "run_id must be a non-empty string"), db)
      else (read_all (sort_by checkpoint_order (filter (of_run (strip k)) db.checkpoints)), db)
