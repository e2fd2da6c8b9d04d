-- ===== src/Storage/Resumption.antt =====
-- `save_checkpoint` and `get_latest_checkpoint` of storage/repository.py together, as a resumption
-- uses them.
use agentic_test_system.Prelude.{
  ℕ, ◌<◌, String, ◌≡◌, refl, ap, ◌∙◌, false, Option, some, List, [], ◌∷◌, ◌++◌, arith, strip,
  is_missing, or_else, filter, filter-append, All, All-map, sort_by-append_first, ==_refl,
  Bool-cases, inl, inr, string_eq,
}
use agentic_test_system.Core.{Timestamp, WorkflowState, Platform, Result, ok, err}
use agentic_test_system.Storage.Database.{CheckpointRow, Database}
use agentic_test_system.Storage.Checkpoints.{
  CheckpointRecord, given_id, insert_checkpoint, checkpoint_order_desc, of_run, checkpoint_row,
  stored, save_checkpoint, read_checkpoint, read_first, get_latest_checkpoint,
}

-- A row that is inserted stands behind the others.
insert_checkpoint_lem :
    (r : CheckpointRow) (db db' : Database)
    → insert_checkpoint r db ≡ (ok tt, db')
    → db'.checkpoints ≡ db.checkpoints ++ r ∷ []
unfolding insert_checkpoint
insert_checkpoint_lem r db db' h = ground arith

module _ (p : Platform) where
  record_of : CheckpointRow → WorkflowState → CheckpointRecord
  record_of r s = record {
    checkpoint_id = r.checkpoint_id;
    run_id = r.run_id;
    step_index = r.step_index;
    node_name = r.node_name;
    state = s;
    created_at = r.created_at;
  }

  stored_lem :
      (r : CheckpointRow) (s : WorkflowState) (x : Result (Unit {0}) × Database)
      (c : CheckpointRecord) (db' : Database)
      → stored p r s x ≡ (ok c, db')
      → (x ≡ (ok tt, db')) × (record_of r s ≡ c)
  unfolding record_of
  stored_lem r s (ok u, d) c db' h =
      let same : d ≡ db' = cc in
      let same' : record_of r s ≡ c = cc in (ap (λ y. (ok tt, y)) same, same')
  stored_lem r s (err e, d) c db' h = absurd cc

module _ (p : Platform) (s : WorkflowState)
    (faithful : p.model_validate_json (p.model_dump_json s) ≡ ok s) where
  -- A row whose text is that of the state is read as its record.
  read_first-row :
      (r : CheckpointRow)
      → r.state_payload ≡ p.model_dump_json s
      → read_first p (some r) ≡ ok (some (record_of p r s))
  unfolding read_first read_checkpoint record_of
  read_first-row r h =
      let valid = ap (λ x. p.model_validate_json x) h ∙ faithful in
      rw (valid, read_first, read_checkpoint) refl

  later_first :
      (step : ℕ) (r : CheckpointRow) (rows : List CheckpointRow)
      → r.step_index ≡ step
      → All (λ x. x.step_index < step) rows
      → All (λ x. checkpoint_order_desc x r ≡ false) rows
  later_first step r rows e h = All-map (λ x lower. ground arith) rows h

  latest_row :
      (r : CheckpointRow) (db db' : Database)
      → is_missing r.run_id ≡ false
      → strip r.run_id ≡ r.run_id
      → r.state_payload ≡ p.model_dump_json s
      → db'.checkpoints ≡ db.checkpoints ++ r ∷ []
      → All (λ x. x.step_index < r.step_index) (filter (of_run r.run_id) db.checkpoints)
      → (get_latest_checkpoint p r.run_id db').0 ≡ ok (some (record_of p r s))
  unfolding get_latest_checkpoint
  latest_row r db db' named plain payload grown earlier =
      let own : filter (of_run r.run_id) (r ∷ []) ≡ r ∷ [] = rw (==_refl r.run_id) refl in
      rw
        (
          named,
          plain,
          grown,
          filter-append (of_run r.run_id) db.checkpoints (r ∷ []),
          own,
          sort_by-append_first checkpoint_order_desc (filter (of_run r.run_id) db.checkpoints) r
              (later_first r.step_index r (filter (of_run r.run_id) db.checkpoints) refl earlier),
        )
        (read_first-row r payload)

  -- A state that `save_checkpoint` stores for a run, at a step above the steps of all checkpoints that
  -- the run has, is what `get_latest_checkpoint` returns for the run: the record that was handed out,
  -- with the same state. The run's name is not blank and has no blanks around it, and the text
  -- that pydantic writes of the state is read as that state.
  pub get_latest_checkpoint-save_checkpoint :
      (step : ℕ) (node : String) (k : Option String) (t : Option Timestamp) (fresh : String)
      (now : Timestamp) (db db' : Database) (c : CheckpointRecord)
      → is_missing s.run_id ≡ false
      → strip s.run_id ≡ s.run_id
      → All (λ x. x.step_index < step) (filter (of_run s.run_id) db.checkpoints)
      → save_checkpoint p s step node k t fresh now db ≡ (ok c, db')
      → (get_latest_checkpoint p s.run_id db').0 ≡ ok (some c)
  unfolding save_checkpoint checkpoint_row
  get_latest_checkpoint-save_checkpoint step node k t fresh now db db' c named plain earlier h =
      elim (Bool-cases (is_missing node)) [
        | inl e ↦ absurd (let h' = rw e at h in cc)
        | inr e ↦
            let r = checkpoint_row p s step node (given_id k fresh) (or_else t now) in
            let (inserted, handed) = stored_lem p r s (insert_checkpoint r db) c db' (rw e at h) in
            latest_row r db db' named plain refl (insert_checkpoint_lem r db db' inserted) earlier
            ∙ ap (λ x. ok (some x)) handed
      ]
