-- ===== src/Storage/Retrieval.antt =====
-- The queries of storage/repository.py and storage/events.py behind their writes.
use agentic_test_system.Prelude.{
  any-filter, ==_refl, String, ◌≡◌, refl, sym, ap, ◌∙◌, any, not, any-sort_by, All-map, Bool, true,
  false, ◌&&◌, Option, none, some, List, [], ◌∷◌, ◌++◌, arith, strip, is_missing, ◌==◌, string_eq,
  ==_of_ne, filter, all, leb, All, sort_by, IsSorted, IsOrder, sort_by-IsSorted, then_by-IsOrder,
  text_leb_total, text_leb_trans, nat_eq, Bool-cases, inl, inr, ◌≢◌,
}
use text.Mathlib.TextEquality.{eq_iff}
use mathlib.Core.Path.{subst}
use agentic_test_system.Core.{
  WorkflowState, Result-cases, FilePath, Timestamp, TestCandidate, Platform, Result, ok, err,
}
use agentic_test_system.Storage.Table.{find_row-upsert}
use agentic_test_system.Storage.Database.{
  Moment, RunRecord, CheckpointRow, EventRecord, Database, Payload,
}
use agentic_test_system.Storage.Runs.{
  run_key, RunFields, build_run, target_run, store_run, save_run, get_run,
}
use agentic_test_system.Storage.Candidates.{
  candidate_key, candidate_row, candidate_of_row, store_candidate, save_candidate, get_candidate,
}
use agentic_test_system.Storage.Checkpoints.{
  checkpoint_order, checkpoint_order_desc, of_run, first_row, CheckpointRecord, read_first,
  read_checkpoint, get_latest_checkpoint,
}
use agentic_test_system.Storage.Events.{
  insert_event, insert_chosen, chosen_id, of_type, emit_event, get_events,
}

build_run-key :
    (k : String) (path : Option FilePath) (meta : Option (String × String × String)) (f : RunFields)
    (now : Timestamp) (r : RunRecord)
    → build_run k path meta f now ≡ ok r
    → r.run_id ≡ strip k
unfolding build_run
build_run-key k none meta f now r h = absurd cc
build_run-key k (some path) none f now r h = absurd cc
build_run-key k (some path) (some (c, b, n)) f now r h = sym (ap (λ x. key_or k x) h)
  where
    key_or : String → Result RunRecord → String
    key_or k (ok r) = r.run_id
    key_or k (err e) = k

target_run-key :
    (f : RunFields) (now : Timestamp) (k : String) (r : RunRecord)
    → f.run_id ≡ some k
    → target_run f now ≡ ok r
    → (is_missing k ≡ false) × (r.run_id ≡ strip k)
unfolding target_run
target_run-key f now k r given h = elim (Bool-cases (is_missing k)) [
  | inl e ↦ absurd (let h' = rw (given, e) at h in cc)
  | inr e ↦ (e, build_run-key k _ _ (record f { run_id = some k }) now r (rw (given, e) at h))
]

-- A record that `save_run` builds from its keyword arguments is what `get_run` finds afterwards under
-- the name that the caller gave, whatever blanks stand around it.
pub get_run-save_run :
    (f : RunFields) (now : Timestamp) (k : String) (db : Database) (r : RunRecord)
    → f.run_id ≡ some k
    → target_run f now ≡ ok r
    → (get_run k (save_run none f now db).1).0 ≡ ok (some r)
unfolding save_run store_run get_run
get_run-save_run f now k db r given h =
    let (named, key) = target_run-key f now k r given h in
    rw (h, named)
      (ground (arith, find_row-upsert run_key (strip k) r db.runs, eq_iff r.run_id (strip k)))

-- A candidate that is saved, under an identifier that is not blank and has no blanks around it, is
-- read back as it was, but for its imports, which the table does not hold.
pub get_candidate-save_candidate :
    (c c' : TestCandidate) (db : Database)
    → is_missing c.candidate_id ≡ false
    → strip c.candidate_id ≡ c.candidate_id
    → (save_candidate c db).0 ≡ ok c'
    → (get_candidate c.candidate_id (save_candidate c db).1).0
      ≡ ok (some (record c { imports = [] }))
unfolding save_candidate store_candidate get_candidate candidate_row candidate_of_row
get_candidate-save_candidate c c' db named plain h = ground (
  arith,
  find_row-upsert candidate_key c.candidate_id (candidate_row c) db.test_candidates,
  eq_iff c.candidate_id c.candidate_id,
)

checkpoint_order-IsOrder : IsOrder checkpoint_order
checkpoint_order-IsOrder =
    then_by-IsOrder (λ a b. leb a.step_index b.step_index) _
      (record { total = λ x y h. ground arith; trans = λ x y z h h'. ground arith })
      (then_by-IsOrder (λ a b. leb a.created_at b.created_at) _
        (record { total = λ x y h. ground arith; trans = λ x y z h h'. ground arith })
        (record {
          total = λ x y h. text_leb_total x.checkpoint_id y.checkpoint_id h;
          trans = λ x y z h h'. text_leb_trans x.checkpoint_id y.checkpoint_id z.checkpoint_id h h';
        }))

reversed-IsOrder : IsOrder checkpoint_order_desc
reversed-IsOrder = record {
  total = λ x y h. checkpoint_order-IsOrder.total y x h;
  trans = λ x y z h h'. checkpoint_order-IsOrder.trans z y x h' h;
}

module _ {A : Type 0} where
  all-any : (p : A → Bool) (xs : List A) → all p xs ≡ not (any (λ x. not (p x)) xs)
  all-any p [] = refl
  all-any p (x ∷ xs) = ground (arith, all-any p xs)

  -- A test that every element of a sorted list passes is passed by every element of the list.
  all_unsorted :
      (le : A → A → Bool) (p : A → Bool) (xs : List A)
      → all p (sort_by le xs) ≡ true
      → all p xs ≡ true
  all_unsorted le p xs h =
      rw (all-any p xs, sym (any-sort_by le (λ x. not (p x)) xs), sym (all-any p (sort_by le xs))) h

  all_of_All : (p : A → Bool) (xs : List A) → All (λ x. p x ≡ true) xs → all p xs ≡ true
  all_of_All p [] h = refl
  all_of_All p (x ∷ xs) h = rw (h.0, all_of_All p xs h.1)

abbrev not_above : CheckpointRow → CheckpointRow → Bool
not_above r x = leb x.step_index r.step_index

first_row-greatest :
    (rs : List CheckpointRow) (r : CheckpointRow)
    → IsSorted checkpoint_order_desc rs
    → first_row rs ≡ some r
    → all (not_above r) rs ≡ true
first_row-greatest [] r s h = absurd cc
first_row-greatest (x ∷ rs) r s h =
    let same : x ≡ r = cc in
    let bounded =
      all_of_All (not_above x) (x ∷ rs) (ground arith, All-map (λ y e. ground arith) rs s.0) in
    sym (ap (λ q. all (not_above q) (x ∷ rs)) same) ∙ bounded

module _ (p : Platform) where
  -- A row of the run that a checkpoint is the record of.
  abbrev pub is_row_of : String → CheckpointRecord → CheckpointRow → Bool
  is_row_of k c r =
      of_run (strip k) r
      && (r.run_id == c.run_id
          && r.checkpoint_id == c.checkpoint_id
          && r.step_index == c.step_index
          && r.node_name == c.node_name
          && r.created_at == c.created_at)

  record IsRead (c : CheckpointRecord) (r : CheckpointRow) : Type 0 where
    step : r.step_index ≡ c.step_index
    matches :
        (r.run_id == c.run_id
          && r.checkpoint_id == c.checkpoint_id
          && r.step_index == c.step_index
          && r.node_name == c.node_name
          && r.created_at == c.created_at)
        ≡ true

  record_of : CheckpointRow → WorkflowState → CheckpointRecord
  record_of r s = record {
    checkpoint_id = r.checkpoint_id;
    run_id = r.run_id;
    step_index = r.step_index;
    node_name = r.node_name;
    state = s;
    created_at = r.created_at;
  }

  record_of-IsRead : (r : CheckpointRow) (s : WorkflowState) → IsRead (record_of r s) r
  unfolding record_of
  record_of-IsRead r s = record {
    step = refl;
    matches =
        rw
          (
            ==_refl r.run_id,
            ==_refl r.checkpoint_id,
            ==_refl r.step_index,
            ==_refl r.node_name,
            ==_refl r.created_at,
          )
          refl;
  }

  read_first-IsRead :
      (o : Option CheckpointRow) (c : CheckpointRecord)
      → read_first p o ≡ ok (some c)
      → (r : CheckpointRow) × (o ≡ some r) × IsRead c r
  unfolding read_first read_checkpoint record_of
  read_first-IsRead none c h = absurd cc
  read_first-IsRead (some r) c h = elim (Result-cases (p.model_validate_json r.state_payload)) [
    | inr (e, q) ↦ absurd (let h' = rw (q, read_first) at h in cc)
    | inl (s, q) ↦
        let same : record_of r s ≡ c = (let h' = rw (q, read_first) at h in cc) in
        (r, refl, subst (λ x. IsRead x r) same (record_of-IsRead r s))
  ]

  first_row-any :
      (q : CheckpointRow → Bool) (rs : List CheckpointRow) (r : CheckpointRow)
      → first_row rs ≡ some r
      → q r ≡ true
      → any q rs ≡ true
  first_row-any q [] r h m = absurd cc
  first_row-any q (x ∷ rs) r h m = let same : x ≡ r = cc in rw (same, m) refl

  -- The checkpoint that `get_latest_checkpoint` returns is read from a row of the run in the table,
  -- and has the highest step of all checkpoints of the run.
  pub latest_is_highest :
      (k : String) (db : Database) (c : CheckpointRecord)
      → (get_latest_checkpoint p k db).0 ≡ ok (some c)
      → (any (is_row_of k c) db.checkpoints ≡ true)
        × (all (λ r. leb r.step_index c.step_index) (filter (of_run (strip k)) db.checkpoints)
            ≡ true)
  unfolding get_latest_checkpoint
  latest_is_highest k db c h = elim (Bool-cases (is_missing k)) [
    | inl e ↦ absurd (let h' = rw e at h in cc)
    | inr e ↦
        let rows = filter (of_run (strip k)) db.checkpoints in
        let (r, first, read) =
          read_first-IsRead (first_row (sort_by checkpoint_order_desc rows)) c (rw e at h) in
        let matching : CheckpointRow → Bool = λ x.
          x.run_id == c.run_id
          && x.checkpoint_id == c.checkpoint_id
          && x.step_index == c.step_index
          && x.node_name == c.node_name
          && x.created_at == c.created_at in
        (
          sym (any-filter (of_run (strip k)) matching db.checkpoints)
              ∙ sym (any-sort_by checkpoint_order_desc matching rows)
              ∙ first_row-any matching (sort_by checkpoint_order_desc rows) r first read.matches,
          all_unsorted checkpoint_order_desc _ rows (
              rw (sym read.step) (
                first_row-greatest (sort_by checkpoint_order_desc rows) r
                  (sort_by-IsSorted checkpoint_order_desc reversed-IsOrder rows) first)),
        )
  ]

filter-append_one :
    {A : Type 0} (q : A → Bool) (x : A) (xs : List A)
    → q x ≡ false
    → filter q (xs ++ x ∷ []) ≡ filter q xs
filter-append_one q x [] h = rw h refl
filter-append_one q x (y ∷ xs) h = rw (filter-append_one q x xs h) refl

insert_chosen-filter :
    (q : EventRecord → Bool) (event : String → EventRecord) (k : Result String) (db : Database)
    → ((i : String) → q (event i) ≡ false)
    → filter q (insert_chosen event k db).1.events ≡ filter q db.events
unfolding insert_event
insert_chosen-filter q event (err e) db h = refl
insert_chosen-filter q event (ok k) db h =
    ground (arith, filter-append_one q (event k) db.events (h k))

emit_event-filter :
    (q : EventRecord → Bool) (run event_type : String) (payload : Payload) (at_node : Option String)
    (t : Option Moment) (k : Option String) (fresh : String) (now : Timestamp) (db : Database)
    → ((e : EventRecord) → e.run_id ≡ strip run → q e ≡ false)
    → filter q (emit_event run event_type payload at_node t k fresh now db).1.events
      ≡ filter q db.events
unfolding emit_event
emit_event-filter q run event_type payload at_node t k fresh now db h =
    elim (Bool-cases (is_missing run)) [
      | inl e ↦ rw e refl
      | inr e ↦ rw e (elim (Bool-cases (is_missing event_type)) [
        | inl e' ↦ rw e' refl
        | inr e' ↦ rw e' (insert_chosen-filter q _ (chosen_id k fresh) db (λ i. h _ refl))
      ])
    ]

-- The events that `get_events` lists of a run, of all types or of one, are the same before and after
-- `emit_event` is called for another run, whose name differs by more than blanks around it.
pub get_events-emit_event :
    (run run' event_type : String) (payload : Payload) (at_node : Option String) (t : Option Moment)
    (k : Option String) (fresh : String) (now : Timestamp) (wanted : Option String) (db : Database)
    → strip run ≢ strip run'
    → (get_events run' wanted (emit_event run event_type payload at_node t k fresh now db).1).0
      ≡ (get_events run' wanted db).0
unfolding get_events
get_events-emit_event run run' event_type payload at_node t k fresh now wanted db other =
    elim (Bool-cases (is_missing run')) [
      | inl e ↦ rw e refl
      | inr e ↦
          rw
            (
              e,
              emit_event-filter (λ r. r.run_id == strip run' && of_type wanted r) run event_type
                  payload at_node t k fresh now db
                  (λ r own. rw own (rw (==_of_ne (strip run) (strip run') other) refl)),
            )
            refl
    ]
