-- ===== src/Storage/Events.antt =====
-- storage/events.py: the append-only event log, `emit_event` and `get_events`.
use agentic_test_system.Prelude.{
  String, Bool, true, ◌&&◌, not, Option, none, some, List, [], ◌∷◌, ◌++◌, strip, is_missing,
  is_blank, ◌==◌, string_eq, or_else, filter, leb, if◌then◌else◌, is_some, sort_by, then_by,
  text_leb,
}
use agentic_test_system.Core.{Timestamp, value_error, integrity_error, Result, ok, err, Action}
use agentic_test_system.Storage.Table.{find_row}
use agentic_test_system.Storage.Database.{Moment, in_utc, EventRecord, Payload, Database}
use agentic_test_system.Storage.Runs.{has_run}

abbrev pub event_key : EventRecord → String
event_key r = r.event_id

-- INSERT INTO events
unfoldable pub insert_event : EventRecord → Action Database EventRecord
insert_event r db =
    if is_some (find_row event_key r.event_id db.events)
    then (err (integrity_error "UNIQUE constraint failed: events.event_id"), db)
    else if not (has_run db r.run_id)
    then (err (integrity_error "FOREIGN KEY constraint failed"), db)
    else (ok r, record db { events = db.events ++ r ∷ [] })

-- The identifier that is given, which must not be blank, or a fresh one.
abbrev pub chosen_id : Option String → String → Result String
chosen_id none fresh = ok fresh
chosen_id (some k) fresh =
    if is_blank (strip k)
    then err (value_error "event_id must not be empty when supplied")
    else ok (strip k)

abbrev pub insert_chosen : (String → EventRecord) → Result String → Action Database EventRecord
insert_chosen event (ok k) db = insert_event (event k) db
insert_chosen event (err e) db = (err e, db)

-- The last two arguments are a fresh identifier and the time of the clock, for what is left out.
unfoldable pub emit_event :
    String
    → String
    → Payload
    → Option String
    → Option Moment
    → Option String
    → String
    → Timestamp
    → Action Database EventRecord
unfolding insert_event
emit_event run event_type payload node t k fresh now db =
    if is_missing run
    then (err (value_error "run_id must be a non-empty string"), db)
    else if is_missing event_type
    then (err (value_error "event_type must be a non-empty string"), db)
    else insert_chosen
        (λ event_id. record {
          event_id = event_id;
          run_id = strip run;
          event_type = strip event_type;
          node_name = node;
          payload = payload;
          emitted_at = or_else t (in_utc now);
        })
        (chosen_id k fresh) db

abbrev pub of_type : Option String → EventRecord → Bool
of_type none r = true
of_type (some t) r = r.event_type == strip t

-- ORDER BY emitted_at ASC, rowid ASC: rows stand in the order of their rowid, and the sort is
-- stable. What is sorted are texts as `isoformat` gives them: a text of a smaller date and time of day
-- comes first, also where the other one has a fraction of the second and it has none, and of two with
-- the same date and time the one with the smaller text of the offset.
abbrev pub event_order : EventRecord → EventRecord → Bool
event_order =
    then_by (λ a b. leb a.emitted_at.wall b.emitted_at.wall)
      (λ a b. text_leb a.emitted_at.offset b.emitted_at.offset)

unfoldable pub get_events : String → Option String → Action Database (List EventRecord)
get_events run t db =
    if is_missing run then (err (value_error "run_id must be a non-empty string"), db) else (
      ok (sort_by event_order (filter (λ r. r.run_id == strip run && of_type t r) db.events)),
      db,
    )
