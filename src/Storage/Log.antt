-- ===== src/Storage/Log.antt =====
-- storage/events.py as a log: what the event store tells of the events that it acknowledged.
use agentic_test_system.Prelude.{
  nat_eq, String, ◌≡◌, Bool, ◌&&◌, Option, List, [], ◌∷◌, ◌++◌, strip, filter, ◌==◌, string_eq,
  sort_by, IsSorted,
}
use agentic_test_system.Core.{Platform, Result, ok, err}
use agentic_test_system.Storage.Database.{Moment, EventRecord, Database}
use agentic_test_system.Storage.Events.{emit_event, event_order, of_type}
use agentic_test_system.Storage.History.{Write, write_event, perform}

abbrev pub acknowledged : Result EventRecord → List EventRecord
acknowledged (ok r) = r ∷ []
acknowledged (err e) = []

module _ (p : Platform) where
  -- The event that a write hands back, if it is one of the event store and does not raise.
  abbrev pub event_of : Write → Database → List EventRecord
  event_of (write_event run event_type payload at_node t k fresh now) db =
      acknowledged (emit_event run event_type payload at_node t k fresh now db).0
  event_of _ db = []

  -- The log: what the writes hand back, one after another.
  unfoldable pub log_of : List Write → Database → List EventRecord
  unfolding perform
  log_of [] db = []
  log_of (w ∷ ws) db = event_of w db ++ log_of ws (perform p w db)

  unfoldable pub perform_all : List Write → Database → Database
  unfolding perform
  perform_all [] db = db
  perform_all (w ∷ ws) db = perform_all ws (perform p w db)

-- Whether an event has a time.
abbrev pub is_at : Moment → EventRecord → Bool
is_at time r = r.emitted_at.wall == time.wall && r.emitted_at.offset == time.offset

-- An answer to a query of a log: the events are in the order of the texts of their times, and of each
-- time they are those of the log that the query asks for, in the order of the log.
pub record IsAnswer (log : List EventRecord) (run : String) (t : Option String)
    (found : List EventRecord) : Type 0 where
  pub in_time : IsSorted event_order found
  pub of_moment :
      (time : Moment)
      → filter (is_at time) found
        ≡ filter (λ r. r.run_id == strip run && of_type t r && is_at time r) log

abbrev found_in : List EventRecord → String → Option String → List EventRecord
found_in events run t =
    sort_by event_order (filter (λ r. r.run_id == strip run && of_type t r) events)
