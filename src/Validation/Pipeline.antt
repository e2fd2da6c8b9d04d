-- ===== src/Validation/Pipeline.antt =====
-- validation/pipeline.py: the gates in their order, the first failure deciding.
use agentic_test_system.Prelude.{
  String, true, false, Option, none, some, List, [], ◌∷◌, ◌==◌, if◌then◌else◌, is_blank,
}
use agentic_test_system.Core.{
  Timestamp, TestCandidate, ValidationStatus, passed, quarantined, status_eq, Action, pure, ◌>>=◌,
}
use agentic_test_system.Workflow.Services.{ValidationResult}

-- The method `validate` of a gate.
abbrev pub Gate : Type 0 → Type 0
Gate World = TestCandidate → Action World ValidationResult

abbrev pub Screened : Type 0
Screened = TestCandidate × ValidationResult

-- `_reconstruct_candidate`: the same candidate under another status.
abbrev pub with_status : TestCandidate → ValidationStatus → TestCandidate
with_status c status = record c { validation_status = status }

-- `candidate.quarantine_reason or "…"`.
abbrev pub quarantine_message : Option String → String
quarantine_message none = "Candidate quarantined prior to validation"
quarantine_message (some m) = if is_blank m then "Candidate quarantined prior to validation" else m

abbrev pub quarantine_result : TestCandidate → Timestamp → ValidationResult
quarantine_result c now = record {
  candidate_id = c.candidate_id;
  status = quarantined;
  gate = "PRE_VALIDATION";
  passed = false;
  error_message = some (quarantine_message c.quarantine_reason);
  diagnostics = [];
  created_at = now;
}

abbrev pub static_result : TestCandidate → Timestamp → ValidationResult
static_result c now = record {
  candidate_id = c.candidate_id;
  status = passed;
  gate = "STATIC_PIPELINE";
  passed = true;
  error_message = none;
  diagnostics = [];
  created_at = now;
}

-- `clock` is datetime.now(timezone.utc). The collection validator is none of the validators: the
-- default pipeline never holds it twice.
module _ {World : Type 0} (clock : Action World Timestamp) where
  -- Behind the validators: the collection gate, where there is one.
  unfoldable pub collect : Option (Gate World) → TestCandidate → Action World Screened
  collect none c = do t ← clock; pure (with_status c passed, static_result c t)
  collect (some gate) c = do
    r ← gate c
    pure (with_status c (if r.passed then passed else r.status), r)

  -- `for validator in self._validators`, and what is behind the loop.
  unfoldable pub screen :
      List (Gate World) → Option (Gate World) → TestCandidate → Action World Screened
  unfolding collect
  screen [] collection c = collect collection c
  screen (gate ∷ gates) collection c = do
    r ← gate c
    (let rest = screen gates collection c in
        if r.passed then rest else pure (with_status c r.status, r))

  unfoldable pub validate_candidate :
      List (Gate World) → Option (Gate World) → TestCandidate → Action World Screened
  unfolding screen
  validate_candidate gates collection c =
      if c.validation_status == quarantined
      then (do t ← clock; pure (c, quarantine_result c t))
      else screen gates collection c

  unfoldable pub validate_candidates :
      List (Gate World) → Option (Gate World) → List TestCandidate → Action World (List Screened)
  unfolding validate_candidate
  validate_candidates gates collection [] = pure []
  validate_candidates gates collection (c ∷ cs) = do
    x ← validate_candidate gates collection c
    xs ← validate_candidates gates collection cs
    pure (x ∷ xs)
