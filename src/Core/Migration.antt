-- ===== src/Core/Migration.antt =====
-- The migration of the legacy field `evidence` of core/state.py against the lists that it is given.
use agentic_test_system.Prelude.{◌≡◌, ap, sym, Option, none, some, List, [], ◌∷◌, ◌++◌}
use mathlib.Core.List.{append-nil}
use agentic_test_system.Core.Effects.{Result, ok, err}
use agentic_test_system.Core.State.{
  LegacyValue, null, single, sequence, legacy_items, migrate_legacy_evidence,
}

abbrev pub legacy_list : {A : Type 0} → Option (LegacyValue A) → List A
legacy_list none = []
legacy_list (some v) = legacy_items v

abbrev pub canonical_list : {A : Type 0} → Option (List A) → List A
canonical_list none = []
canonical_list (some xs) = xs

-- The list that a migration leaves, and another one where it raises.
abbrev list_or : {A : Type 0} → List A → Result (Option (List A)) → List A
list_or xs (ok r) = canonical_list r
list_or xs (err e) = xs

-- Where the migration returns, the evidences that it leaves are those of the legacy key followed by
-- those of the canonical key, each of them none where the key is absent.
pub migrate_legacy_evidence-items :
    {A : Type 0} (legacy : Option (LegacyValue A)) (evidences migrated : Option (List A))
    → migrate_legacy_evidence legacy evidences ≡ ok migrated
    → canonical_list migrated ≡ legacy_list legacy ++ canonical_list evidences
unfolding migrate_legacy_evidence
migrate_legacy_evidence-items none evidences m h = sym (ap (list_or []) h)
migrate_legacy_evidence-items (some null) none m h = sym (ap (list_or []) h)
migrate_legacy_evidence-items (some null) (some xs) m h = sym (ap (list_or []) h)
migrate_legacy_evidence-items (some (single a)) none m h = sym (ap (list_or []) h)
migrate_legacy_evidence-items (some (single a)) (some []) m h = sym (ap (list_or []) h)
migrate_legacy_evidence-items (some (single a)) (some (x ∷ xs)) m h = absurd cc
migrate_legacy_evidence-items (some (sequence vs)) none m h =
    rw (append-nil vs) (sym (ap (list_or []) h))
migrate_legacy_evidence-items (some (sequence vs)) (some []) m h =
    rw (append-nil vs) (sym (ap (list_or []) h))
migrate_legacy_evidence-items (some (sequence vs)) (some (x ∷ xs)) m h = absurd cc
