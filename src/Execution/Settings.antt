-- ===== src/Execution/Settings.antt =====
-- execution/service.py: the registry of coverage settings, at most fifty of them.
use agentic_test_system.Prelude.{
  String, Bool, true, false, ◌&&◌, Option, none, some, List, [], ◌∷◌, ◌==◌, string_eq, leb, length,
  if◌then◌else◌,
}

pub record CoverageSettings : Type 0 where
  pub source_root : String
  pub cov_source : String
  pub cov_branch : Bool

-- `_evidence_settings`, in the order of insertion.
abbrev pub Registry : Type 0
Registry = List (String × CoverageSettings)

same_flag : Bool → Bool → Bool
same_flag true b = b
same_flag false true = false
same_flag false false = true

unfoldable pub same_settings : CoverageSettings → CoverageSettings → Bool
unfolding same_flag
same_settings a b =
    a.source_root == b.source_root
    && a.cov_source == b.cov_source
    && same_flag a.cov_branch b.cov_branch

unfoldable pub drop_oldest : Registry → Registry
drop_oldest [] = []
drop_oldest (x ∷ xs) = xs

-- `settings[k] = s`: in place, or behind the others.
unfoldable pub put : String → CoverageSettings → Registry → Registry
put k s [] = (k, s) ∷ []
put k s (x ∷ xs) = let rest = put k s xs in if x.0 == k then (k, s) ∷ xs else x ∷ rest

unfoldable pub register_evidence_settings : String → CoverageSettings → Registry → Registry
unfolding drop_oldest put
register_evidence_settings k s xs = put k s (if leb 50 (length xs) then drop_oldest xs else xs)

unfoldable pub get_evidence_settings : String → Registry → Option CoverageSettings
get_evidence_settings k [] = none
get_evidence_settings k (x ∷ xs) = if x.0 == k then some x.1 else get_evidence_settings k xs

-- `settings.pop(k, None)`
unfoldable pub release_evidence_settings : String → Registry → Registry
release_evidence_settings k [] = []
release_evidence_settings k (x ∷ xs) =
    let rest = release_evidence_settings k xs in if x.0 == k then xs else x ∷ rest

abbrev pub clear_evidence_settings : Registry → Registry
clear_evidence_settings xs = []
