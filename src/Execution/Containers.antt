-- ===== src/Execution/Containers.antt =====
-- The containers that execution/service.py creates, and their removal.
use agentic_test_system.Prelude.{
  string_eq, ==_refl, ◌==◌, ap, if◌then◌else◌, false, ℤ, String, ◌≡◌, refl, ◌∙◌, Bool, Option, List,
  [], ◌∷◌, ◌<>◌, arith, inl, inr, Bool-cases,
}
use agentic_test_system.Core.{
  FilePath, ExecutionPlan, TestCandidate, ExecutionEvidence, Exn, Result, Result-cases, ok, err,
  continue, Action,
}
use agentic_test_system.Execution.Sources.{SourceTree, compute_tree_hash}
use agentic_test_system.Execution.Coverage.{parse_coverage_json}
use agentic_test_system.Execution.Session.{
  ExecutionConfig, SandboxConfig, ExecutionTools, Session, Observation,
}
use agentic_test_system.Execution.Execute.{
  deltas, run_in, run_container, read_coverage, observe, verify_source_integrity, verified_or,
  checked_after, sandbox_config,
}
use agentic_test_system.Execution.Service.{
  Job, close_session, line_of, branch_of, packaged_evidence, stage, prepare, contained, attempt_job,
  remember, settle, clean_up, fresh_session, guarded, start_job, checked_job, start_checked,
  execute,
}

-- A list without the first occurrence of a name.
abbrev pub without : String → List String → List String
without k [] = []
without k (x ∷ xs) = let rest = without k xs in if x == k then xs else x ∷ rest

module _ {World : Type 0} (tools : ExecutionTools World) (left : World → List String) where
  -- `left` lists the containers that were created and that `cleanup` was not called for by name.
  pub record IsRoll : Type 0 where
    pub created :
        (s : SandboxConfig) (k : String) (w : World)
        → (tools.create_environment s w).0 ≡ ok k
        → left (tools.create_environment s w).1 ≡ k ∷ left w
    pub refused :
        (s : SandboxConfig) (e : Exn) (w : World)
        → (tools.create_environment s w).0 ≡ err e
        → left (tools.create_environment s w).1 ≡ left w
    pub cleaned : (k : String) (w : World) → left (tools.cleanup k w).1 ≡ without k (left w)
    pub command_keeps :
        (k : String) (cmd : List String) (d : String) (w : World)
        → left (tools.execute_command k cmd d w).1 ≡ left w
    pub walk_keeps : (w : World) → left (tools.walk w).1 ≡ left w
    pub suffix_keeps : (w : World) → left (tools.uuid4_hex8 w).1 ≡ left w
    pub names_keep : (w : World) → left (tools.uuid4_hex12 w).1 ≡ left w
    pub clock_keeps : (w : World) → left (tools.now w).1 ≡ left w
    pub open_keeps : (s : String) (w : World) → left (tools.open_staging s w).1 ≡ left w
    pub stage_keeps :
        (d : FilePath) (cs : List TestCandidate) (w : World)
        → left (tools.stage_candidates d cs w).1 ≡ left w
    pub scratch_keeps : (s : String) (w : World) → left (tools.make_scratch s w).1 ≡ left w
    pub look_keeps : (d : FilePath) (w : World) → left (tools.is_file d w).1 ≡ left w
    pub report_keeps : (d : FilePath) (w : World) → left (tools.read_text d w).1 ≡ left w
    pub teardown_keeps :
        (d d' : Option FilePath) (w : World) → left (tools.teardown d d' w) ≡ left w

continue-left :
    {S A B C : Type 0} (g : S → C) (n : C) (f : A → Action S B) (r : Result A) (s : S)
    → g s ≡ n
    → ((a : A) (s' : S) → g s' ≡ n → g (f a s').1 ≡ n)
    → g (continue f r s).1 ≡ n
continue-left g n f (ok a) s h k = k a s h
continue-left g n f (err e) s h k = h

module _ {World : Type 0} (tools : ExecutionTools World) (config : ExecutionConfig)
    (left : World → List String) (is_roll : IsRoll tools left) where
  run_in-left :
      (cmd : List String) (k : String) (w : World) (ks : List String)
      → left w ≡ k ∷ ks
      → left (run_in tools config cmd k w).1 ≡ ks
  unfolding run_in
  run_in-left cmd k w ks h =
      let kept = is_roll.command_keeps k cmd "/workspace" w ∙ h in
      is_roll.cleaned k _ ∙ ap (without k) kept ∙ rw (==_refl k) refl

  run_container-left :
      (s : SandboxConfig) (cmd : List String) (w : World)
      → left (run_container tools config s cmd w).1 ≡ left w
  unfolding run_container
  run_container-left s cmd w = elim (Result-cases (tools.create_environment s w).0) [
    | inl (k, q) ↦ rw q (run_in-left cmd k _ (left w) (is_roll.created s k w q))
    | inr (e, q) ↦ rw q (is_roll.refused s e w q)
  ]

  parse_coverage_json-left :
      (d : FilePath) (w : World)
      → left (parse_coverage_json tools.reports tools.is_file tools.read_text false d w).1 ≡ left w
  unfolding parse_coverage_json
  parse_coverage_json-left d w = elim (Bool-cases (tools.is_file d w).0) [
    | inl q ↦ rw (q, parse_coverage_json) (is_roll.report_keeps d _ ∙ is_roll.look_keeps d w)
    | inr q ↦ rw (q, parse_coverage_json) (is_roll.look_keeps d w)
  ]

  read_coverage-left : (d : FilePath) (w : World) → left (read_coverage tools config d w).1 ≡ left w
  unfolding read_coverage
  read_coverage-left d w = elim (Bool-cases (tools.is_file d w).0) [
    | inl q ↦ rw (q, read_coverage) (parse_coverage_json-left d _ ∙ is_roll.look_keeps d w)
    | inr q ↦ rw (q, read_coverage) (is_roll.look_keeps d w)
  ]

  observe-left :
      (s : SandboxConfig) (cmd : List String) (d : FilePath) (w : World)
      → left (observe tools config s cmd d w).1 ≡ left w
  unfolding observe
  observe-left s cmd d w =
      let x = run_container tools config s cmd w in
      ground (arith, run_container-left s cmd w, read_coverage-left (d <> "/coverage.json") x.1)

  stage-left :
      (d : FilePath) (cs : List TestCandidate) (w : World)
      → left (stage tools config d cs w).1 ≡ left w
  unfolding stage
  stage-left d [] w = refl
  stage-left d (c ∷ cs) w = is_roll.stage_keeps d (c ∷ cs) w

  prepare-left :
      (job : Job) (m : Session World) → left (prepare tools config job m).1.world ≡ left m.world
  unfolding prepare
  prepare-left job m =
      let suffix = job.run <> "_" <> (tools.uuid4_hex8 m.world).0 in
      let w1 = (tools.uuid4_hex8 m.world).1 in
      let opened = tools.open_staging suffix w1 in
      elim (Result-cases opened.0) [
        | inl (d, q) ↦ ground (
          arith,
          is_roll.suffix_keeps m.world,
          is_roll.open_keeps suffix w1,
          stage-left d job.candidates opened.1,
          is_roll.scratch_keeps suffix (stage tools config d job.candidates opened.1).1,
        )
        | inr (e, q) ↦ ground (arith, is_roll.suffix_keeps m.world, is_roll.open_keeps suffix w1)
      ]

  verify-left :
      (pre : String) (w : World) → left (verify_source_integrity tools config pre w).1 ≡ left w
  unfolding verify_source_integrity
  verify-left pre w = is_roll.walk_keeps w

  verified_or-left :
      {A : Type 0} (r : Result A) (v : Result (Unit {0})) (w : World) (m : Session World)
      → left (verified_or tools config r (v, w) m).1.world ≡ left w
  verified_or-left r (ok u) w m = refl
  verified_or-left r (err e) w m = refl

  contained-left :
      (pre : String) (job : Job) (d : FilePath × FilePath × List String) (m : Session World)
      → left (contained tools config pre job d m).1.world ≡ left m.world
  unfolding contained checked_after
  contained-left pre job (staging, scratch, cmd) m =
      verified_or-left _ _ _ _
      ∙ verify-left pre _
      ∙ observe-left (sandbox_config tools config job.candidates staging scratch) cmd scratch
          m.world

  close_session-left :
      (job : Job) (o : Observation) (d : Option ℤ × Option ℤ) (m : Session World)
      → left (close_session tools config job o d m).1.world ≡ left m.world
  unfolding close_session remember
  close_session-left job (raw, summary, coverage) d m =
      is_roll.clock_keeps _ ∙ is_roll.names_keep m.world

  packaged_evidence-left :
      (job : Job) (o : Observation) (m : Session World)
      → left (packaged_evidence tools config job o m).1.world ≡ left m.world
  unfolding packaged_evidence
  packaged_evidence-left job o m =
      continue-left (λ s. left s.world) (left m.world) (close_session tools config job o)
        (deltas tools config m.evidence_settings o.0 (line_of tools config o)
          (branch_of tools config o) job.baseline)
        m refl (λ d m' h. close_session-left job o d m' ∙ h)

  attempt_job-left :
      (pre : String) (job : Job) (m : Session World)
      → left (attempt_job tools config pre job m).1.world ≡ left m.world
  unfolding attempt_job
  attempt_job-left pre job m =
      let x = prepare tools config job m in
      continue-left (λ s. left s.world) (left m.world)
        (λ d m'.
          continue (packaged_evidence tools config job) (contained tools config pre job d m').0
            (contained tools config pre job d m').1)
        x.0 x.1 (prepare-left job m)
        (λ d m1 h1.
          continue-left (λ s. left s.world) (left m.world) (packaged_evidence tools config job)
            (contained tools config pre job d m1).0 (contained tools config pre job d m1).1
            (contained-left pre job d m1 ∙ h1) (λ o m2 h2. packaged_evidence-left job o m2 ∙ h2))

  settle-left :
      (pre : String) (x : Result ExecutionEvidence × Session World)
      → left (settle tools config pre x).1.world ≡ left x.1.world
  unfolding settle
  settle-left pre (ok e, m) = refl
  settle-left pre (err e, m) = ground (arith, verify-left pre m.world)

  clean_up-left :
      (release : Bool) (base : Option ExecutionEvidence) (m : Session World)
      → left (clean_up tools config release base m).world ≡ left m.world
  unfolding clean_up
  clean_up-left release base m = elim (Bool-cases config.keep_artifacts) [
    | inl q ↦ rw q refl
    | inr q ↦ rw q (is_roll.teardown_keeps m.staging_dir m.scratch_dir m.world)
  ]

  guarded-left :
      (release : Bool) (job : Job) (r : Result SourceTree) (m : Session World)
      → left (guarded tools config release job r m).1.world ≡ left m.world
  unfolding guarded
  guarded-left release job (err e) m = refl
  guarded-left release job (ok t) m =
      let pre = compute_tree_hash tools.digest t in
      let x = attempt_job tools config pre job (fresh_session tools config m) in
      clean_up-left release job.baseline (settle tools config pre x).1
      ∙ settle-left pre x
      ∙ attempt_job-left pre job (fresh_session tools config m)

  start_checked-left :
      (release : Bool) (job : Result Job) (m : Session World)
      → left (start_checked tools config release job m).1.world ≡ left m.world
  unfolding start_job
  start_checked-left release (err e) m = refl
  start_checked-left release (ok job) m =
      guarded-left release job (tools.walk m.world).0 (record m { world = (tools.walk m.world).1 })
      ∙ is_roll.walk_keeps m.world

  -- Whether `execute` returns or raises, it leaves no container behind: those that were created and
  -- that `cleanup` was not called for are, by their names, the same as before. Only the creation of a
  -- container adds its name to them, and only a call of `cleanup` with a name takes that name away.
  pub execute-left :
      (plan : ExecutionPlan) (cs : List TestCandidate) (run k : Option String)
      (base : Option ExecutionEvidence) (release : Bool) (m : Session World)
      → left (execute tools config plan cs run k base release m).1.world ≡ left m.world
  unfolding execute
  execute-left plan cs run k base release m =
      start_checked-left release (checked_job tools config plan cs run k base) m
