-- ===== src/Execution/Integrity.antt =====
-- The sources that execution/service.py mounts, before and after an execution.
use agentic_test_system.Prelude.{
  String, ◌≡◌, refl, sym, ap, ◌∙◌, Bool, true, false, ◌||◌, Option, List, ◌==◌, string_eq, eq_of_==,
  arith, Bool-cases, inl, inr, if◌then◌else◌,
}
use agentic_test_system.Core.{
  FilePath, ExecutionPlan, TestCandidate, ExecutionEvidence, Exn, Result, ok, err, continue,
}
use agentic_test_system.Execution.Sources.{
  SourceTree, absent, lone_file, directory, compute_tree_hash,
}
use agentic_test_system.Execution.Session.{
  ExecutionConfig, ExecutionTools, Session, is_integrity_error, Observation,
}
use agentic_test_system.Execution.Execute.{
  integrity_verdict, verify_source_integrity, verified_or, checked_after,
}
use agentic_test_system.Execution.Service.{
  Job, packaged_evidence, prepare, contained, attempt_job, raised_or, settle, clean_up, finally,
  fresh_session, guarded, start_job, checked_job, start_checked, execute,
}

abbrev pub is_tampered : {A : Type 0} → Result A → Bool
is_tampered (ok a) = false
is_tampered (err e) = is_integrity_error e

abbrev has_value : {A : Type 0} → Result A → Bool
has_value (ok a) = true
has_value (err e) = false

module _ {World : Type 0} (tools : ExecutionTools World) (source : World → SourceTree) where
  -- `source` is the tree at the source root: a walk that succeeds reads it, and neither a walk, a
  -- fresh identifier, a look at the clock nor the removal of the session's own directories changes
  -- it.
  pub record IsSource : Type 0 where
    pub reads : (w : World) (t : SourceTree) → (tools.walk w).0 ≡ ok t → t ≡ source w
    pub walk_keeps : (w : World) → source (tools.walk w).1 ≡ source w
    pub names_keep : (w : World) → source (tools.uuid4_hex12 w).1 ≡ source w
    pub clock_keeps : (w : World) → source (tools.now w).1 ≡ source w
    pub teardown_keeps :
        (d d' : Option FilePath) (w : World) → source (tools.teardown d d' w) ≡ source w

  -- The hash of the sources in a world.
  abbrev pub hash_at : World → String
  hash_at w = compute_tree_hash tools.digest (source w)

module _ {World : Type 0} (tools : ExecutionTools World) (config : ExecutionConfig)
    (source : World → SourceTree) (is_source : IsSource tools source) (h : String) where
  -- Behind the container: where the flag is set the hash is right, and a value comes with the flag.
  record Guarded {A : Type 0} (x : Result A × Session World) : Type 0 where
    looked : x.1.integrity_verified ≡ true → hash_at tools source x.1.world ≡ h
    valued : has_value x.0 ≡ true → x.1.integrity_verified ≡ true

  prepare-flag :
      (job : Job) (m : Session World)
      → m.integrity_verified ≡ false
      → (prepare tools config job m).1.integrity_verified ≡ false
  unfolding prepare
  prepare-flag job m e = ground arith

  verdict-hash :
      (pre : String) (r : Result SourceTree) (u : Unit {0})
      → integrity_verdict tools config pre r ≡ ok u
      → (t : SourceTree) × (r ≡ ok t) × (compute_tree_hash tools.digest t ≡ pre)
  unfolding integrity_verdict
  verdict-hash pre (err e) u q = absurd cc
  verdict-hash pre (ok absent) u q = absurd cc
  verdict-hash pre (ok (lone_file c)) u q = absurd cc
  verdict-hash pre (ok (directory fs)) u q =
      elim (Bool-cases (compute_tree_hash tools.digest (directory fs) == pre)) [
        | inl same ↦
            (directory fs, refl, eq_of_== (compute_tree_hash tools.digest (directory fs)) pre same)
        | inr other ↦ absurd (let q' = rw other at q in cc)
      ]

  -- A look that raises nothing found the hash.
  look-hash :
      (w : World) (u : Unit {0})
      → (verify_source_integrity tools config h w).0 ≡ ok u
      → hash_at tools source (verify_source_integrity tools config h w).1 ≡ h
  unfolding verify_source_integrity
  look-hash w u q =
      let (t, read, hash) = verdict-hash h (tools.walk w).0 u q in
      ap (λ x. compute_tree_hash tools.digest x)
        (is_source.walk_keeps w ∙ sym (is_source.reads w t read))
      ∙ hash

  verified_or-Guarded :
      {A : Type 0} (r : Result A) (v : Result (Unit {0})) (w : World) (m : Session World)
      → m.integrity_verified ≡ false
      → ((u : Unit {0}) → v ≡ ok u → hash_at tools source w ≡ h)
      → Guarded (verified_or tools config r (v, w) m)
  verified_or-Guarded r (ok u) w m e k = record { looked = λ q. k u refl; valued = λ q. refl }
  verified_or-Guarded r (err x) w m e k = record {
    looked = λ q. absurd cc;
    valued = λ q. absurd cc;
  }

  checked_after-Guarded :
      {A : Type 0} (x : Result A × Session World)
      → x.1.integrity_verified ≡ false
      → Guarded (checked_after tools config h x)
  unfolding checked_after
  checked_after-Guarded (r, m) e =
      verified_or-Guarded r (verify_source_integrity tools config h m.world).0
        (verify_source_integrity tools config h m.world).1 m e (look-hash m.world)

  packaged_evidence-flag :
      (job : Job) (o : Observation) (m : Session World)
      → (packaged_evidence tools config job o m).1.integrity_verified ≡ m.integrity_verified
  unfolding packaged_evidence
  packaged_evidence-flag job (raw, summary, coverage) m = ground arith

  packaged_evidence-source :
      (job : Job) (o : Observation) (m : Session World)
      → source (packaged_evidence tools config job o m).1.world ≡ source m.world
  unfolding packaged_evidence
  packaged_evidence-source job (raw, summary, coverage) m =
      ground
        (arith, is_source.names_keep m.world, is_source.clock_keeps (tools.uuid4_hex12 m.world).1)

  packaged-Guarded :
      (job : Job) (r : Result Observation) (m : Session World)
      → Guarded (r, m)
      → Guarded (continue (packaged_evidence tools config job) r m)
  packaged-Guarded job (err x) m g = record { looked = g.looked; valued = λ q. absurd cc }
  packaged-Guarded job (ok o) m g = record {
    looked = λ q.
        ap (λ t. compute_tree_hash tools.digest t) (packaged_evidence-source job o m)
        ∙ g.looked (g.valued refl);
    valued = λ q. packaged_evidence-flag job o m ∙ g.valued refl;
  }

  from_prepared :
      (job : Job) (r : Result (FilePath × FilePath × List String)) (m : Session World)
      → m.integrity_verified ≡ false
      → Guarded (
          continue
            (λ d m'.
              continue
                (packaged_evidence tools config job)
                (contained tools config h job d m').0
                (contained tools config h job d m').1)
            r
            m)
  unfolding contained
  from_prepared job (err x) m e = record { looked = λ q. absurd cc; valued = λ q. absurd cc }
  from_prepared job (ok (staging, scratch, cmd)) m e =
      packaged-Guarded job (contained tools config h job (staging, scratch, cmd) m).0
        (contained tools config h job (staging, scratch, cmd) m).1 (checked_after-Guarded _ e)

  attempt_job-Guarded :
      (job : Job) (m : Session World)
      → m.integrity_verified ≡ false
      → Guarded (attempt_job tools config h job m)
  unfolding attempt_job
  attempt_job-Guarded job m e =
      from_prepared job (prepare tools config job m).0 (prepare tools config job m).1
        (prepare-flag job m e)

  -- Unless the exception is the one for tampered sources, the sources have the hash.
  record Kept {A : Type 0} (x : Result A × Session World) : Type 0 where
    kept : is_tampered x.0 ≡ false → hash_at tools source x.1.world ≡ h

  looked_again :
      (e : Exn) (v : Result (Unit {0})) (w : World) (m : Session World)
      → ((u : Unit {0}) → v ≡ ok u → hash_at tools source w ≡ h)
      → ((e' : Exn) → v ≡ err e' → is_integrity_error e' ≡ true)
      → Kept (raised_or tools config e v, record m { world = w })
  looked_again e (ok u) w m k t = record { kept = λ q. k u refl }
  looked_again e (err e') w m k t = record { kept = λ q. absurd (let i = t e' refl in cc) }

  verdict-tampered :
      (pre : String) (r : Result SourceTree) (e : Exn)
      → integrity_verdict tools config pre r ≡ err e
      → is_integrity_error e ≡ true
  unfolding integrity_verdict
  verdict-tampered pre r e q = ground arith

  Kept-if :
      {A : Type 0} (b : Bool) (x y : Result A × Session World)
      → (b ≡ true → Kept x)
      → (b ≡ false → Kept y)
      → Kept (if◌then◌else◌ {A = Result A × Session World} b x y)
  Kept-if true x y k k' = k refl
  Kept-if false x y k k' = k' refl

  settle-Kept :
      (x : Result ExecutionEvidence × Session World) → Guarded x → Kept (settle tools config h x)
  unfolding settle verify_source_integrity
  settle-Kept (ok e, m) g = record { kept = λ q. g.looked (g.valued refl) }
  settle-Kept (err e, m) g =
      Kept-if (is_integrity_error e || m.integrity_verified) _ _
        (λ t. record { kept = λ q. g.looked (ground arith) })
        (λ f.
          looked_again e (verify_source_integrity tools config h m.world).0
            (verify_source_integrity tools config h m.world).1 m (look-hash m.world)
            (λ e' q. verdict-tampered h (tools.walk m.world).0 e' q))

  cleaned-Kept :
      (release : Bool) (base : Option ExecutionEvidence)
      (x : Result ExecutionEvidence × Session World)
      → Kept x
      → Kept (finally tools config (clean_up tools config release base) x)
  unfolding clean_up
  cleaned-Kept release base (r, m) k = record {
    kept = λ q. elim (Bool-cases config.keep_artifacts) [
      | inl e ↦ rw e (k.kept q)
      | inr e ↦ rw e (
          ap (λ t. compute_tree_hash tools.digest t)
            (is_source.teardown_keeps m.staging_dir m.scratch_dir m.world)
          ∙ k.kept q)
    ];
  }

module _ {World : Type 0} (tools : ExecutionTools World) (config : ExecutionConfig)
    (source : World → SourceTree) (is_source : IsSource tools source) where
  guarded-Kept :
      (release : Bool) (job : Job) (r : Result SourceTree) (m : Session World)
      → ((t : SourceTree) → r ≡ ok t → t ≡ source m.world)
      → is_tampered (guarded tools config release job r m).0 ≡ false
      → hash_at tools source (guarded tools config release job r m).1.world
        ≡ hash_at tools source m.world
  unfolding guarded
  guarded-Kept release job (err e) m k q = absurd cc
  guarded-Kept release job (ok t) m k q =
      let pre = compute_tree_hash tools.digest t in
      (cleaned-Kept tools config source is_source pre release job.baseline
          (settle tools config pre
            (attempt_job tools config pre job (fresh_session tools config m)))
          (settle-Kept tools config source is_source pre
            (attempt_job tools config pre job (fresh_session tools config m))
            (attempt_job-Guarded tools config source is_source pre job
              (fresh_session tools config m) refl))).kept
        q
      ∙ ap (λ t. compute_tree_hash tools.digest t) (k t refl)

  start_job-Kept :
      (release : Bool) (job : Job) (m : Session World)
      → is_tampered (start_job tools config release job m).0 ≡ false
      → hash_at tools source (start_job tools config release job m).1.world
        ≡ hash_at tools source m.world
  unfolding start_job
  start_job-Kept release job m q =
      guarded-Kept release job (tools.walk m.world).0 (record m { world = (tools.walk m.world).1 })
        (λ t e. is_source.reads m.world t e ∙ sym (is_source.walk_keeps m.world)) q
      ∙ ap (λ t. compute_tree_hash tools.digest t) (is_source.walk_keeps m.world)

  start_checked-Kept :
      (release : Bool) (job : Result Job) (m : Session World)
      → is_tampered (start_checked tools config release job m).0 ≡ false
      → hash_at tools source (start_checked tools config release job m).1.world
        ≡ hash_at tools source m.world
  start_checked-Kept release (err e) m q = refl
  start_checked-Kept release (ok job) m q = start_job-Kept release job m q

  -- Whatever the sandbox, the staging area and the runner do to the world, and whether `execute`
  -- returns or raises: unless it raises SourceIntegrityError, the sources have the same hash
  -- afterwards as before. The sources are what a successful walk reads, and no walk, fresh evidence
  -- identifier, look at the clock or removal of the session's directories changes them.
  pub execute-hash :
      (plan : ExecutionPlan) (cs : List TestCandidate) (run k : Option String)
      (base : Option ExecutionEvidence) (release : Bool) (m : Session World)
      → is_tampered (execute tools config plan cs run k base release m).0 ≡ false
      → hash_at tools source (execute tools config plan cs run k base release m).1.world
        ≡ hash_at tools source m.world
  unfolding execute
  execute-hash plan cs run k base release m q =
      start_checked-Kept release (checked_job tools config plan cs run k base) m q
