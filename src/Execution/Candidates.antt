-- ===== src/Execution/Candidates.antt =====
-- The evidences that execution/service.py returns for candidates.
use agentic_test_system.Prelude.{
  String, ◌≡◌, refl, sym, Bool, true, false, Option, some, List, [], ◌∷◌, arith, all, if◌then◌else◌,
  map,
}
use agentic_test_system.Core.{
  ExecutionPlan, TestCandidate, ExecutionEvidence, Exn, Result, ok, err, continue, Action,
}
use agentic_test_system.Workflow.Edges.{is_passed}
use agentic_test_system.Execution.Sources.{SourceTree, compute_tree_hash}
use agentic_test_system.Execution.Session.{ExecutionConfig, ExecutionTools, Session, Observation}
use agentic_test_system.Execution.Execute.{deltas}
use agentic_test_system.Execution.Service.{
  Job, close_session, line_of, branch_of, packaged_evidence, prepare, contained, attempt_job,
  raised_or, settle, clean_up, finally, fresh_session, guarded, start_job, checked_job,
  start_checked, execute,
}
use agentic_test_system.Execution.Batches.{
  refused_candidate, execute_each, release_after, unless_refused, execute_candidates,
}

module _ {World : Type 0} (tools : ExecutionTools World) (config : ExecutionConfig) where
  -- An evidence that is returned names the candidate.
  data Names (k : Option String) : Result ExecutionEvidence × Session World → Type 0 where
    returned : (e : ExecutionEvidence) (m : Session World) → e.candidate_id ≡ k → Names k (ok e, m)
    raised : (x : Exn) (m : Session World) → Names k (err x, m)

  continue-Names :
      {A : Type 0} (k : Option String)
      (f : A → Session World → Result ExecutionEvidence × Session World) (r : Result A)
      (m : Session World)
      → ((a : A) (m' : Session World) → Names k (f a m'))
      → Names k (continue f r m)
  continue-Names k f (ok a) m h = h a m
  continue-Names k f (err e) m h = raised e m

  packaged_evidence-Names :
      (job : Job) (o : Observation) (m : Session World)
      → Names job.candidate (packaged_evidence tools config job o m)
  unfolding packaged_evidence close_session
  packaged_evidence-Names job o m =
      continue-Names job.candidate (close_session tools config job o)
        (deltas tools config m.evidence_settings o.0 (line_of tools config o)
          (branch_of tools config o) job.baseline)
        m (λ d m'. returned _ _ refl)

  attempt_job-Names :
      (pre : String) (job : Job) (m : Session World)
      → Names job.candidate (attempt_job tools config pre job m)
  unfolding attempt_job
  attempt_job-Names pre job m =
      continue-Names job.candidate
        (λ d m'.
          continue (packaged_evidence tools config job) (contained tools config pre job d m').0
            (contained tools config pre job d m').1)
        (prepare tools config job m).0 (prepare tools config job m).1
        (λ d m'.
          continue-Names job.candidate (packaged_evidence tools config job)
            (contained tools config pre job d m').0 (contained tools config pre job d m').1
            (packaged_evidence-Names job))

  raised_or-Names :
      (k : Option String) (e : Exn) (v : Result (Unit {0})) (m : Session World)
      → Names k (raised_or tools config e v, m)
  raised_or-Names k e (ok u) m = raised e m
  raised_or-Names k e (err e') m = raised e' m

  Names-if :
      (k : Option String) (b : Bool) (x y : Result ExecutionEvidence × Session World)
      → Names k x
      → Names k y
      → Names k (if◌then◌else◌ {A = Result ExecutionEvidence × Session World} b x y)
  Names-if k true x y h h' = h
  Names-if k false x y h h' = h'

  finally-Names :
      (k : Option String) (f : Session World → Session World)
      (x : Result ExecutionEvidence × Session World)
      → Names k x
      → Names k (finally tools config f x)
  finally-Names k f _ (returned e m h) = returned e (f m) h
  finally-Names k f _ (raised x m) = raised x (f m)

  settle-Names :
      (k : Option String) (pre : String) (x : Result ExecutionEvidence × Session World)
      → Names k x
      → Names k (settle tools config pre x)
  unfolding settle
  settle-Names k pre _ (returned e m h) = returned e m h
  settle-Names k pre _ (raised x m) = Names-if k _ _ _ (raised x m) (raised_or-Names k x _ _)

  guarded-Names :
      (release : Bool) (job : Job) (r : Result SourceTree) (m : Session World)
      → Names job.candidate (guarded tools config release job r m)
  unfolding guarded
  guarded-Names release job (err e) m = raised _ m
  guarded-Names release job (ok t) m =
      let pre = compute_tree_hash tools.digest t in
      finally-Names job.candidate (clean_up tools config release job.baseline) _ (
        settle-Names job.candidate pre _ (attempt_job-Names pre job (fresh_session tools config m)))

  start_checked-Names :
      (k : Option String) (release : Bool) (r : Result Job) (m : Session World)
      → ((job : Job) → r ≡ ok job → job.candidate ≡ k)
      → Names k (start_checked tools config release r m)
  unfolding start_job
  start_checked-Names k release (err e) m h = raised e m
  start_checked-Names k release (ok job) m h = rw (sym (h job refl)) (
      guarded-Names release job (tools.walk m.world).0
        (record m { world = (tools.walk m.world).1 }))

  checked_job-candidate :
      (plan : ExecutionPlan) (cs : List TestCandidate) (run : Option String) (k : String)
      (base : Option ExecutionEvidence) (job : Job)
      → checked_job tools config plan cs run (some k) base ≡ ok job
      → job.candidate ≡ some k
  unfolding checked_job
  checked_job-candidate plan cs run k base job h = ground arith

  execute-Names :
      (plan : ExecutionPlan) (cs : List TestCandidate) (run : Option String) (k : String)
      (base : Option ExecutionEvidence) (release : Bool) (m : Session World)
      → Names (some k) (execute tools config plan cs run (some k) base release m)
  unfolding execute
  execute-Names plan cs run k base release m =
      start_checked-Names (some k) release (checked_job tools config plan cs run (some k) base) m
        (λ job h. checked_job-candidate plan cs run k base job h)

  -- The evidences that are returned name the candidates, in their order.
  data Listed (ks : List (Option String))
      : Result (List ExecutionEvidence) × Session World → Type 0 where
    listed :
        (es : List ExecutionEvidence) (m : Session World)
        → map (λ e. e.candidate_id) es ≡ ks
        → Listed ks (ok es, m)
    broken_off : (x : Exn) (m : Session World) → Listed ks (err x, m)

  abbrev pub ids_of : List TestCandidate → List (Option String)
  ids_of cs = map (λ c. some c.candidate_id) cs

  add-Listed :
      (k : Option String) (ks : List (Option String)) (e : ExecutionEvidence)
      (x : Result (List ExecutionEvidence) × Session World)
      → e.candidate_id ≡ k
      → Listed ks x
      → Listed (k ∷ ks) (continue (λ es m. (ok (e ∷ es), m)) x.0 x.1)
  add-Listed k ks e _ h (listed es m h') = listed (e ∷ es) m (rw (h, h') refl)
  add-Listed k ks e _ h (broken_off x m) = broken_off x m

  first-Listed :
      (k : Option String) (ks : List (Option String)) (x : Result ExecutionEvidence × Session World)
      (f : Action (Session World) (List ExecutionEvidence))
      → Names k x
      → ((m : Session World) → Listed ks (f m))
      → Listed
          (k ∷ ks)
          (continue (λ e m. continue (λ es m'. (ok (e ∷ es), m')) (f m).0 (f m).1) x.0 x.1)
  first-Listed k ks _ f (returned e m h) h' = add-Listed k ks e (f m) h (h' m)
  first-Listed k ks _ f (raised x m) h' = broken_off x m

  execute_each-Listed :
      (plan : ExecutionPlan) (run : Option String) (base : Option ExecutionEvidence)
      (cs : List TestCandidate) (m : Session World)
      → Listed (ids_of cs) (execute_each tools config plan run base cs m)
  unfolding execute_each
  execute_each-Listed plan run base [] m = listed [] m refl
  execute_each-Listed plan run base (c ∷ cs) m =
      first-Listed (some c.candidate_id) (ids_of cs)
        (execute tools config plan (c ∷ []) run (some c.candidate_id) base false m)
        (execute_each tools config plan run base cs)
        (execute-Names plan (c ∷ []) run c.candidate_id base false m)
        (λ m. execute_each-Listed plan run base cs m)

  released-Listed :
      (ks : List (Option String)) (release : Bool) (base : Option ExecutionEvidence)
      (x : Result (List ExecutionEvidence) × Session World)
      → Listed ks x
      → Listed ks (release_after tools config release base x)
  released-Listed ks release base _ (listed es m h) = listed es _ h
  released-Listed ks release base _ (broken_off x m) = broken_off x _

  Listed-ids :
      (ks : List (Option String)) (x : Result (List ExecutionEvidence) × Session World)
      → Listed ks x
      → (es : List ExecutionEvidence) (m : Session World) → x ≡ (ok es, m)
      → map (λ e. e.candidate_id) es ≡ ks
  Listed-ids ks _ (listed es' m' h) es m q = let same : es' ≡ es = cc in rw same at h
  Listed-ids ks _ (broken_off x m') es m q = absurd cc

  refused_candidate-passed :
      (cs : List TestCandidate) (u : Unit {0})
      → refused_candidate tools config cs ≡ ok u
      → all is_passed cs ≡ true
  unfolding refused_candidate
  refused_candidate-passed [] u h = refl
  refused_candidate-passed (c ∷ cs) u h = ground (arith, refused_candidate-passed cs u)

  unless_refused-ids :
      (cs : List TestCandidate) (r : Result (Unit {0}))
      (x : Result (List ExecutionEvidence) × Session World) (m m' : Session World)
      (es : List ExecutionEvidence)
      → refused_candidate tools config cs ≡ r
      → Listed (ids_of cs) x
      → unless_refused tools config r x m ≡ (ok es, m')
      → (all is_passed cs ≡ true) × (map (λ e. e.candidate_id) es ≡ ids_of cs)
  unless_refused-ids cs (err e) x m m' es h l q = absurd cc
  unless_refused-ids cs (ok u) x m m' es h l q =
      (refused_candidate-passed cs u h, Listed-ids (ids_of cs) x l es m' q)

  -- Where `execute_candidates` returns, every candidate has passed its validation, and there is one
  -- evidence for each candidate, in their order, which names it.
  pub execute_candidates-candidate_ids :
      (plan : ExecutionPlan) (cs : List TestCandidate) (base : Option ExecutionEvidence)
      (run : Option String) (release : Bool) (m m' : Session World) (es : List ExecutionEvidence)
      → execute_candidates tools config plan cs base run release m ≡ (ok es, m')
      → (all is_passed cs ≡ true) × (map (λ e. e.candidate_id) es ≡ ids_of cs)
  unfolding execute_candidates
  execute_candidates-candidate_ids plan [] base run release m m' es h =
      (refl, Listed-ids [] (ok [], m) (listed [] m refl) es m' h)
  execute_candidates-candidate_ids plan (c ∷ cs) base run release m m' es h =
      unless_refused-ids (c ∷ cs) (refused_candidate tools config (c ∷ cs)) _ m m' es refl
        (released-Listed (ids_of (c ∷ cs)) release base _
          (execute_each-Listed plan run base (c ∷ cs) m))
        h

  unless_refused-untouched :
      (cs : List TestCandidate) (r : Result (Unit {0}))
      (x : Result (List ExecutionEvidence) × Session World) (m : Session World)
      → refused_candidate tools config cs ≡ r
      → all is_passed cs ≡ false
      → (e : Exn) × (unless_refused tools config r x m ≡ (err e, m))
  unless_refused-untouched cs (err e) x m h q = (e, refl)
  unless_refused-untouched cs (ok u) x m h q =
      absurd (let p = refused_candidate-passed cs u h in cc)

  -- Where a candidate has not passed its validation, `execute_candidates` raises before anything is
  -- executed: the service and the world outside stay as they were.
  pub execute_candidates-untouched :
      (plan : ExecutionPlan) (cs : List TestCandidate) (base : Option ExecutionEvidence)
      (run : Option String) (release : Bool) (m : Session World)
      → all is_passed cs ≡ false
      → (e : Exn) × (execute_candidates tools config plan cs base run release m ≡ (err e, m))
  unfolding execute_candidates
  execute_candidates-untouched plan [] base run release m q = absurd cc
  execute_candidates-untouched plan (c ∷ cs) base run release m q =
      unless_refused-untouched (c ∷ cs) (refused_candidate tools config (c ∷ cs)) _ m refl q
