-- ===== src/Execution/Confinement.antt =====
-- Where execution/staging.py puts candidates.
use agentic_test_system.Prelude.{
  String, ◌≡◌, refl, sym, ap, ◌∙◌, true, Option, none, some, is_some, List, [], ◌∷◌, ◌<>◌, ◌==◌,
  string_eq, eq_of_==, ==_refl, is_missing, arith, Bool-cases, inl, inr, if◌then◌else◌,
}
use text.Mathlib.TextEquality.{eq_iff}
use agentic_test_system.Core.{
  FilePath, TestCandidate, passed, status_eq, Exn, Result, ok, err, pure, continue,
}
use agentic_test_system.Execution.Staging.{
  register, normalize_relative_path, is_relative_to, StagingFiles, StagingArea, lookup, assign,
  tests_dir, disambiguated, choose_destination, write_to, place, place_at, write_candidate_artifact,
  stage_candidate, get_staged_path,
}

lookup-assign :
    (j k v : String) (d : List (String × String))
    → lookup j (assign k v d) ≡ (if k == j then some v else lookup j d)
lookup-assign j k v [] = refl
lookup-assign j k v (x ∷ xs) = elim (Bool-cases (x.0 == k)) [
  | inl q ↦ let same = eq_of_== x.0 k q in ground (arith, same, q)
  | inr q ↦ ground (arith, lookup-assign j k v xs, eq_iff x.0 k, eq_iff x.0 j, eq_iff k j)
]

module _ {World : Type 0} (files : StagingFiles World) (staging_root : FilePath) where
  -- Where a path leads, behind its links, is in the directory of the tests.
  abbrev pub IsConfined : FilePath → Type 0
  IsConfined path = is_relative_to (files.resolve path) (tests_dir files staging_root) ≡ true

  -- Every path that a candidate has.
  pub record AllConfined (m : StagingArea World) : Type 0 where
    pub confined :
        (k : String) (path : FilePath) → lookup k m.candidate_to_path ≡ some path → IsConfined path

  abbrev pub IsResolving : Type 0
  IsResolving = (path : FilePath) → files.resolve (files.resolve path) ≡ files.resolve path

  choose_destination-IsConfined :
      (c : TestCandidate) (taken : List (FilePath × String)) (path dest : FilePath)
      → IsResolving
      → choose_destination files staging_root c taken path ≡ ok dest
      → IsConfined dest
  unfolding choose_destination
  choose_destination-IsConfined c taken path dest idem h =
      let tests = tests_dir files staging_root in
      let first = files.resolve (tests <> "/" <> path) in
      let other = disambiguated files staging_root first c.candidate_id in
      elim (Bool-cases (is_relative_to first tests)) [
        | inr b ↦ absurd (let h' = rw b at h in cc)
        | inl b ↦ elim (Bool-cases (is_some (lookup first taken))) [
          | inr t ↦
              let same : first ≡ dest = (let h' = rw (b, t) at h in cc) in
              rw (sym same, idem (tests <> "/" <> path)) b
          | inl t ↦ elim (Bool-cases (is_relative_to (files.resolve other) tests)) [
            | inr r ↦ absurd (let h' = rw (b, t, r) at h in cc)
            | inl r ↦
                let same : other ≡ dest = (let h' = rw (b, t, r) at h in cc) in rw (sym same) r
          ]
        ]
      ]

  -- Writing leaves the dictionaries as they are.
  write_to-paths :
      (c : TestCandidate) (path : FilePath) (m : StagingArea World)
      → (write_to files staging_root c path m).1.candidate_to_path ≡ m.candidate_to_path
  unfolding write_to
  write_to-paths c path m = ground arith

  -- What a staging of the candidate `k` may do.
  data IsStaged (k : String) (m : StagingArea World)
      : Result FilePath × StagingArea World → Type 0 where
    placed :
        (path : FilePath) (m' : StagingArea World)
        → IsConfined path
        → m'.candidate_to_path ≡ assign k path m.candidate_to_path
        → IsStaged k m (ok path, m')
    kept :
        (path : FilePath) (m' : StagingArea World)
        → lookup k m.candidate_to_path ≡ some path
        → m'.candidate_to_path ≡ m.candidate_to_path
        → IsStaged k m (ok path, m')
    raised :
        (e : Exn) (m' : StagingArea World)
        → m'.candidate_to_path ≡ m.candidate_to_path
        → IsStaged k m (err e, m')

  registered :
      (k : String) (path : FilePath) (m : StagingArea World) (r : Result (Unit {0}))
      (m1 : StagingArea World)
      → m1.candidate_to_path ≡ m.candidate_to_path
      → IsConfined path
      → IsStaged k m (continue (λ _. register files staging_root k path) r m1)
  registered k path m (ok u) m1 h inside = placed path _ inside (ap (assign k path) h)
  registered k path m (err e) m1 h inside = raised e m1 h

  written :
      (k : String) (path : FilePath) (m : StagingArea World) (r : Result (Unit {0}))
      (m1 : StagingArea World)
      → m1.candidate_to_path ≡ m.candidate_to_path
      → lookup k m.candidate_to_path ≡ some path
      → IsStaged k m (continue {S = StagingArea World} (λ _. pure path) r m1)
  written k path m (ok u) m1 h found = kept path m1 found h
  written k path m (err e) m1 h found = raised e m1 h

  chosen :
      (c : TestCandidate) (m : StagingArea World) (r : Result FilePath)
      → ((dest : FilePath) → r ≡ ok dest → IsConfined dest)
      → IsStaged c.candidate_id m (continue (place files staging_root c) r m)
  chosen c m (err e) h = raised e m refl
  chosen c m (ok dest) h =
      registered c.candidate_id dest m (write_to files staging_root c dest m).0
        (write_to files staging_root c dest m).1 (write_to-paths c dest m) (h dest refl)

  normalized :
      (c : TestCandidate) (taken : List (FilePath × String)) (m : StagingArea World)
      (r : Result FilePath)
      → IsResolving
      → IsStaged c.candidate_id m (
          continue
            (λ path m'.
              continue
                (place files staging_root c)
                (choose_destination files staging_root c taken path)
                m')
            r
            m)
  normalized c taken m (err e) idem = raised e m refl
  normalized c taken m (ok path) idem =
      chosen c m (choose_destination files staging_root c taken path)
        (λ dest h. choose_destination-IsConfined c taken path dest idem h)

  place_at-IsStaged :
      (c : TestCandidate) (taken : List (FilePath × String)) (m : StagingArea World)
      (found : Option FilePath)
      → IsResolving
      → lookup c.candidate_id m.candidate_to_path ≡ found
      → IsStaged c.candidate_id m (place_at files staging_root c taken found m)
  place_at-IsStaged c taken m none idem h =
      normalized c taken m (normalize_relative_path c.test_file_path) idem
  place_at-IsStaged c taken m (some path) idem h =
      written c.candidate_id path m (write_to files staging_root c path m).0
        (write_to files staging_root c path m).1 (write_to-paths c path m) h

  stage_candidate-IsStaged :
      (c : TestCandidate) (m : StagingArea World)
      → IsResolving
      → IsStaged c.candidate_id m (stage_candidate files staging_root c m)
  unfolding stage_candidate write_candidate_artifact
  stage_candidate-IsStaged c m idem = elim (Bool-cases (c.validation_status == passed)) [
    | inr p ↦ rw p (raised _ m refl)
    | inl p ↦ elim (Bool-cases (is_missing c.candidate_code)) [
      | inl b ↦ rw (p, b) (raised _ m refl)
      | inr b ↦
          rw (p, b)
            (place_at-IsStaged c m.path_to_candidate m (lookup c.candidate_id m.candidate_to_path)
              idem refl)
    ]
  ]

  AllConfined-assign :
      (k path : String) (m m' : StagingArea World)
      → AllConfined m
      → IsConfined path
      → m'.candidate_to_path ≡ assign k path m.candidate_to_path
      → AllConfined m'
  AllConfined-assign k path m m' all inside h = record {
    confined = λ j q found.
        let found' = sym (lookup-assign j k path m.candidate_to_path) ∙ (rw h at found) in
        elim (Bool-cases (k == j)) [
          | inl e ↦ let same : path ≡ q = (let f = rw e at found' in cc) in rw (sym same) inside
          | inr e ↦ all.confined j q (rw e at found')
        ];
  }

  settled :
      (k : String) (m : StagingArea World) (x : Result FilePath × StagingArea World)
      → AllConfined m
      → IsStaged k m x
      → AllConfined x.1
        × ((path : FilePath)
            → x.0 ≡ ok path
            → IsConfined path × (get_staged_path files staging_root k x.1 ≡ some path))
  unfolding get_staged_path
  settled k m _ all (placed path m' inside h) = (
    AllConfined-assign k path m m' all inside h,
    λ q e.
        let same : path ≡ q = cc in
        rw (sym same) (inside, rw (h, lookup-assign k k path m.candidate_to_path, ==_refl k) refl),
  )
  settled k m _ all (kept path m' found h) = (
    record { confined = λ j q f. all.confined j q (rw h at f) },
    λ q e. let same : path ≡ q = cc in rw (sym same) (all.confined k path found, rw h found),
  )
  settled k m _ all (raised e m' h) =
      (record { confined = λ j q f. all.confined j q (rw h at f) }, λ q e'. absurd cc)

  stage_candidate-passed :
      (c : TestCandidate) (m m' : StagingArea World) (path : FilePath)
      → stage_candidate files staging_root c m ≡ (ok path, m')
      → (c.validation_status == passed) ≡ true
  unfolding stage_candidate
  stage_candidate-passed c m m' path h = elim (Bool-cases (c.validation_status == passed)) [
    | inl p ↦ p
    | inr p ↦ absurd (let h' = rw p at h in cc)
  ]

  -- Where symbolic links are resolved once and for all, and every path that a candidate has leads
  -- into the directory of the tests: a candidate that is staged has passed its validation, its path
  -- leads into that directory, `get_staged_path` finds the path, and it is still so of every path
  -- that a candidate has.
  pub stage_candidate-IsConfined :
      (c : TestCandidate) (m m' : StagingArea World) (path : FilePath)
      → IsResolving
      → AllConfined m
      → stage_candidate files staging_root c m ≡ (ok path, m')
      → (c.validation_status ≡ passed)
        × IsConfined path
        × (get_staged_path files staging_root c.candidate_id m' ≡ some path)
        × AllConfined m'
  stage_candidate-IsConfined c m m' path idem all h =
      let (all', found) =
        settled c.candidate_id m (stage_candidate files staging_root c m) all
          (stage_candidate-IsStaged c m idem) in
      let (inside, at_path) =
        found path (ap (λ (x : Result FilePath × StagingArea World). x.0) h) in
      (
        eq_of_== c.validation_status passed (stage_candidate-passed c m m' path h),
        inside,
        rw h at at_path,
        rw h at all',
      )

  rewritten :
      (path q : FilePath) (m m' : StagingArea World) (r : Result (Unit {0}))
      (m1 : StagingArea World)
      → m1.candidate_to_path ≡ m.candidate_to_path
      → continue {S = StagingArea World} (λ _. pure path) r m1 ≡ (ok q, m')
      → (q ≡ path) × (m'.candidate_to_path ≡ m.candidate_to_path)
  rewritten path q m m' (ok u) m1 h e =
      let same : m1 ≡ m' = cc in
      (cc, ap (λ (s : StagingArea World). s.candidate_to_path) (sym same) ∙ h)
  rewritten path q m m' (err x) m1 h e = absurd cc

  -- A candidate that has a path keeps it: where it is staged again, the path is the same, and so are
  -- the paths of all candidates.
  pub stage_candidate-again :
      (c : TestCandidate) (m m' : StagingArea World) (path q : FilePath)
      → get_staged_path files staging_root c.candidate_id m ≡ some path
      → stage_candidate files staging_root c m ≡ (ok q, m')
      → (q ≡ path) × (m'.candidate_to_path ≡ m.candidate_to_path)
  unfolding stage_candidate write_candidate_artifact get_staged_path
  stage_candidate-again c m m' path q found h = elim (Bool-cases (c.validation_status == passed)) [
    | inr p ↦ absurd (let h' = rw p at h in cc)
    | inl p ↦ elim (Bool-cases (is_missing c.candidate_code)) [
      | inl b ↦ absurd (let h' = rw (p, b) at h in cc)
      | inr b ↦
          rewritten path q m m' (write_to files staging_root c path m).0
            (write_to files staging_root c path m).1 (write_to-paths c path m)
            (rw (p, b, found) at h)
    ]
  ]
