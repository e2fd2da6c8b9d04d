-- ===== src/Analysis/Deletions.antt =====
-- What analysis/service.py says of deleted symbols and of files that cannot be parsed.
use agentic_test_system.Prelude.{
  ◌∙◌, any-filter, sym, ◌&&◌, some, ◌<>◌, ◌<>◌, String, ◌≡◌, refl, true, false, ◌||◌, not, List, [],
  ◌∷◌, ◌++◌, map, filter, any, contains, is_empty, All, All-append, Bool-cases, Option, arith, inl,
  inr, string_eq,
}
use agentic_test_system.Core.{
  lift, FilePath, DiffHunk, SymbolContract, RepositorySnapshot, Result, ok, err,
}
use mathlib.Core.Path.{subst}
use agentic_test_system.Core.Ensures.{
  Ensures, of_values, value-Ensures, continue-Ensures, bind-Ensures, bind-any,
}
use agentic_test_system.Analysis.Git.{
  Reply, answered, failed, broken, GitTools, GitSession, in_world, validate_repository,
  get_head_commit, get_base_commit, get_branch_name, compute_source_tree_hash, compute_diff,
  list_tracked_files, list_existing_test_files, get_file_content_at_commit,
}
use agentic_test_system.Analysis.Affected.{as_affected}
use agentic_test_system.Analysis.Snapshots.{
  Survey, no_survey, noted, is_file_in_diff, is_python, hunk_path, qualified_name_of, meets_span,
  deleted_of, analyzable_files, files_with_deletions, parsed, surveyed, survey_file, survey_files,
  reconciled, reconcile_file, reconcile, analyze,
}

-- A symbol that is marked, stands nowhere under its name, and whose span a hunk of its file meets.
abbrev pub IsGone : List String → List DiffHunk → SymbolContract → Type 0
IsGone surviving hunks d =
    (d.is_affected ≡ true)
    × (contains d.qualified_name surviving ≡ false)
    × (any (λ h. is_file_in_diff d.file_path (h.file_path ∷ []) && meets_span d h) hunks ≡ true)

abbrev pub StandsIn : FilePath → SymbolContract → Type 0
StandsIn path d = d.file_path ≡ path

found-IsGone :
    (surviving : List String) (hunks : List DiffHunk) (path : FilePath) (d : SymbolContract)
    → d.file_path ≡ path
    → contains d.qualified_name surviving ≡ false
    → any (meets_span d) (filter (λ h. is_file_in_diff path (h.file_path ∷ [])) hunks) ≡ true
    → IsGone surviving hunks (as_affected d)
found-IsGone surviving hunks path d own gone met = (
  refl,
  gone,
  subst (λ z. any (λ h. is_file_in_diff z (h.file_path ∷ []) && meets_span d h) hunks ≡ true)
      (sym own)
      (sym (any-filter (λ h. is_file_in_diff path (h.file_path ∷ [])) (meets_span d) hunks) ∙ met),
)

deleted_of-IsGone :
    (surviving : List String) (hunks : List DiffHunk) (path : FilePath)
    (symbols : List SymbolContract)
    → All (StandsIn path) symbols
    → All (IsGone surviving hunks) (deleted_of surviving hunks path symbols)
unfolding deleted_of
deleted_of-IsGone surviving hunks path [] own = tt
deleted_of-IsGone surviving hunks path (d ∷ ds) own =
    elim (Bool-cases (contains d.qualified_name surviving)) [
      | inl p ↦ rw p (deleted_of-IsGone surviving hunks path ds own.1)
      | inr p ↦
          elim (Bool-cases
            (any (meets_span d) (filter (λ h. is_file_in_diff path (h.file_path ∷ [])) hunks))) [
              | inr q ↦ rw (p, q) (deleted_of-IsGone surviving hunks path ds own.1)
              | inl q ↦
                  rw (p, q)
                    (
                      found-IsGone surviving hunks path d own.0 p q,
                      deleted_of-IsGone surviving hunks path ds own.1,
                    )
            ]
    ]

-- Where the flag is set, an error is noted.
abbrev pub IsNoted : Survey → Type 0
IsNoted v = (not v.has_diff_syntax_error || not (is_empty v.syntax_errors)) ≡ true

append-nonempty : (xs : List String) (y : String) → is_empty (xs ++ y ∷ []) ≡ false
append-nonempty [] y = refl
append-nonempty (x ∷ xs) y = refl

noted-IsNoted :
    (path : FilePath) (message : String) (files : List FilePath) (v : Survey)
    → IsNoted (noted path message files v)
noted-IsNoted path message files v =
    let found = append-nonempty v.syntax_errors (path <> ": " <> message) in ground arith

module _ {World : Type 0} (tools : GitTools World)
    (read_source : FilePath → World → Reply String × World)
    (parse_symbols : FilePath → String → Reply (List SymbolContract)) (repo_path : FilePath) where
  parsed-IsNoted :
      (path : FilePath) (files : List FilePath) (v : Survey) (r : Reply (List SymbolContract))
      → IsNoted v
      → Ensures IsNoted (parsed tools read_source parse_symbols repo_path path files v r)
  parsed-IsNoted path files v (answered symbols) h = h
  parsed-IsNoted path files v (failed message) h = noted-IsNoted path message files v
  parsed-IsNoted path files v (broken e) h = tt

  surveyed-IsNoted :
      (path : FilePath) (files : List FilePath) (v : Survey) (r : Reply String)
      → IsNoted v
      → Ensures IsNoted (surveyed tools read_source parse_symbols repo_path path files v r)
  surveyed-IsNoted path files v (answered content) h =
      parsed-IsNoted path files v (parse_symbols path content) h
  surveyed-IsNoted path files v (failed message) h = noted-IsNoted path message files v
  surveyed-IsNoted path files v (broken e) h = tt

  survey_file-IsNoted :
      (files : List FilePath) (path : FilePath) (v : Survey) (w : World)
      → IsNoted v
      → Ensures IsNoted (survey_file tools read_source parse_symbols repo_path files path v w).0
  unfolding survey_file
  survey_file-IsNoted files path v w h = elim (Bool-cases (is_python path)) [
    | inr p ↦ rw p h
    | inl p ↦ elim (Bool-cases (tools.is_file (repo_path <> "/" <> path) w).0) [
      | inr q ↦ rw (p, q) h
      | inl q ↦ rw (p, q) (surveyed-IsNoted path files v _ h)
    ]
  ]

  survey_files-IsNoted :
      (files paths : List FilePath) (v : Survey) (w : World)
      → IsNoted v
      → Ensures IsNoted (survey_files tools read_source parse_symbols repo_path files paths v w).0
  unfolding survey_files
  survey_files-IsNoted files [] v w h = h
  survey_files-IsNoted files (path ∷ paths) v w h =
      continue-Ensures _ _ IsNoted
        (survey_file tools read_source parse_symbols repo_path files path v w).0 _
        (survey_file-IsNoted files path v w h) λ v' w' h'. survey_files-IsNoted files paths v' w' h'

  module _
      (in_own_file : (path : FilePath) (content : String) (symbols : List SymbolContract)
        → parse_symbols path content ≡ answered symbols
        → All (StandsIn path) symbols) where
    reconciled-IsGone :
        (surviving : List String) (hunks : List DiffHunk) (path : FilePath)
        (r : Reply (List SymbolContract))
        → ((symbols : List SymbolContract) → r ≡ answered symbols → All (StandsIn path) symbols)
        → Ensures
            (All (IsGone surviving hunks))
            (reconciled tools read_source parse_symbols repo_path surviving hunks path r)
    reconciled-IsGone surviving hunks path (answered symbols) own =
        deleted_of-IsGone surviving hunks path symbols (own symbols refl)
    reconciled-IsGone surviving hunks path (failed message) own = tt
    reconciled-IsGone surviving hunks path (broken e) own = tt

    reconcile_file-IsGone :
        (surviving : List String) (hunks : List DiffHunk) (path : FilePath) (r : Result String)
        → Ensures
            (All (IsGone surviving hunks))
            (reconcile_file tools read_source parse_symbols repo_path surviving hunks path r)
    reconcile_file-IsGone surviving hunks path (ok content) =
        reconciled-IsGone surviving hunks path (parse_symbols path content)
          (in_own_file path content)
    reconcile_file-IsGone surviving hunks path (err e) = tt

    reconcile-IsGone :
        (base : String) (surviving : List String) (hunks : List DiffHunk) (paths : List FilePath)
        (g : GitSession World)
        → Ensures
            (All (IsGone surviving hunks))
            (reconcile tools read_source parse_symbols repo_path base surviving hunks paths g).0
    unfolding reconcile
    reconcile-IsGone base surviving hunks [] g = tt
    reconcile-IsGone base surviving hunks (path ∷ paths) g = elim (Bool-cases (is_python path)) [
      | inr p ↦ rw p (reconcile-IsGone base surviving hunks paths g)
      | inl p ↦ rw p (
          bind-Ensures _ _ (All (IsGone surviving hunks))
            (lift (
              reconcile_file tools read_source parse_symbols repo_path surviving hunks path
                (get_file_content_at_commit tools repo_path base path g).0))
            (get_file_content_at_commit tools repo_path base path g).1
            (reconcile_file-IsGone surviving hunks path
              (get_file_content_at_commit tools repo_path base path g).0)
            λ found g2 gone.
              bind-Ensures _ _ (All (IsGone surviving hunks))
                (reconcile tools read_source parse_symbols repo_path base surviving hunks paths) g2
                (reconcile-IsGone base surviving hunks paths g2)
                λ others g3 more. All-append (IsGone surviving hunks) found others gone more)
    ]

  abbrev surveyed_files : List DiffHunk → List FilePath → World → Result Survey × World
  surveyed_files hunks tracked =
      survey_files tools read_source parse_symbols repo_path (map hunk_path hunks)
        (analyzable_files tracked hunks) no_survey

  -- What the files of the working tree gave, where the traversal came to its end.
  abbrev IsTraversal : List DiffHunk → List FilePath → Survey → Type 0
  IsTraversal hunks tracked v =
      IsNoted v × ((w w' : World) × (surveyed_files hunks tracked w ≡ (ok v, w')))

  survey_files-IsTraversal :
      (hunks : List DiffHunk) (tracked : List FilePath) (w : World)
      → Ensures (IsTraversal hunks tracked) (surveyed_files hunks tracked w).0
  survey_files-IsTraversal hunks tracked w =
      of_values (IsTraversal hunks tracked) (surveyed_files hunks tracked w) (λ v w' e. (
        value-Ensures IsNoted (surveyed_files hunks tracked w) v w'
            (survey_files-IsNoted (map hunk_path hunks) (analyzable_files tracked hunks) no_survey w
              refl)
            e,
        (w, w', e),
      ))

  -- What the snapshot of an analysis holds, beside what its traversal of the files found.
  pub record IsReconciled (s : RepositorySnapshot) : Type 0 where
    pub survey : Survey
    pub before : World
    pub behind : World
    pub traversed :
        survey_files tools read_source parse_symbols repo_path
          (map hunk_path s.diff_hunks)
          (analyzable_files s.tracked_files s.diff_hunks)
          no_survey
          before
        ≡ (ok survey, behind)
    pub are_gone :
        All (IsGone (map qualified_name_of survey.symbols) s.diff_hunks) s.deleted_symbols
    pub explains : (s.is_valid || not (is_empty s.syntax_errors)) ≡ true

  module _
      (in_own_file : (path : FilePath) (content : String) (symbols : List SymbolContract)
        → parse_symbols path content ≡ answered symbols
        → All (StandsIn path) symbols) where
    analyze-Ensures :
        (base : Option String) (g : GitSession World)
        → Ensures IsReconciled (analyze tools read_source parse_symbols repo_path base g).0
    unfolding analyze
    analyze-Ensures base g =
        bind-any _ _ (in_world tools repo_path (validate_repository tools repo_path repo_path)) g
          λ _ g1. bind-any _ _ (get_head_commit tools repo_path) g1 λ sha g2.
            bind-any _ _ (get_base_commit tools repo_path base) g2 λ from g3.
              bind-any _ _ (get_branch_name tools repo_path) g3 λ branch g4.
                bind-any _ _ (compute_source_tree_hash tools repo_path) g4 λ hash g5.
                  bind-any _ _ (compute_diff tools repo_path (some from)) g5 λ hunks g6.
                    bind-any _ _ (list_tracked_files tools repo_path) g6 λ tracked g7.
                      bind-any _ _ (list_existing_test_files tools repo_path) g7 λ tests g8.
                        bind-Ensures _ _ (IsTraversal hunks tracked)
                          (in_world tools repo_path (surveyed_files hunks tracked)) g8
                          (survey_files-IsTraversal hunks tracked g8.world)
                          λ v g9 found.
                            bind-Ensures _ _ (All (IsGone (map qualified_name_of v.symbols) hunks))
                              (reconcile tools read_source parse_symbols repo_path from
                                (map qualified_name_of v.symbols) hunks
                                (files_with_deletions hunks))
                              g9
                              (reconcile-IsGone in_own_file from (map qualified_name_of v.symbols)
                                hunks (files_with_deletions hunks) g9)
                              λ removed g10 gone. record {
                                survey = v;
                                before = found.1.0;
                                behind = found.1.1;
                                traversed = found.1.2;
                                are_gone = gone;
                                explains = found.0;
                              }

    -- Where the analyzer gives the symbols that it finds in a text the path that it was given with
    -- the text, each deleted symbol of a snapshot that an analysis gives is marked as affected, bears
    -- no name of a symbol that the traversal of the files of the working tree found, and has a hunk
    -- of its own file that deletes the file or whose old lines, with those of its context, meet its
    -- span; and where the snapshot is not valid, it lists a syntax error.
    pub analyze-IsReconciled :
        (base : Option String) (g g' : GitSession World) (s : RepositorySnapshot)
        → analyze tools read_source parse_symbols repo_path base g ≡ (ok s, g')
        → IsReconciled s
    analyze-IsReconciled base g g' s h =
        value-Ensures IsReconciled (analyze tools read_source parse_symbols repo_path base g) s g'
          (analyze-Ensures base g) h
