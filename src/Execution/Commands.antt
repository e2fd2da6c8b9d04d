-- ===== src/Execution/Commands.antt =====
-- The commands that execution/runner.py constructs.
use agentic_test_system.Prelude.{
  ℕ, String, ◌≡◌, refl, sym, ◌∙◌, Bool, true, false, ◌||◌, Option, List, [], ◌∷◌, ◌++◌, ◌<>◌, ◌==◌,
  string_eq, eq_of_==, ==_refl, is_blank, is_empty, strip, replace_char, contains, any-append, All,
  All-append, Bool-cases, inl, inr,
}
use Prim.Native.Char.{Char}
use agentic_test_system.Core.{Result-cases, ok}
use agentic_test_system.Execution.Runner.{
  has_drive, has_traversal, validate_and_normalize_path, normalize_paths, report_tokens,
  branch_tokens, command_tokens, construct_command_for_paths,
}

-- A path that names something, and does not climb.
abbrev pub IsSafePath : String → Type 0
IsSafePath p = (is_blank p ≡ false) × (has_traversal p ≡ false)

abbrev pub AreDistinct : List String → Type 0
AreDistinct [] = Unit
AreDistinct (x ∷ xs) = (contains x xs ≡ false) × AreDistinct xs

-- A path of the arguments, under its normal form.
abbrev pub IsListed : List String → String → Type 0
IsListed qs p =
    (q : String) × (validate_and_normalize_path p "tests_paths" ≡ ok q) × (contains q qs ≡ true)

is_blank-replace_char : (a : ℕ) (b : Char) (s : String) → is_blank (replace_char a b s) ≡ is_blank s
unfolding replace_char
is_blank-replace_char a b String.[] = refl
is_blank-replace_char a b (String.◌∷◌ c s) = refl

validate-safe : (p field q : String) → validate_and_normalize_path p field ≡ ok q → IsSafePath q
unfolding validate_and_normalize_path
validate-safe p field q h =
    let raw = strip p in
    let posix = replace_char 0x5c "/" raw in
    elim (Bool-cases (is_blank raw)) [
      | inl b ↦ absurd (let h' = rw b at h in cc)
      | inr b ↦ elim (Bool-cases (has_drive raw)) [
        | inl d ↦ absurd (let h' = rw (b, d) at h in cc)
        | inr d ↦ elim (Bool-cases (has_traversal posix)) [
          | inl t ↦ absurd (let h' = rw (b, d, t) at h in cc)
          | inr t ↦
              let same : posix ≡ q = (let h' = rw (b, d, t) at h in cc) in
              rw (sym same) (is_blank-replace_char 0x5c "/" raw ∙ b, t)
        ]
      ]
    ]

other_way : (x y : String) → (x == y) ≡ false → (y == x) ≡ false
other_way x y h = elim (Bool-cases (y == x)) [
  | inl q ↦ absurd (let same = eq_of_== y x q in let h' = rw same at h in let r = ==_refl x in cc)
  | inr q ↦ q
]

neither : (a b : Bool) → (a || b) ≡ false → (a ≡ false) × (b ≡ false)
neither false b h = (refl, h)
neither true b h = absurd cc

contains-append :
    (x y : String) (xs : List String)
    → contains x (xs ++ y ∷ []) ≡ (contains x xs || (y == x || false))
contains-append x y xs = any-append (λ z. z == x) xs (y ∷ [])

AreDistinct-append :
    (xs : List String) (x : String)
    → AreDistinct xs
    → contains x xs ≡ false
    → AreDistinct (xs ++ x ∷ [])
AreDistinct-append [] x d h = (refl, tt)
AreDistinct-append (y ∷ ys) x (h, d) h' =
    let (first, rest) = neither (y == x) (contains x ys) h' in
    (contains-append y x ys ∙ rw (h, other_way y x first) refl, AreDistinct-append ys x d rest)

either : (a b : Bool) → a ≡ true → (a || b) ≡ true
either true b h = refl
either false b h = absurd cc

or_true : (a : Bool) → (a || true) ≡ true
or_true true = refl
or_true false = refl

kept_on :
    (x y : String) (xs : List String) → contains x xs ≡ true → contains x (xs ++ y ∷ []) ≡ true
kept_on x y xs h = contains-append x y xs ∙ either (contains x xs) _ h

added : (x : String) (xs : List String) → contains x (xs ++ x ∷ []) ≡ true
added x xs = contains-append x x xs ∙ rw (==_refl x) (or_true (contains x xs))

-- What the loop over the paths keeps.
record IsPathList (kept paths out : List String) : Type 0 where
  safe : All IsSafePath out
  distinct : AreDistinct out
  listed : All (IsListed out) paths
  keeps : (x : String) → contains x kept ≡ true → contains x out ≡ true

normalize_paths_lem :
    (kept paths out : List String)
    → All IsSafePath kept
    → AreDistinct kept
    → normalize_paths kept paths ≡ ok out
    → IsPathList kept paths out
unfolding normalize_paths
normalize_paths_lem kept [] out s d h =
    let same : kept ≡ out = cc in
    record {
      safe = rw same at s;
      distinct = rw same at d;
      listed = tt;
      keeps = λ x c. rw (sym same) c;
    }
normalize_paths_lem kept (p ∷ ps) out s d h =
    elim (Result-cases (validate_and_normalize_path p "tests_paths")) [
      | inr (e, q) ↦ absurd (let h' = rw (q, normalize_paths) at h in cc)
      | inl (norm, q) ↦ elim (Bool-cases (contains norm kept)) [
        | inl c ↦
            let l = normalize_paths_lem kept ps out s d (rw (q, c, normalize_paths) at h) in
            record {
              safe = l.safe;
              distinct = l.distinct;
              listed = ((norm, q, l.keeps norm c), l.listed);
              keeps = l.keeps;
            }
        | inr c ↦
            let l =
              normalize_paths_lem (kept ++ norm ∷ []) ps out
                (All-append IsSafePath kept (norm ∷ []) s
                  (validate-safe p "tests_paths" norm q, tt))
                (AreDistinct-append kept norm d c) (rw (q, c, normalize_paths) at h) in
            record {
              safe = l.safe;
              distinct = l.distinct;
              listed = ((norm, q, l.keeps norm (added norm kept)), l.listed);
              keeps = λ x c'. l.keeps x (kept_on x norm kept c');
            }
      ]
    ]

-- A command of pytest on paths, and the options behind them.
pub record IsCommand (paths tokens : List String) : Type 0 where
  pub targets : List String
  pub options : List String
  pub shape : tokens ≡ "pytest" ∷ (targets ++ options)
  pub some_target : is_empty targets ≡ false
  pub targets_safe : All IsSafePath targets
  pub targets_distinct : AreDistinct targets
  pub targets_listed : All (IsListed targets) paths

command_tokens-shape :
    (paths : List String) (cov : String) (report : Option String) (branch : Bool)
    (tokens : List String)
    → command_tokens paths cov report branch ≡ ok tokens
    → (is_empty paths ≡ false) × (options : List String) × (tokens ≡ "pytest" ∷ (paths ++ options))
unfolding command_tokens
command_tokens-shape [] cov report branch tokens h = absurd cc
command_tokens-shape (p ∷ ps) cov report branch tokens h =
    elim (Result-cases (report_tokens report)) [
      | inr (e, q) ↦ absurd (let h' = rw q at h in cc)
      | inl (ts, q) ↦ (
        refl,
        ("--cov=" <> cov)
            ∷ (branch_tokens branch ++ ts ++ "-o" ∷ "cache_dir=/tmp/.pytest_cache" ∷ []),
        (let h' = rw q at h in cc),
      )
    ]

-- A command that is constructed runs pytest on a list of paths that is not empty, holds no path
-- twice, and holds every path that was given under its normal form; each of them names something
-- and has no `..` among its parts.
pub construct_command_for_paths-IsCommand :
    (paths : List String) (cov_source : String) (report : Option String) (branch : Bool)
    (tokens : List String)
    → construct_command_for_paths paths cov_source report branch ≡ ok tokens
    → IsCommand paths tokens
unfolding construct_command_for_paths
construct_command_for_paths-IsCommand [] cov_source report branch tokens h = absurd cc
construct_command_for_paths-IsCommand (p ∷ ps) cov_source report branch tokens h =
    elim (Result-cases (validate_and_normalize_path cov_source "cov_source")) [
      | inr (e, q) ↦ absurd (let h' = rw q at h in cc)
      | inl (cov, q) ↦ elim (Result-cases (normalize_paths [] (p ∷ ps))) [
        | inr (e, r) ↦ absurd (let h' = rw (q, r) at h in cc)
        | inl (targets, r) ↦
            let l = normalize_paths_lem [] (p ∷ ps) targets tt tt r in
            let (nonempty, options, shape) =
              command_tokens-shape targets cov report branch tokens (rw (q, r) at h) in
            record {
              targets = targets;
              options = options;
              shape = shape;
              some_target = nonempty;
              targets_safe = l.safe;
              targets_distinct = l.distinct;
              targets_listed = l.listed;
            }
      ]
    ]
