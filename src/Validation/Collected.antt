-- ===== src/Validation/Collected.antt =====
-- What a candidate that validation/collection.py lets pass did in its container.
use agentic_test_system.Prelude.{
  String, pos, int_eq, ◌≡◌, ◌≢◌, refl, sym, Bool, true, false, ◌||◌, List, [], ◌∷◌, ◌==◌, eq_of_==,
  is_empty, Bool-cases, inl, inr, if◌then◌else◌,
}
use mathlib.Core.Path.{subst}
use agentic_test_system.Core.{
  FilePath, Timestamp, Decimal, TestCandidate, passed, rejected_collection, status_eq, Exn, Result,
  ok, err, continue, staging_validation_error,
}
use agentic_test_system.Workflow.Services.{ValidationResult}
use agentic_test_system.Validation.Gates.{IsSound}
use agentic_test_system.Execution.Session.{ExecutionRawResult}
use agentic_test_system.Validation.Collection.{
  CollectionConfig, CollectionTools, bounded_timeout, extract_collected_items, of_items,
  raw_verdict, verdict, collect_in, locals_at, torn_down, session, is_settled, settled_result,
  validate_collection, collection_gate,
}

-- A verdict that says `passed` exactly where its status is PASSED.
abbrev pub IsFair : ValidationResult → Type 0
IsFair r = r.passed ≡ false → r.status ≢ passed

IsFair-if :
    (b : Bool) (x y : ValidationResult)
    → IsFair x
    → IsFair y
    → IsFair (if◌then◌else◌ {A = ValidationResult} b x y)
IsFair-if true x y h h' = h
IsFair-if false x y h h' = h'

module _ {World : Type 0} (tools : CollectionTools World) where
  of_items-IsFair :
      (c : TestCandidate) (raw : ExecutionRawResult) (items : List String) (now : Timestamp)
      → IsFair (of_items tools c raw items now)
  of_items-IsFair c raw [] now h = cc
  of_items-IsFair c raw (x ∷ xs) now h = absurd cc

  -- What a raw result says of a collection that passed.
  pub record IsCollection (raw : ExecutionRawResult) : Type 0 where
    pub exited : raw.exit_code ≡ pos 0
    pub in_time : raw.timed_out ≡ false
    pub in_memory : raw.oom_killed ≡ false
    pub some_item : is_empty (extract_collected_items tools raw.stdout) ≡ false

  of_items-passed :
      (c : TestCandidate) (raw : ExecutionRawResult) (items : List String) (now : Timestamp)
      → (of_items tools c raw items now).passed ≡ true
      → is_empty items ≡ false
  of_items-passed c raw [] now h = absurd cc
  of_items-passed c raw (x ∷ xs) now h = refl

  neither : (a b : Bool) → (a || b) ≡ false → (a ≡ false) × (b ≡ false)
  neither false b h = (refl, h)
  neither true b h = absurd cc

  raw_verdict-passed :
      (c : TestCandidate) (timeout : Decimal) (raw : ExecutionRawResult) (now : Timestamp)
      → (raw_verdict tools c timeout raw now).passed ≡ true
      → IsCollection raw
  unfolding raw_verdict
  raw_verdict-passed c timeout raw now h =
      elim (Bool-cases (raw.timed_out || raw.exit_code == pos 124)) [
        | inl t ↦ absurd (let h' = rw t at h in cc)
        | inr t ↦ elim (Bool-cases (raw.oom_killed || raw.exit_code == pos 137)) [
          | inl o ↦ absurd (let h' = rw (t, o) at h in cc)
          | inr o ↦ elim (Bool-cases (raw.exit_code == pos 0)) [
            | inr e ↦ absurd (let h' = rw (t, o, e) at h in cc)
            | inl e ↦ record {
              exited = eq_of_== raw.exit_code (pos 0) e;
              in_time = (neither _ _ t).0;
              in_memory = (neither _ _ o).0;
              some_item =
                  of_items-passed c raw (extract_collected_items tools raw.stdout) now
                    (rw (t, o, e) at h);
            }
          ]
        ]
      ]

  raw_verdict-IsFair :
      (c : TestCandidate) (timeout : Decimal) (raw : ExecutionRawResult) (now : Timestamp)
      → IsFair (raw_verdict tools c timeout raw now)
  unfolding raw_verdict
  raw_verdict-IsFair c timeout raw now =
      elim (Bool-cases (raw.timed_out || raw.exit_code == pos 124)) [
        | inl t ↦ rw t (λ h. cc)
        | inr t ↦ elim (Bool-cases (raw.oom_killed || raw.exit_code == pos 137)) [
          | inl o ↦ rw (t, o) (λ h. cc)
          | inr o ↦ elim (Bool-cases (raw.exit_code == pos 0)) [
            | inr e ↦ rw (t, o, e) (λ h. cc)
            | inl e ↦
                rw (t, o, e) (of_items-IsFair c raw (extract_collected_items tools raw.stdout) now)
          ]
        ]
      ]

  verdict-raised :
      (c : TestCandidate) (timeout : Decimal) (e : Exn) (now : Timestamp)
      → ((verdict tools c timeout (err e) now).passed ≡ false)
        × ((verdict tools c timeout (err e) now).status ≡ rejected_collection)
  unfolding verdict
  verdict-raised c timeout (staging_validation_error m) now = (refl, refl)
  verdict-raised c timeout _ now = (refl, refl)

  verdict-IsFair :
      (c : TestCandidate) (timeout : Decimal) (r : Result ExecutionRawResult) (now : Timestamp)
      → IsFair (verdict tools c timeout r now)
  unfolding verdict
  verdict-IsFair c timeout (ok raw) now = raw_verdict-IsFair c timeout raw now
  verdict-IsFair c timeout (err e) now = λ h. rw (verdict-raised c timeout e now).1 cc

  verdict-passed :
      (c : TestCandidate) (timeout : Decimal) (r : Result ExecutionRawResult) (now : Timestamp)
      → (verdict tools c timeout r now).passed ≡ true
      → (raw : ExecutionRawResult) × (r ≡ ok raw) × IsCollection raw
  unfolding verdict
  verdict-passed c timeout (ok raw) now h = (raw, refl, raw_verdict-passed c timeout raw now h)
  verdict-passed c timeout (err e) now h = absurd (let f = (verdict-raised c timeout e now).0 in cc)

module _ {World : Type 0} (tools : CollectionTools World) (config : CollectionConfig) where
  -- The candidate was collected in a container, in some directory and world.
  pub record WasCollected (c : TestCandidate) : Type 0 where
    pub directory : FilePath
    pub start : World
    pub raw : ExecutionRawResult
    pub ran : (collect_in tools config c directory (locals_at tools config start)).0 ≡ ok raw
    pub collection : IsCollection tools raw

  -- What the session of a gate may answer.
  abbrev IsAnswer : TestCandidate → ValidationResult → Type 0
  IsAnswer c r = IsFair r × (r.passed ≡ true → WasCollected c)

  session-answers :
      (c : TestCandidate) (directory : FilePath) (w w' : World) (r : ValidationResult)
      → session tools config c directory w ≡ (ok r, w')
      → IsAnswer c r
  unfolding session
  session-answers c directory w w' r h =
      let x = collect_in tools config c directory (locals_at tools config w) in
      let timeout = bounded_timeout config.timeout_sec in
      let now = (tools.clock (torn_down tools config directory x.1)).0 in
      let same : verdict tools c timeout x.0 now ≡ r = cc in
      (
        subst (λ (y : ValidationResult). IsFair y) same (verdict-IsFair tools c timeout x.0 now),
        λ p.
            let (raw, ran, collection) =
              verdict-passed tools c timeout x.0 now (rw (sym same) at p) in
            record {
              directory = directory;
              start = w;
              raw = raw;
              ran = ran;
              collection = collection;
            },
      )

  settled-answers :
      (c : TestCandidate) (now : Timestamp)
      → is_settled tools config c.validation_status ≡ true
      → IsAnswer c (settled_result tools config c now)
  settled-answers c now h = (λ p q. (let h' = rw q at h in cc), λ p. absurd cc)

  begun :
      (c : TestCandidate) (x : Result FilePath × World) (w' : World) (r : ValidationResult)
      → continue (λ directory. session tools config c directory) x.0 x.1 ≡ (ok r, w')
      → IsAnswer c r
  begun c (ok directory, w) w' r h = session-answers c directory w w' r h
  begun c (err e, w) w' r h = absurd cc

  gate-answers :
      (c : TestCandidate) (w w' : World) (r : ValidationResult)
      → collection_gate tools config c w ≡ (ok r, w')
      → IsAnswer c r
  unfolding collection_gate validate_collection
  gate-answers c w w' r h = elim (Bool-cases (is_settled tools config c.validation_status)) [
    | inl s ↦
        let now = (tools.clock w).0 in
        let same : settled_result tools config c now ≡ r = (let h' = rw s at h in cc) in
        subst (λ (y : ValidationResult). IsAnswer c y) same (settled-answers c now s)
    | inr s ↦ begun c _ w' r (rw s at h)
  ]

  pub collection_gate-IsSound : IsSound (collection_gate tools config)
  collection_gate-IsSound = record { rejects = λ c w w' r h. (gate-answers c w w' r h).0 }

  pub collection_gate-collected :
      (c : TestCandidate) (w w' : World) (r : ValidationResult)
      → collection_gate tools config c w ≡ (ok r, w')
      → r.passed ≡ true
      → WasCollected c
  collection_gate-collected c w w' r h p = (gate-answers c w w' r h).1 p
