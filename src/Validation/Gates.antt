-- ===== src/Validation/Gates.antt =====
-- The gates that a candidate passes in validation/pipeline.py.
use agentic_test_system.Prelude.{
  ◌≡◌, ◌≢◌, refl, ap, ◌∙◌, Bool, true, false, Option, none, some, List, [], ◌∷◌, ◌++◌, ◌==◌,
  if◌then◌else◌, Bool-cases, inl, inr, eq_of_==, All,
}
use agentic_test_system.Core.{
  Timestamp, TestCandidate, passed, quarantined, status_eq, Result, ok, err, Action, pure, continue,
}
use agentic_test_system.Workflow.Services.{ValidationResult}
use agentic_test_system.Validation.Pipeline.{
  Gate, Screened, with_status, quarantine_result, collect, screen, validate_candidate,
}

module _ {World : Type 0} where
  -- A gate that rejects a candidate never gives it the status PASSED.
  pub record IsSound (gate : Gate World) : Type 0 where
    pub rejects :
        (c : TestCandidate) (w w' : World) (r : ValidationResult)
        → gate c w ≡ (ok r, w')
        → r.passed ≡ false
        → r.status ≢ passed

  -- Every gate was asked about the candidate, one after another, and let it pass.
  pub data PassedAll (c : TestCandidate) : List (Gate World) → World → Type 0 where
    asked_none : (w : World) → PassedAll c [] w
    asked :
        (g : Gate World) (gs : List (Gate World)) (w w' : World) (r : ValidationResult)
        → g c w ≡ (ok r, w')
        → r.passed ≡ true
        → PassedAll c gs w'
        → PassedAll c (g ∷ gs) w

  abbrev pub gate_list : Option (Gate World) → List (Gate World)
  gate_list none = []
  gate_list (some g) = g ∷ []

module _ {World : Type 0} (clock : Action World Timestamp) where
  -- What a computation answers with the status PASSED went through the gates.
  record Justified (c : TestCandidate) (gates : List (Gate World)) (w : World)
      (x : Result Screened × World) : Type 0 where
    pub justify :
        (s : Screened) (w' : World)
        → x ≡ (ok s, w')
        → s.0.validation_status ≡ passed
        → PassedAll c gates w

  status_answered :
      (c : TestCandidate) (r : ValidationResult) (s : Screened) (w w' : World)
      → pure {S = World} {A = Screened} (c, r) w ≡ (ok s, w')
      → c.validation_status ≡ s.0.validation_status
  status_answered c r s w w' q =
      let same : (c, r) ≡ s = cc in ap (λ (x : Screened). x.0.validation_status) same

  judged :
      (g : Gate World) (gs : List (Gate World)) (c : TestCandidate) (w w1 : World)
      (r : ValidationResult) (b : Bool) (rest : Action World Screened)
      → IsSound g
      → g c w ≡ (ok r, w1)
      → r.passed ≡ b
      → Justified c gs w1 (rest w1)
      → Justified c (g ∷ gs) w ((if b then rest else pure (with_status c r.status, r)) w1)
  judged g gs c w w1 r true rest h e p j = record {
    justify = λ s w' q a. asked g gs w w1 r e p (j.justify s w' q a);
  }
  judged g gs c w w1 r false rest h e p j = record {
    justify = λ s w' q a.
        absurd (h.rejects c w w1 r e p (status_answered (with_status c r.status) r s w1 w' q ∙ a));
  }

  screened :
      (g : Gate World) (gs : List (Gate World)) (c : TestCandidate) (w : World)
      (x : Result ValidationResult × World) (rest : Action World Screened)
      → IsSound g
      → g c w ≡ x
      → ((w1 : World) → Justified c gs w1 (rest w1))
      → Justified c
          (g ∷ gs)
          w
          (continue (λ r. if r.passed then rest else pure (with_status c r.status, r)) x.0 x.1)
  screened g gs c w (ok r, w1) rest h e j = judged g gs c w w1 r r.passed rest h e refl (j w1)
  screened g gs c w (err x, w1) rest h e j = record { justify = λ s w' q a. absurd cc }

  collected :
      (g : Gate World) (c : TestCandidate) (w : World) (x : Result ValidationResult × World)
      → IsSound g
      → g c w ≡ x
      → Justified c
          (g ∷ [])
          w
          (continue (λ r. pure (with_status c (if r.passed then passed else r.status), r)) x.0 x.1)
  collected g c w (err x, w1) h e = record { justify = λ s w' q a. absurd cc }
  collected g c w (ok r, w1) h e = elim (Bool-cases r.passed) [
    | inl p ↦ record { justify = λ s w' q a. asked g [] w w1 r e p (asked_none w1) }
    | inr p ↦ record {
      justify = λ s w' q a. absurd (
          h.rejects c w w1 r e p (
            let answered =
              status_answered (with_status c (if r.passed then passed else r.status)) r s w1 w' q
              ∙ a in
            rw p at answered));
    }
  ]

  collect-Justified :
      (coll : Option (Gate World)) (c : TestCandidate) (w : World)
      → All IsSound (gate_list coll)
      → Justified c (gate_list coll) w (collect clock coll c w)
  unfolding collect
  collect-Justified none c w h = record { justify = λ s w' q a. asked_none w }
  collect-Justified (some g) c w h = collected g c w (g c w) h.0 refl

  screen-Justified :
      (gs : List (Gate World)) (coll : Option (Gate World)) (c : TestCandidate) (w : World)
      → All IsSound (gs ++ gate_list coll)
      → Justified c (gs ++ gate_list coll) w (screen clock gs coll c w)
  unfolding screen
  screen-Justified [] coll c w h = collect-Justified coll c w h
  screen-Justified (g ∷ gs) coll c w h =
      screened g (gs ++ gate_list coll) c w (g c w) (screen clock gs coll c) h.0 refl
        (λ w1. screen-Justified gs coll c w1 h.1)

  stamped :
      (c : TestCandidate) (f : Timestamp → ValidationResult) (x : Result Timestamp × World)
      (s : Screened) (w' : World)
      → continue (λ t. pure {S = World} {A = Screened} (c, f t)) x.0 x.1 ≡ (ok s, w')
      → c.validation_status ≡ s.0.validation_status
  stamped c f (ok t, w1) s w' e = status_answered c (f t) s w1 w' e
  stamped c f (err x, w1) s w' e = absurd cc

  -- Where no gate that rejects a candidate gives it the status PASSED, a candidate that the pipeline
  -- answers with that status was asked about at every gate, in their order and the collection gate
  -- last, and each let it pass.
  pub accepted-PassedAll :
      (gates : List (Gate World)) (coll : Option (Gate World)) (c : TestCandidate) (w w' : World)
      (s : Screened)
      → All IsSound (gates ++ gate_list coll)
      → validate_candidate clock gates coll c w ≡ (ok s, w')
      → s.0.validation_status ≡ passed
      → PassedAll c (gates ++ gate_list coll) w
  unfolding validate_candidate
  accepted-PassedAll gates coll c w w' s h e a =
      elim (Bool-cases (c.validation_status == quarantined)) [
        | inl q ↦ absurd (
            let kept = stamped c (quarantine_result c) (clock w) s w' (rw q at e) in
            let known = eq_of_== c.validation_status quarantined q in cc)
        | inr q ↦ (screen-Justified gates coll c w h).justify s w' (rw q at e) a
      ]
