-- ===== src/Policies/Overrides.antt =====
-- A deny overrides every allow within one document.
use monkeys_identity.Base.{
  true, false, String, List, [], ◌∷◌, Option, codes, equal_text, ok, ◌≡◌, ◌↔◌, ◌⊎◌, inl, inr, arith,
  Any, Result-cases, Bool-cases,
}
use monkeys_identity.Platform.{Unicode, to_lower}
use monkeys_identity.Authz.Value.{Value, Fields}
use monkeys_identity.Policies.{
  entry, text_of, object_of, statement_matches, EvaluationContext, EvaluationResult, with_effect,
  evaluate_statements,
}

module _ (u : Unicode) (pointer : Option EvaluationContext) where
  -- The statement is an object that matches the context, with an effect.
  pub record Fires (v : Value) (effect : String) : Type 0 where
    pub statement : Fields
    pub is_object : object_of v ≡ ok statement
    pub matched : statement_matches statement pointer ≡ ok true
    pub says : text_of (entry "Effect" statement) ≡ ok effect

  -- The statement fires with the effect "deny", in any case of letters.
  abbrev pub Denies : Value → Type 0
  Denies v =
      (effect : String) × Fires v effect × (equal_text (to_lower u (codes effect)) "deny" ≡ true)

  idle :
      (v : Value) (statement : Fields) (effect : String)
      → object_of v ≡ ok statement
      → statement_matches statement pointer ≡ ok false
      → ¬ Fires v effect
  idle v statement effect o m fires =
      let same : fires.statement ≡ statement = ground (arith, fires.is_object) in
      let m' = rw same at fires.matched in ground arith

  -- One turn of the loop.
  step_cases :
      (v : Value) (vs : List Value) (result evaluation : EvaluationResult)
      → evaluate_statements u (v ∷ vs) pointer result ≡ ok evaluation
      → ((¬ ((effect : String) × Fires v effect))
          × (evaluate_statements u vs pointer result ≡ ok evaluation))
        ⊎ ((effect : String) × Fires v effect
            × (((equal_text (to_lower u (codes effect)) "deny" ≡ true)
                  × (with_effect u pointer result effect ≡ evaluation))
                ⊎ ((equal_text (to_lower u (codes effect)) "deny" ≡ false)
                    × (evaluate_statements u vs pointer (with_effect u pointer result effect)
                        ≡ ok evaluation))))
  unfolding evaluate_statements
  step_cases v vs result evaluation h = elim (Result-cases (object_of v)) [
    | inr (e, o) ↦ absurd (ground (arith, o))
    | inl (statement, o) ↦ elim (Result-cases (statement_matches statement pointer)) [
      | inr (e, m) ↦ absurd (ground (arith, o, m))
      | inl (false, m) ↦
          inl ((λ (effect, fires). idle v statement effect o m fires), ground (arith, o, m))
      | inl (true, m) ↦ elim (Result-cases (text_of (entry "Effect" statement))) [
        | inr (e, t) ↦ absurd (ground (arith, o, m, t))
        | inl (effect, t) ↦ inr (
          effect,
          record { statement = statement; is_object = o; matched = m; says = t },
          elim (Bool-cases (equal_text (to_lower u (codes effect)) "deny")) [
            | inl d ↦ inl (d, ground (arith, o, m, t, d))
            | inr d ↦ inr (d, ground (arith, o, m, t, d))
          ],
        )
      ]
    ]
  ]

  same_effect : (v : Value) (e e' : String) → Fires v e → Fires v e' → e ≡ e'
  same_effect v e e' fires fires' =
      let same : fires'.statement ≡ fires.statement =
        ground (arith, fires.is_object, fires'.is_object) in
      let says' = rw same at fires'.says in ground (arith, fires.says)

  -- Where an evaluation of a list of statements returns, it denies exactly if some statement
  -- denies, wherever it stands.
  pub evaluate_statements-Denies_iff :
      (vs : List Value) (result evaluation : EvaluationResult)
      → equal_text result.effect "deny" ≡ false
      → evaluate_statements u vs pointer result ≡ ok evaluation
      → (equal_text evaluation.effect "deny" ≡ true) ↔ Any Denies vs
  unfolding evaluate_statements
  evaluate_statements-Denies_iff [] result evaluation fresh h = ground arith
  evaluate_statements-Denies_iff (v ∷ vs) result evaluation fresh h =
      elim (step_cases v vs result evaluation h) [
        | inl (silent, later) ↦
            let (f, g) = evaluate_statements-Denies_iff vs result evaluation fresh later in
            (
              λ d. inr (f d),
              λ any. elim any [
                | inl (effect, fires, says) ↦ absurd (silent (effect, fires))
                | inr rest ↦ g rest
              ],
            )
        | inr (effect, fires, inl (d, e)) ↦ (λ _. inl (effect, fires, d), λ _. rw (← e) d)
        | inr (effect, fires, inr (d, later)) ↦
            let (f, g) =
              evaluate_statements-Denies_iff vs (with_effect u pointer result effect) evaluation d
                later in
            (
              λ d'. inr (f d'),
              λ any. elim any [
                | inl (effect', fires', says') ↦
                    let d' = rw (same_effect v effect effect' fires fires') at d in
                    absurd (ground (arith, says'))
                | inr rest ↦ g rest
              ],
            )
      ]
