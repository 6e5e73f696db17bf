-- ===== src/Authz/Evaluator/Laws.antt =====
-- `Evaluate` answers by the first statement that fires, whatever stands behind it.
use monkeys_identity.Base.{
  true, false, String, List, [], ◌∷◌, ◌++◌, Option, none, some, codes, ok, if◌then◌else◌, ◌≡◌, ◌≢◌,
  ◌↔◌, ◌⊎◌, inl, inr, refl, ap, arith, All,
}
use monkeys_identity.Platform.{Unicode, Net, equal_fold}
use monkeys_identity.Authz.Conditions.{Context}
use monkeys_identity.Authz.Evaluator.{
  Decision, allow, deny, not_applicable, Statement, matches, evaluate_statements, PolicyDocument,
  evaluate,
}

module _ (u : Unicode) where
  -- What the effect of a statement says, in any case of letters; `none` for any other text.
  abbrev pub verdict : String → Option Decision
  verdict effect =
      if equal_fold u (codes effect) (codes "Deny")
      then some deny
      else if equal_fold u (codes effect) (codes "Allow")
      then some allow
      else none

  module _ (n : Net) (action resource : String) (context : Context) where
    -- The statement applies to the request and decides it.
    pub record Fires (d : Decision) (stmt : Statement) : Type 0 where
      pub matched : matches u n stmt action resource context ≡ ok true
      pub says : verdict stmt.effect ≡ some d

    -- The statement does not apply, or has an effect that says nothing.
    abbrev pub IsIdle : Statement → Type 0
    IsIdle stmt =
        (matches u n stmt action resource context ≡ ok false)
        ⊎ ((matches u n stmt action resource context ≡ ok true) × (verdict stmt.effect ≡ none))

    -- Some statement fires, and all above it are idle.
    pub record FirstFires (d : Decision) (stmts : List Statement) : Type 0 where
      pub above : List Statement
      pub firing : Statement
      pub below : List Statement
      pub split : stmts ≡ above ++ firing ∷ below
      pub idle : All IsIdle above
      pub fires : Fires d firing

    idle_step :
        (stmt : Statement) (rest : List Statement)
        → IsIdle stmt
        → evaluate_statements u n (stmt ∷ rest) action resource context
          ≡ evaluate_statements u n rest action resource context
    unfolding evaluate_statements
    idle_step stmt rest (inl m) = rw m
    idle_step stmt rest (inr (m, v)) = rw m (ground arith)

    fires_step :
        (d : Decision) (stmt : Statement) (rest : List Statement)
        → Fires d stmt
        → evaluate_statements u n (stmt ∷ rest) action resource context ≡ ok d
    unfolding evaluate_statements
    fires_step d stmt rest f = rw f.matched (let v = f.says in ground arith)

    idle-All :
        (above rest : List Statement)
        → All IsIdle above
        → evaluate_statements u n (above ++ rest) action resource context
          ≡ evaluate_statements u n rest action resource context
    idle-All [] rest h = refl
    idle-All (stmt ∷ above) rest (i, h) =
        rw (idle_step stmt (above ++ rest) i) (idle-All above rest h)

    first_sound :
        (d : Decision) (stmts : List Statement)
        → FirstFires d stmts
        → evaluate_statements u n stmts action resource context ≡ ok d
    first_sound d stmts f =
        rw f.split (
          rw (idle-All f.above (f.firing ∷ f.below) f.idle) (fires_step d f.firing f.below f.fires))

    first_cons :
        (d : Decision) (stmt : Statement) (rest : List Statement)
        → IsIdle stmt
        → FirstFires d rest
        → FirstFires d (stmt ∷ rest)
    first_cons d stmt rest i f = record {
      above = stmt ∷ f.above;
      firing = f.firing;
      below = f.below;
      split = ap (λ l. stmt ∷ l) f.split;
      idle = (i, f.idle);
      fires = f.fires;
    }

    step_cases :
        (d : Decision) (stmt : Statement) (rest : List Statement)
        → evaluate_statements u n (stmt ∷ rest) action resource context ≡ ok d
        → ((matches u n stmt action resource context ≡ ok true) × (verdict stmt.effect ≡ some d))
          ⊎ (IsIdle stmt × (evaluate_statements u n rest action resource context ≡ ok d))
    unfolding evaluate_statements
    step_cases d stmt rest h = ground arith

    first_complete :
        (d : Decision) (stmts : List Statement)
        → evaluate_statements u n stmts action resource context ≡ ok d
        → d ≢ not_applicable
        → FirstFires d stmts
    unfolding evaluate_statements
    first_complete d [] h k = absurd (k (ground arith))
    first_complete d (stmt ∷ rest) h k = elim (step_cases d stmt rest h) [
      | inl (m, v) ↦ record {
        above = [];
        firing = stmt;
        below = rest;
        split = refl;
        idle = tt;
        fires = record { matched = m; says = v };
      }
      | inr (i, later) ↦ first_cons d stmt rest i (first_complete d rest later k)
    ]

    -- A list of statements allows (or denies) a request exactly when it has a statement that
    -- applies and says so, with only statements above it that do not apply or say nothing.
    pub evaluate_statements_iff :
        (d : Decision) (stmts : List Statement)
        → d ≢ not_applicable
        → (evaluate_statements u n stmts action resource context ≡ ok d) ↔ FirstFires d stmts
    evaluate_statements_iff d stmts k = (λ h. first_complete d stmts h k, first_sound d stmts)

    -- A document in which an applying Allow statement stands directly above an applying Deny
    -- statement, with idle statements above both, allows the request.
    pub evaluate_allow_shadows :
        (unmarshal : String → Option PolicyDocument) (text : String) (doc : PolicyDocument)
        (above below : List Statement) (allowing denying : Statement)
        → unmarshal text ≡ some doc
        → doc.statement ≡ above ++ allowing ∷ denying ∷ below
        → All IsIdle above
        → Fires allow allowing
        → Fires deny denying
        → evaluate u n unmarshal text action resource context ≡ ok allow
    unfolding evaluate
    evaluate_allow_shadows unmarshal text doc above below allowing denying parsed split idle f g =
        rw (parsed, evaluate)
          (rw split (
            rw (idle-All above (allowing ∷ denying ∷ below) idle)
              (fires_step allow allowing (denying ∷ below) f)))
