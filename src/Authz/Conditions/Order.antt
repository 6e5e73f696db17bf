-- ===== src/Authz/Conditions/Order.antt =====
-- The order in which a condition's map is ranged over: it never changes a condition that is
-- satisfied, and it decides between "not satisfied" and an error where both are to be found.
use mathlib.Core.List.{Permᴰ}
use mathlib.Core.List.Permᴰ
use mathlib.Core.List.Permᴰ.{nil, cons, swap, trans}
use monkeys_identity.Base.{true, false, String, List, ok, err, ◌≡◌, ◌↔◌, All, subst}
use monkeys_identity.Platform.{Unicode, Net}
use monkeys_identity.Authz.Value.{Value, obj, Fields, fields}
use monkeys_identity.Authz.Conditions.{
  ConditionError, Context, evaluate_operator, check_operators, evaluate,
}
use monkeys_identity.Authz.Conditions.Laws.{OperatorHolds, check_operators_iff}

All-perm : {A : Type 0} (P : A → Type 0) {xs ys : List A} → Permᴰ xs ys → All P xs → All P ys
All-perm P nil h = h
All-perm P (cons e d) (p, h) = (subst P e p, All-perm P d h)
All-perm P (swap e e') (p, (q, h)) = (subst P e' q, (subst P e p, h))
All-perm P (trans d d') h = All-perm P d' (All-perm P d h)

module _ (u : Unicode) (n : Net) (context : Context) where
  check-perm :
      {xs ys : List (String × Value)}
      → Permᴰ xs ys
      → check_operators u n xs context ≡ ok true
      → check_operators u n ys context ≡ ok true
  check-perm {xs} {ys} d h =
      (check_operators_iff u n context ys).1
        (All-perm (OperatorHolds u n context) d ((check_operators_iff u n context xs).0 h))

  -- The order in which the operators of a condition are ranged over does not change whether the
  -- condition is satisfied.
  pub evaluate-perm :
      (fs gs : Fields)
      → Permᴰ (fields fs) (fields gs)
      → (evaluate u n (obj fs) context ≡ ok true) ↔ (evaluate u n (obj gs) context ≡ ok true)
  unfolding evaluate
  evaluate-perm fs gs d = (check-perm d, check-perm (Permᴰ.symm d))

  -- Where one operator of a condition is not satisfied and another one is an error, the order in
  -- which the map is ranged over decides between 'not satisfied' and the error.
  pub evaluate_order_decides :
      (a b : String) (v w : Value) {e : ConditionError}
      → evaluate_operator u n a v context ≡ ok false
      → evaluate_operator u n b w context ≡ err e
      → (evaluate u n (obj (Fields.field a v (Fields.field b w Fields.end))) context ≡ ok false)
        × (evaluate u n (obj (Fields.field b w (Fields.field a v Fields.end))) context ≡ err e)
  unfolding evaluate check_operators
  evaluate_order_decides a b v w h k = (rw h, rw k)
