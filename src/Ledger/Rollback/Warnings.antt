-- ===== src/Ledger/Rollback/Warnings.antt =====
-- On the loop of daemon/src/ledger/rollback.rs that collects warnings.
use attow_nexus.Prelude.{
  String, ◌≡◌, refl, ap, subst, inl, inr, true, false, List, [], ◌∷◌, ◌==◌, contains, contains-nil,
  contains-cons_cases, Assoc, Bool-cases, ok, ne_of_test,
}
use attow_nexus.Platform.{Platform}
use attow_nexus.Dag.{DagIndex, ancestry}
use attow_nexus.Dag.Walk.{IsParent, Reach, here, step, IsAcyclic}
use attow_nexus.Dag.Order.{IsOrdered, ancestry-IsOrdered}
use attow_nexus.Ledger.Store.Rows.{Store}
use attow_nexus.Ledger.Store.Laws.{view, IsReadable}
use attow_nexus.Ledger.Rollback.{collect_warnings}
use attow_nexus.Ledger.Rollback.Laws.{warnings_before, collect_warnings-view}

-- A commit that is not the target, with no parent at or below it, is not below it.
not_below :
    (m : Assoc (List String)) (target x : String)
    → (x == target) ≡ false
    → ((y : String) → IsParent m y x → ¬ Reach m target y)
    → ¬ Reach m target x
not_below m target x other up here = ne_of_test target target other refl
not_below m target x other up (step {y = y} e w) = up y e w

module _ (p : Platform) (m : Assoc (List String)) (target : String) (s t : Store) where
  module _ (same : (id : String) → ¬ Reach m target id → view p s id ≡ view p t id) where
    warnings_before_same :
        (before xs : List String)
        → IsOrdered m before xs
        → ((x : String) → contains x before ≡ true → ¬ Reach m target x)
        → warnings_before p s target xs ≡ warnings_before p t target xs
    unfolding warnings_before
    warnings_before_same before [] order apart = refl
    warnings_before_same before (x ∷ xs) (parents, order) apart = elim (Bool-cases (x == target)) [
      | inl at_target ↦ rw at_target refl
      | inr other ↦
          let far : ¬ Reach m target x =
            not_below m target x other (λ y e. apart y (parents y e)) in
          let far_all : (z : String) → contains z (x ∷ before) ≡ true → ¬ Reach m target z = λ z on.
            elim (contains-cons_cases z x before on) [
              | inl e ↦ subst (λ v. ¬ Reach m target v) e far
              | inr rest ↦ apart z rest
            ] in
          rw other (rw (same x far, warnings_before_same (x ∷ before) xs order far_all) refl)
    ]

-- In an acyclic index the warnings of a rollback do not depend on the target or on any commit below it:
-- two readable stores that hold the same commits elsewhere give the same warnings.
pub collect_warnings_miss :
    (p : Platform) (dag : DagIndex) (head target : String) (s t : Store)
    → IsAcyclic dag.parents
    → IsReadable p s
    → IsReadable p t
    → ((id : String) → ¬ Reach dag.parents target id → view p s id ≡ view p t id)
    → (collect_warnings p (ancestry dag head) target s).0
      ≡ (collect_warnings p (ancestry dag head) target t).0
collect_warnings_miss p dag head target s t acyclic rs rt same =
    rw
      (
        collect_warnings-view p (ancestry dag head) target s rs,
        collect_warnings-view p (ancestry dag head) target t rt,
      )
      (ap ok (
        warnings_before_same p dag.parents target s t same [] (ancestry dag head)
          (ancestry-IsOrdered dag head acyclic) (λ x on. contains-nil x on)))
