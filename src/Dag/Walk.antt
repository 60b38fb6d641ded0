-- ===== src/Dag/Walk.antt =====
-- Walks along parent edges: the specification of reachability and of an acyclic graph.
use attow_nexus.Prelude.{
  String, ◌≡◌, true, List, ◌==◌, contains, Assoc, insert, lookup-insert, if◌then◌else◌, arith,
  or_nil,
}
use attow_nexus.Dag.{parents_of}

abbrev pub IsParent : Assoc (List String) → String → String → Type 0
IsParent m p x = contains p (parents_of m x) ≡ true

-- `Reach m t x`: from `x` some walk along parent edges leads to `t`.
pub data Reach (m : Assoc (List String)) (t : String) : String → Type 0 where
  here : Reach m t t
  step : {x y : String} → IsParent m y x → Reach m t y → Reach m t x

-- No commit is reached from one of its parents.
pub record IsAcyclic (m : Assoc (List String)) : Type 0 where
  pub no_cycle : (x y : String) → IsParent m y x → ¬ Reach m x y

pub Reach-trans :
    {m : Assoc (List String)} {a b c : String} → Reach m b c → Reach m a b → Reach m a c
Reach-trans here h = h
Reach-trans (step e w) h = step e (Reach-trans w h)

pub parents_of-insert :
    (m : Assoc (List String)) (c x : String) (ps : List String)
    → parents_of (insert c ps m) x ≡ (if c == x then ps else parents_of m x)
unfolding or_nil
parents_of-insert m c x ps = ground (arith, lookup-insert c x ps m)
