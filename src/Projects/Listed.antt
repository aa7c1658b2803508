-- ===== src/Projects/Listed.antt =====
-- The stacks that pkg/projectstack/stack.go finds in the directories of a walk.
use kusion.Base.{
  String, Bool, true, false, ◌&&◌, List, [], ◌∷◌, ◌++◌, ◌==◌, ◌≡◌, refl, ap, arith, eq_iff,
  contains, Bool-cases, if◌then◌else◌, ◌⊎◌, inl, inr,
}
use kusion.Control.{Result, value, error}
use kusion.Runtime.{Stack}
use kusion.Projects.{Tree, is_stack, stack_at, add_stack, stacks_in}

-- a stack with what stands before and behind it
pub record IsListed (s : Stack) (stacks : List Stack) : Type 0 where
  pub before : List Stack
  pub behind : List Stack
  pub split : stacks ≡ before ++ s ∷ behind

added :
    (s : Stack) (b : Bool) (r : Result Stack) (rest : List Stack)
    → (if b && true then add_stack r rest else rest) ≡ s ∷ []
    → ((b ≡ true) × (r ≡ value s)) ⊎ (rest ≡ s ∷ [])
unfolding add_stack
added s false r rest h = inr h
added s true (error e) rest h = inr h
added s true (value a) rest h = inl (refl, (cc))

IsListed-added :
    (s : Stack) (b : Bool) (r : Result Stack) (rest : List Stack)
    → IsListed s rest
    → IsListed s (if b && true then add_stack r rest else rest)
unfolding add_stack
IsListed-added s false r rest l = l
IsListed-added s true (error e) rest l = l
IsListed-added s true (value a) rest l = record {
  before = a ∷ l.before;
  behind = l.behind;
  split = ap (λ stacks. a ∷ stacks) l.split;
}

IsListed-first :
    (s : Stack) (b : Bool) (r : Result Stack) (rest : List Stack)
    → b ≡ true
    → r ≡ value s
    → IsListed s (if b && true then add_stack r rest else rest)
unfolding add_stack
IsListed-first s b r rest i a = rw (i, a) (record { before = []; behind = rest; split = refl })

first_or_behind :
    (q p : String) (qs : List String)
    → contains p (q ∷ qs) ≡ true
    → (q ≡ p) ⊎ (contains p qs ≡ true)
unfolding contains
first_or_behind q p qs c = elim (Bool-cases (q == p)) [
  | inl e ↦ inl (ground (arith, eq_iff q p))
  | inr e ↦ inr (ground arith)
]

module _ (t : Tree) where
  -- a directory whose stack is in a list of stacks
  pub record IsSource (s : Stack) (ps : List String) : Type 0 where
    pub path : String
    pub visited : contains path ps ≡ true
    pub stack : is_stack t path ≡ true
    pub parsed : stack_at t path ≡ value s

  pub stacks_in-IsSource : (s : Stack) (ps : List String) → stacks_in t ps ≡ s ∷ [] → IsSource s ps
  unfolding stacks_in contains
  stacks_in-IsSource s [] h = cc
  stacks_in-IsSource s (p ∷ ps) h =
      elim (added s (is_stack t p) (stack_at t p) (stacks_in t ps) h) [
        | inl (i, a) ↦ record {
          path = p;
          visited = ground (arith, eq_iff p p);
          stack = i;
          parsed = a;
        }
        | inr e ↦
            let deeper = stacks_in-IsSource s ps e in
            record {
              path = deeper.path;
              visited = ground (arith, deeper.visited);
              stack = deeper.stack;
              parsed = deeper.parsed;
            }
      ]

  -- a stack that is read in a visited directory is listed
  pub stacks_in-IsListed :
      (s : Stack) (p : String) (ps : List String)
      → contains p ps ≡ true
      → is_stack t p ≡ true
      → stack_at t p ≡ value s
      → IsListed s (stacks_in t ps)
  unfolding stacks_in contains
  stacks_in-IsListed s p [] c i a = cc
  stacks_in-IsListed s p (q ∷ qs) c i a = elim (first_or_behind q p qs c) [
    | inl e ↦ IsListed-first s (is_stack t q) (stack_at t q) (stacks_in t qs) (rw e i) (rw e a)
    | inr e ↦
        IsListed-added s (is_stack t q) (stack_at t q) (stacks_in t qs)
          (stacks_in-IsListed s p qs e i a)
  ]
