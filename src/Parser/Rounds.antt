-- ===== src/Parser/Rounds.antt =====
-- The loop of both parsers over the index of resources, whatever a round of it gives.
use mathlib.Core.Path.{subst}
use kusion.Base.{
  String, true, false, Option, none, some, List, [], ◌∷◌, ◌==◌, ◌≡◌, refl, if◌then◌else◌, is_nil,
  contains, arith, eq_iff, Bool-cases, inl, inr,
}
use kusion.Base.GoMap.{GoMap, get}
use kusion.Control.{◌>>=◌, OnOk, OnOk-bind, OnOk-map}
use kusion.Models.{Resource}
use kusion.Graph.{Dag, IsDag}
use kusion.Parser.{Parsed, Round, round_at, each_resource}
use kusion.Parser.Link.{Extends, Extends-refl, Extends-trans}

same_resource :
    (key k : String) (idx : GoMap Resource) (r s : Resource)
    → key ≡ k
    → get key idx ≡ some r
    → get k idx ≡ some s
    → r ≡ s
same_resource key k idx r s e f g = cc

absurd_key :
    {A : Type 0} (key k : String) (idx : GoMap Resource) (r : Resource)
    → key ≡ k
    → get key idx ≡ none
    → get k idx ≡ some r
    → A
absurd_key key k idx r e f g = cc

-- The graph grows, and no resource leaves the index.
pub record Widens {G : Type 0} (dag : Dag G) (p p' : Parsed dag) : Type 0 where
  pub grows : Extends dag p.0 p'.0
  pub known : (k : String) → is_nil (get k p.1) ≡ false → is_nil (get k p'.1) ≡ false

module _ {G : Type 0} {dag : Dag G} (laws : IsDag dag) (round : Round dag)
    (Q : String → Resource → Parsed dag → Type 0) where
  -- What a round for a resource gives: `Q`, and no change of the index but at its key.
  pub record IsRound (key : String) (r : Resource) (p p' : Parsed dag) : Type 0 where
    pub grows : Extends dag p.0 p'.0
    pub others : (k : String) → (key == k) ≡ false → get k p'.1 ≡ get k p.1
    pub same_keys :
        (k : String) → is_nil (get k p'.1) ≡ (if key == k then false else is_nil (get k p.1))
    pub holds : Q key r p'

  -- What all the rounds give.
  pub record AreRounds (ks : List String) (p p' : Parsed dag) : Type 0 where
    pub widens : Widens dag p p'
    pub each : (k : String) (r : Resource) → contains k ks ≡ true → get k p.1 ≡ some r → Q k r p'

  Q-same :
      (key k : String) (r s : Resource) (p : Parsed dag) → key ≡ k → r ≡ s → Q key r p → Q k s p
  Q-same key k r s p e f q = subst (λ x. Q x s p) e (subst (λ x. Q key x p) f q)

  AreRounds-skip :
      (key : String) (ks : List String) (p p' : Parsed dag)
      → get key p.1 ≡ none
      → AreRounds ks p p'
      → AreRounds (key ∷ ks) p p'
  unfolding contains
  AreRounds-skip key ks p p' missing rest = record {
    widens = rest.widens;
    each = λ k r h e. elim (Bool-cases (key == k)) [
      | inl same ↦ absurd_key key k p.1 r ((eq_iff key k).0 same) missing e
      | inr other ↦ rest.each k r (ground arith) e
    ];
  }

  module _
      (stays : (key : String) (r : Resource) (p p' : Parsed dag)
        → Widens dag p p'
        → Q key r p
        → Q key r p')
      (each_round : (key : String) (r : Resource) (p : Parsed dag)
        → OnOk (IsRound key r p) (round key r p)) where
    AreRounds-cons :
        (key : String) (ks : List String) (r : Resource) (p p' p'' : Parsed dag)
        → get key p.1 ≡ some r
        → IsRound key r p p'
        → AreRounds ks p' p''
        → AreRounds (key ∷ ks) p p''
    unfolding contains
    AreRounds-cons key ks r p p' p'' found first rest = record {
      widens = record {
        grows = Extends-trans laws first.grows rest.widens.grows;
        known = λ k h. rest.widens.known k (ground (arith, first.same_keys k));
      };
      each = λ k s h e. elim (Bool-cases (key == k)) [
        | inl same ↦
            Q-same key k r s p'' ((eq_iff key k).0 same)
              (same_resource key k p.1 r s ((eq_iff key k).0 same) found e)
              (stays key r p' p'' rest.widens first.holds)
        | inr other ↦ rest.each k s (ground arith) (cc (first.others k other, e))
      ];
    }

    round_at-AreRounds :
        (key : String) (ks : List String) (p : Parsed dag) (o : Option Resource)
        → get key p.1 ≡ o
        → ((p' : Parsed dag) → OnOk (AreRounds ks p') (each_resource dag round ks p'))
        → OnOk (AreRounds (key ∷ ks) p) (round_at dag round key o p >>= each_resource dag round ks)
    unfolding round_at
    round_at-AreRounds key ks p none missing ih =
        OnOk-map (each_resource dag round ks p) (ih p)
          (λ p' rest. AreRounds-skip key ks p p' missing rest)
    round_at-AreRounds key ks p (some r) found ih =
        OnOk-bind (IsRound key r p) (AreRounds (key ∷ ks) p) (round key r p)
          (each_resource dag round ks) (each_round key r p)
          (λ p' first.
            OnOk-map (each_resource dag round ks p') (ih p')
              (λ p'' rest. AreRounds-cons key ks r p p' p'' found first rest))

    pub each_resource-AreRounds :
        (ks : List String) (p : Parsed dag) → OnOk (AreRounds ks p) (each_resource dag round ks p)
    unfolding each_resource contains
    each_resource-AreRounds [] p = record {
      widens = record { grows = Extends-refl laws p.0; known = λ k h. h };
      each = λ k r h e. cc;
    }
    each_resource-AreRounds (key ∷ ks) p =
        round_at-AreRounds key ks p (get key p.1) refl (each_resource-AreRounds ks)
