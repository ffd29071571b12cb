-- ===== src/CrdtCore/GSet/Tests.antt =====
-- The tests of crates/crdt-core/src/g_set.rs; `false` is a failed assertion.
use nettverksprogrammering_p.Base.{ℕ, ◌≡◌, refl, ◌↔◌, Bool, true, not, ◌&&◌, List, ◌==◌, ℕ_discrete}
use nettverksprogrammering_p.Std.HashMap
use nettverksprogrammering_p.Std.HashMap.{HashKey, nat_key}
use nettverksprogrammering_p.Std.HashMap.Entries.{put, lookup}
use nettverksprogrammering_p.Std.HashMap.Equality.{eq, eq_iff}
use nettverksprogrammering_p.Std.HashSet
use nettverksprogrammering_p.Std.Text.{Text, text_key, text_discrete, codes}
use nettverksprogrammering_p.CrdtCore.Traits.Checks.{
  commutes, associates, absorbs_itself, checks_hold,
}
use nettverksprogrammering_p.CrdtCore.GSet.{
  GSet, new, insert, contains, len, is_empty, merge, equals, cvrdt, build,
}
use nettverksprogrammering_p.CrdtCore.GSet.Laws.{Same, GSet-IsConvergent}

-- The derived `==` holds exactly of sets with the same elements.
pub equals_iff {ℓ} : {T : Type ℓ} ⦃key : HashKey T⦄ (a b : GSet T) → (equals a b ≡ true) ↔ Same a b
unfolding equals
equals_iff a b = eq_iff (λ _ _. true) (λ v w. (λ _. refl, λ _. refl)) a.elements b.elements

unfoldable pub prop_merge_is_commutative : List ℕ → List ℕ → Bool
prop_merge_is_commutative ops_a ops_b = commutes cvrdt equals (build ops_a) (build ops_b)

unfoldable pub prop_merge_is_associative : List ℕ → List ℕ → List ℕ → Bool
prop_merge_is_associative ops_a ops_b ops_c =
    associates cvrdt equals (build ops_a) (build ops_b) (build ops_c)

unfoldable pub prop_merge_is_idempotent : List ℕ → Bool
prop_merge_is_idempotent ops = absorbs_itself cvrdt equals (build ops)

-- The property tests pass on every input.
pub g_set_props_pass :
    (ops_a ops_b ops_c : List ℕ)
    → (prop_merge_is_commutative ops_a ops_b ≡ true)
      × (prop_merge_is_associative ops_a ops_b ops_c ≡ true)
      × (prop_merge_is_idempotent ops_a ≡ true)
unfolding prop_merge_is_commutative prop_merge_is_associative prop_merge_is_idempotent
g_set_props_pass ops_a ops_b ops_c =
    checks_hold GSet-IsConvergent equals equals_iff (build ops_a) (build ops_b) (build ops_c) tt tt

unfoldable pub empty_set_is_empty : Bool
empty_set_is_empty = let s : GSet ℕ = new in is_empty s && len s == 0

unfoldable pub insert_adds_element : Bool
insert_adds_element = let (s, added) = insert (new {T = ℕ}) 1 in added && contains s 1 && len s == 1

unfoldable pub reinsert_returns_false_and_does_not_grow : Bool
reinsert_returns_false_and_does_not_grow =
    let (s, added) = insert (new {T = ℕ}) 1 in
    let (s', again) = insert s 1 in added && not again && len s' == 1

unfoldable pub merge_combines_elements : Bool
merge_combines_elements =
    let a : GSet ℕ = (insert (insert new 1).0 2).0 in
    let b : GSet ℕ = (insert (insert new 2).0 3).0 in
    let merged = merge a b in
    len merged == 3 && contains merged 1 && contains merged 2 && contains merged 3

unfoldable pub merge_with_self_is_noop : Bool
merge_with_self_is_noop =
    let a : GSet ℕ = (insert (insert new 1).0 2).0 in absorbs_itself cvrdt equals a

unfoldable pub supports_string_elements : Bool
supports_string_elements =
    let a : GSet Text = (insert new (codes "hello")).0 in
    let b : GSet Text = (insert new (codes "world")).0 in len (merge a b) == 2

-- The unit tests pass.
unit_tests_pass :
    (empty_set_is_empty ≡ true)
    × (insert_adds_element ≡ true)
    × (reinsert_returns_false_and_does_not_grow ≡ true)
    × (merge_combines_elements ≡ true)
    × (merge_with_self_is_noop ≡ true)
    × (supports_string_elements ≡ true)
unfolding empty_set_is_empty insert_adds_element reinsert_returns_false_and_does_not_grow
    merge_combines_elements merge_with_self_is_noop supports_string_elements new insert contains len
    is_empty merge equals eq HashSet.insert HashSet.extend HashMap.contains_key HashMap.new
    HashMap.get HashMap.insert HashMap.len HashMap.is_empty put lookup ℕ_discrete text_discrete
unit_tests_pass = (refl, refl, refl, refl, refl, refl)
