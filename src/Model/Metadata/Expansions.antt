-- ===== src/Model/Metadata/Expansions.antt =====
-- tree.go: the groups of a configuration without metadata stand for the same objects, without metadata.
use songbird_prototypes.Prelude.{
  ℕ, zero, suc, String, ◌≡◌, refl, sym, ap, inl, inr, Option, List, [], ◌∷◌, map, Bool-cases,
  Option-cases, length, length-map, contains,
}
use mathlib.Core.Option
use mathlib.Core.List.{map-append}
use songbird_prototypes.Model.Tree.{Tree}
use songbird_prototypes.Model.Walk.{State, walk, walk_all}
use songbird_prototypes.Model.Walk.Reaches.{closure}
use songbird_prototypes.Model.Lookups.{
  members, address_named, service_named, expand_addresses, expand_services,
}
use songbird_prototypes.Model.Metadata.{bare, bare_tree}
use songbird_prototypes.Model.Metadata.Names.{find-bare, members-bare}

-- Two pairs of tables that agree up to `g`.
module _ {A : Type 0} (g : A → A) (leaf leaf' : String → Option A)
    (group group' : String → Option (List String))
    (same_leaf : (n : String) → leaf' n ≡ Option.map g (leaf n))
    (same_group : (n : String) → group' n ≡ group n) where
  on : State A → State A
  on s = record { seen = s.seen; out = map g s.out }

  walk_all-on :
      (w w' : String → State A → State A)
      → ((m : String) (s : State A) → w' m (on s) ≡ on (w m s))
      → (ms : List String) (s : State A) → walk_all w' ms (on s) ≡ on (walk_all w ms s)
  unfolding walk_all
  walk_all-on w w' h [] s = refl
  walk_all-on w w' h (m ∷ ms) s = rw (h m s) (walk_all-on w w' h ms (w m s))

  walk-on :
      (f : ℕ) (n : String) (s : State A) → walk leaf' group' f n (on s) ≡ on (walk leaf group f n s)
  unfolding walk on
  walk-on zero n s = refl
  walk-on (suc f) n s = elim (Bool-cases (contains s.seen n)) [
    | inl old ↦ rw (old, walk) refl
    | inr new ↦ elim (Option-cases (leaf n)) [
      | inr (a, el) ↦
          rw (new, walk, same_leaf n, el)
            (ap (λ l. record { seen = n ∷ s.seen; out = l }) (sym (map-append g s.out (a ∷ []))))
      | inl el ↦ elim (Option-cases (group n)) [
        | inl eg ↦ rw (new, walk, same_leaf n, el, same_group n, eg) refl
        | inr (ms, eg) ↦
            rw (new, walk, same_leaf n, el, same_group n, eg)
              (walk_all-on (walk leaf group f) (walk leaf' group' f) (walk-on f) ms
                (record { seen = n ∷ s.seen; out = s.out }))
      ]
    ]
  ]

  pub closure-on :
      (f : ℕ) (ref : String) → closure leaf' group' f ref ≡ map g (closure leaf group f ref)
  unfolding on
  closure-on f ref = ap (λ (s : State A). s.out) (walk-on f ref (record { seen = []; out = [] }))

pub expand_addresses-bare :
    (t : Tree) (ref : String)
    → expand_addresses (bare_tree t) ref ≡ map bare (expand_addresses t ref)
unfolding expand_addresses address_named bare_tree
expand_addresses-bare t ref = rw (length-map bare t.address_groups) (
    closure-on bare (address_named t) (address_named (bare_tree t)) (members t.address_groups)
      (members (map bare t.address_groups)) (λ n. find-bare n t.addresses)
      (members-bare t.address_groups) (suc (length t.address_groups)) ref)

pub expand_services-bare :
    (t : Tree) (ref : String) → expand_services (bare_tree t) ref ≡ map bare (expand_services t ref)
unfolding expand_services service_named bare_tree
expand_services-bare t ref = rw (length-map bare t.service_groups) (
    closure-on bare (service_named t) (service_named (bare_tree t)) (members t.service_groups)
      (members (map bare t.service_groups)) (λ n. find-bare n t.services)
      (members-bare t.service_groups) (suc (length t.service_groups)) ref)
