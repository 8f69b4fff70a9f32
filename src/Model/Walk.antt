-- ===== src/Model/Walk.antt =====
-- PoC-webui-v2/internal/model/tree.go: the closure `walk` of `ExpandAddresses` and `ExpandServices`,
-- which are one algorithm over two pairs of tables. `leaf` looks a name up among the objects, `group`
-- among the groups, and gives a group's members. `seen` is the map of visited names.
pub mod Grows
pub mod Reaches
use songbird_prototypes.Prelude.{
  ℕ, zero, suc, String, true, false, Option, none, some, List, [], ◌∷◌, ◌++◌, contains,
}

pub record State {ℓ} (A : Type ℓ) : Type ℓ where
  pub seen : List String
  pub out : List A

-- The loop over the members of a group.
unfoldable pub walk_all {ℓ} :
    {A : Type ℓ} → (String → State A → State A) → List String → State A → State A
walk_all w [] s = s
walk_all w (m ∷ ms) s = walk_all w ms (w m s)

module _ {ℓ} {A : Type ℓ} (leaf : String → Option A) (group : String → Option (List String)) where
  -- The recursion takes fuel: each level of it has visited one more group.
  unfoldable pub walk : ℕ → String → State A → State A
  unfolding walk_all
  walk zero n s = s
  walk (suc f) n s =
      let visited : State A = record { seen = n ∷ s.seen; out = s.out } in
      elim (contains s.seen n) [
        | true ↦ s
        | false ↦ elim (leaf n) [
          | some a ↦ record visited { out = s.out ++ a ∷ [] }
          | none ↦ elim (group n) [ some ms ↦ walk_all (walk f) ms visited | none ↦ visited ]
        ]
      ]
