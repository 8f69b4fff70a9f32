-- ===== src/Model/Metadata/Names.antt =====
-- tree.go: the lookups by name in a configuration without metadata.
use songbird_prototypes.Prelude.{
  String, ◌≡◌, refl, inl, inr, List, [], ◌∷◌, map, ◌==◌, Bool-cases, Option-cases,
}
use mathlib.Core.Option
use songbird_prototypes.Model.Types.{Object, GroupSpec}
use songbird_prototypes.Model.System.{SystemSpec}
use songbird_prototypes.Model.Objects.{name_of, find}
use songbird_prototypes.Model.Tree.{Tree}
use songbird_prototypes.Model.Edits.{sys, system_of}
use songbird_prototypes.Model.Lookups.{side, zone_named, interface_named, members}
use songbird_prototypes.Model.Metadata.{bare, bare_tree}

pub map_both {ℓ κ μ} :
    {A : Type ℓ} {B : Type κ} {C : Type μ} (g : A → B) (h' : B → C) (h : A → C) (l : List A)
    → ((x : A) → h' (g x) ≡ h x)
    → map h' (map g l) ≡ map h l
map_both g h' h [] e = refl
map_both g h' h (x ∷ l) e = rw (e x, map_both g h' h l e)

pub find-bare {ℓ} :
    {S : Type ℓ} (n : String) (l : List (Object S))
    → find n (map bare l) ≡ Option.map bare (find n l)
unfolding find bare
find-bare n [] = refl
find-bare n (o ∷ l) = elim (Bool-cases (name_of o == n)) [
  | inl e ↦ rw e
  | inr e ↦ rw e (find-bare n l)
]

pub members-bare :
    (gs : List (Object GroupSpec)) (n : String) → members (map bare gs) n ≡ members gs n
unfolding members bare
members-bare gs n = elim (Option-cases (find n gs)) [
  | inl e ↦ rw (find-bare n gs, e)
  | inr (g, e) ↦ rw (find-bare n gs, e)
]

pub side-bare : (t : Tree) (ref : String) → side (bare_tree t) ref ≡ side t ref
unfolding side bare bare_tree zone_named interface_named
side-bare t ref = elim (Option-cases (find ref t.zones)) [
  | inr (z, e) ↦ rw (side, find-bare ref t.zones, e)
  | inl e ↦ elim (Option-cases (find ref t.interfaces)) [
    | inl k ↦ rw (side, find-bare ref t.zones, e, find-bare ref t.interfaces, k)
    | inr (i, k) ↦ rw (side, find-bare ref t.zones, e, find-bare ref t.interfaces, k)
  ]
]

system-bare : (l : List (Object SystemSpec)) → system_of (map bare l) ≡ system_of l
unfolding system_of bare
system-bare [] = refl
system-bare (o ∷ l) = refl

pub sys-bare : (t : Tree) → sys (bare_tree t) ≡ sys t
unfolding sys bare_tree
sys-bare t = system-bare t.system
