-- ===== src/Validator/Groups.antt =====
-- PoC-webui-v2/internal/validator/validator.go, `groups`: the members of the groups exist, and no group
-- contains itself. The search takes fuel: each level of its recursion has one more grey group.
pub mod Settled
pub mod Search
pub mod Acyclic
pub mod Fuel
use songbird_prototypes.Prelude.{
  ℕ, zero, suc, String, Option, none, some, List, [], ◌∷◌, ◌++◌, if◌then◌else◌, length, lookup,
  has_key, concat, join,
}
use songbird_prototypes.Model.Types.{Object, GroupSpec}
use songbird_prototypes.Model.Objects.{name_of}
use songbird_prototypes.Model.Tree.{group_doc}
use songbird_prototypes.Validator.Checks.{
  Env, NameSpace, Check, return, ◌>>=◌, ◌>>◌, done, at, err, given, for_from, fold, indexed, ref,
}

abbrev pub Graph : Type 0
Graph = List (String × List String)

pub data Colour : Type 0 where
  white grey black : Colour

abbrev pub Colours : Type 0
Colours = List (String × Colour)

colour_in : Option Colour → Colour
colour_in none = white
colour_in (some c) = c

-- `color[n]`, white where it is not set.
unfoldable pub colour_of : String → Colours → Colour
unfolding colour_in
colour_of n c = colour_in (lookup n c)

abbrev pub members_in : Option (List String) → List String
members_in none = []
members_in (some ms) = ms

module _ (ns : NameSpace) (req : String) (graph : Graph) where
  unfoldable pub report_cycle : String → List String → String → Check (Unit {0})
  report_cycle n path mem =
      given (lookup n ns) at
      >> err "group-cycle" req "spec.members"
          (concat ("cycle: " ∷ join " -> " (path ++ mem ∷ []) ∷ []))

  -- A member that is a group, by its colour; `search` is the recursive call.
  unfoldable pub by_colour :
      (String → List String → Colours → Check Colours)
      → String
      → List String
      → String
      → Colours
      → Colour
      → Check Colours
  by_colour search n path mem c grey = report_cycle n path mem >> return c
  by_colour search n path mem c white = search mem (path ++ mem ∷ []) c
  by_colour search n path mem c black = return c

  unfoldable pub member :
      (String → List String → Colours → Check Colours)
      → String
      → List String
      → String
      → Colours
      → Check Colours
  member search n path mem c =
      if has_key mem graph then by_colour search n path mem c (colour_of mem c) else return c

  unfoldable pub dfs : ℕ → String → List String → Colours → Check Colours
  dfs zero n path c = return c
  dfs (suc f) n path c =
      fold (members_in (lookup n graph)) (member (dfs f) n path) ((n, grey) ∷ c) >>= λ c'.
      return ((n, black) ∷ c')

  unfoldable pub root : ℕ → Colour → String → Colours → Check Colours
  root f white n c = dfs f n (n ∷ []) c
  root f grey n c = return c
  root f black n c = return c

  unfoldable pub roots : ℕ → List (Object GroupSpec) → Colours → Check Colours
  roots f gs c = fold gs (λ g c. root f (colour_of (name_of g) c) (name_of g) c) c

module _ (ns : NameSpace) (kinds : List String) where
  -- The references of a group, and its entry in the graph.
  unfoldable pub group_refs : Object GroupSpec → Graph → Check Graph
  group_refs g graph = do
    at (group_doc g)
    for_from 0 g.spec.members (λ k mem. ref ns mem (indexed "spec.members" k) kinds >>= λ o. done)
    return ((name_of g, g.spec.members) ∷ graph)

  unfoldable pub group_check : String → List (Object GroupSpec) → Check (Unit {0})
  group_check req gs = do
    graph ← fold gs group_refs []
    c ← roots ns req graph (suc (length gs)) gs []
    done

unfoldable pub groups : Env → Check (Unit {0})
groups env =
    group_check env.addr_ns ("Address" ∷ "AddressGroup" ∷ []) "R-013" env.t.address_groups
    >> group_check env.svc_ns ("Service" ∷ "ServiceGroup" ∷ []) "R-011" env.t.service_groups
