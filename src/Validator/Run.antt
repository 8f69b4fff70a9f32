-- ===== src/Validator/Run.antt =====
-- PoC-webui-v2/internal/validator/validator.go: Validate, all checks in order, with the errors first.
-- The JSON Schema of an object and the line of a path in its YAML form are arguments, as are the
-- shipped objects.
pub mod ErrorsFirst
pub mod Verdicts
use songbird_prototypes.Prelude.{
  ℕ, String, Bool, true, ◌&&◌, not, Option, none, some, List, [], ◌∷◌, map, ◌==◌, if◌then◌else◌,
}
use songbird_prototypes.Model.Tree.{Tree, Doc}
use songbird_prototypes.Model.Edits.{each, sys}
use songbird_prototypes.Netip.{Texts}
use songbird_prototypes.Predefined.{Shipped}
use songbird_prototypes.Validator.Errors.{Error}
use songbird_prototypes.Validator.Checks.{Located, Place, Env, Check, ◌>>=◌, ◌>>◌, at, err, for}
use songbird_prototypes.Validator.Names.{Registry, in_space, names}
use songbird_prototypes.Validator.Globals.{system, users, colors_check}
use songbird_prototypes.Validator.Network.{interfaces, zones, routes}
use songbird_prototypes.Validator.Entries.{addresses, services}
use songbird_prototypes.Validator.Groups.{groups}
use songbird_prototypes.Validator.Dhcp.{dhcp}
use songbird_prototypes.Validator.RuleSets.Policies.{rule_sets}

-- An issue of the JSON Schema.
pub record Issue : Type 0 where
  pub path : String
  pub reason : String

unfoldable pub env_of : Tree → Bool → Registry → Env
env_of t appliance m = record {
  t = t;
  sys = sys t;
  appliance = appliance;
  addr_ns = in_space "address" m;
  svc_ns = in_space "service" m;
  net_ns = in_space "network" m;
  colors = in_space "color" m;
}

-- `sort.SliceStable`, by stable insertion.
errors_before : Error → Error → Bool
errors_before a b = not (a.severity == b.severity) && (a.severity == "error")

insert_error : Error → List Error → List Error
unfolding errors_before
insert_error e [] = e ∷ []
insert_error e (x ∷ l) = if errors_before x e then x ∷ insert_error e l else e ∷ x ∷ l

unfoldable pub errors_first : List Error → List Error
unfolding insert_error
errors_first [] = []
errors_first (e ∷ l) = insert_error e (errors_first l)

module _ (line_of : Doc → String → ℕ) where
  abbrev pub line_in : Option Doc → Error → Error
  line_in none e = e
  line_in (some o) e = if e.path == "" then e else record e { line = line_of o e.path }

  unfoldable pub with_line : Located → Error
  with_line l = line_in l.obj l.error

module _ (netip : Texts) (shipped : Shipped) (schema : Doc → List Issue) where
  unfoldable pub structural : Tree → Check (Unit {0})
  structural t =
      for (each t) (λ o. at o >> for (schema o) (λ is. err "schema" "C-005" is.path is.reason))

  -- The checks of layer 2 that follow `names`.
  unfoldable pub semantic : Env → Check (Unit {0})
  semantic env = do
    system env
    colors_check shipped env
    interfaces netip env
    zones env
    addresses netip env
    groups env
    services shipped env
    rule_sets netip env
    routes netip env
    dhcp netip env
    users env

  unfoldable pub checks : Tree → Bool → Check (Unit {0})
  checks t appliance = structural t >> names t >>= λ m. semantic (env_of t appliance m)

module _ (netip : Texts) (shipped : Shipped) (schema : Doc → List Issue)
    (line_of : Doc → String → ℕ) where
  unfoldable pub validate_with : Tree → Bool → List Error
  validate_with t appliance =
      let start : Place = record { cur = none; file = "" } in
      errors_first (map (with_line line_of) (checks netip shipped schema t appliance start).found)

  -- `Validate`: the configuration of an appliance.
  unfoldable pub validate : Tree → List Error
  validate t = validate_with t true
