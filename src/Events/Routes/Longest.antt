-- ===== src/Events/Routes/Longest.antt =====
-- classify.go, `Route`: the route is the best of all prefixes that contain the destination.
use songbird_prototypes.Prelude.{
  String, ◌≡◌, refl, sym, ap, ◌∙◌, subst, ◌⊎◌, inl, inr, Bool, true, false, Option, none, some,
  List, [], ◌∷◌, ◌++◌, if◌then◌else◌,
}
use songbird_prototypes.Model.Types.{
  Object, InterfaceSpec, StaticRouteSpec, interface_enabled, static_addresses,
}
use songbird_prototypes.Model.Objects.{name_of}
use songbird_prototypes.Model.Tree.{Tree}
use songbird_prototypes.Netip.{Addr, Prefix, Texts}
use songbird_prototypes.Events.Routes.{
  Best, matching, consider, consider_addresses, connected, consider_route, statics, route,
}
use songbird_prototypes.Events.Routes.Choice.{
  Candidate, IsBest, Chosen, pick_all, pick_all-Chosen, pick_from, pick_from-append, pick_from-some,
  as_best, IsNear, near, far, better_irrefl, better_asym, consider-near, consider_route-far,
}

module _ (netip : Texts) (dst : Addr) where
  with_prefix : (Prefix → Candidate) → Option Prefix → List Candidate
  with_prefix make none = []
  with_prefix make (some p) = make p ∷ []

  pub near_by_addresses : String → List String → List Candidate
  near_by_addresses name [] = []
  near_by_addresses name (a ∷ rest) =
      with_prefix (near name) (matching netip dst a) ++ near_by_addresses name rest

  -- The connected prefixes of enabled Interfaces that contain the destination.
  pub near_by : List (Object InterfaceSpec) → List Candidate
  near_by [] = []
  near_by (i ∷ rest) =
      (if interface_enabled i.spec
        then near_by_addresses (name_of i) (static_addresses i.spec)
        else [])
      ++ near_by rest

  -- The static routes whose prefix contains the destination.
  pub far_by : List (Object StaticRouteSpec) → List Candidate
  far_by [] = []
  far_by (r ∷ rest) =
      with_prefix (far r.spec) (matching netip dst r.spec.destination) ++ far_by rest

  pub candidates : Tree → List Candidate
  candidates t = near_by t.interfaces ++ far_by t.static_routes

  Follows : Best → List Candidate → Option Candidate → Type 0
  Follows b cs o = (b ≡ as_best (pick_from cs o)) × IsNear (pick_from cs o)

  consider-Follows :
      (name : String) (m : Option Prefix) (o : Option Candidate)
      → IsNear o
      → Follows (consider netip dst name m (as_best o)) (with_prefix (near name) m) o
  unfolding with_prefix Follows consider pick_from
  consider-Follows name none o h = (refl, h)
  consider-Follows name (some p) o h = consider-near netip dst name p o h

  addresses-Follows :
      (name : String) (texts : List String) (o : Option Candidate)
      → IsNear o
      → Follows
          (consider_addresses netip dst name texts (as_best o))
          (near_by_addresses name texts)
          o
  unfolding Follows consider_addresses near_by_addresses pick_from
  addresses-Follows name [] o h = (refl, h)
  addresses-Follows name (a ∷ rest) o h =
      let m = matching netip dst a in
      let (e, k) = consider-Follows name m o h in
      let (e', k') = addresses-Follows name rest (pick_from (with_prefix (near name) m) o) k in
      let joined = pick_from-append (with_prefix (near name) m) (near_by_addresses name rest) o in
      (
        ap (consider_addresses netip dst name rest) e ∙ e' ∙ ap as_best (sym joined),
        subst IsNear (sym joined) k',
      )

  enabled-Follows :
      (b : Bool) (name : String) (texts : List String) (o : Option Candidate)
      → IsNear o
      → Follows
          (if b then consider_addresses netip dst name texts (as_best o) else as_best o)
          (if b then near_by_addresses name texts else [])
          o
  unfolding Follows pick_from
  enabled-Follows true name texts o h = addresses-Follows name texts o h
  enabled-Follows false name texts o h = (refl, h)

  connected-Follows :
      (is : List (Object InterfaceSpec)) (o : Option Candidate)
      → IsNear o
      → Follows (connected netip dst is (as_best o)) (near_by is) o
  unfolding Follows connected near_by pick_from
  connected-Follows [] o h = (refl, h)
  connected-Follows (i ∷ rest) o h =
      let here =
        if interface_enabled i.spec
        then near_by_addresses (name_of i) (static_addresses i.spec)
        else [] in
      let (e, k) =
        enabled-Follows (interface_enabled i.spec) (name_of i) (static_addresses i.spec) o h in
      let (e', k') = connected-Follows rest (pick_from here o) k in
      let joined = pick_from-append here (near_by rest) o in
      (ap (connected netip dst rest) e ∙ e' ∙ ap as_best (sym joined), subst IsNear (sym joined) k')

  route-chosen :
      (r : StaticRouteSpec) (m : Option Prefix) (o : Option Candidate)
      → consider_route netip dst r m (as_best o) ≡ as_best (pick_from (with_prefix (far r) m) o)
  unfolding consider_route with_prefix pick_from
  route-chosen r none o = refl
  route-chosen r (some p) o = consider_route-far netip dst r p o

  statics-chosen :
      (rs : List (Object StaticRouteSpec)) (o : Option Candidate)
      → statics netip dst rs (as_best o) ≡ as_best (pick_from (far_by rs) o)
  unfolding statics far_by pick_from
  statics-chosen [] o = refl
  statics-chosen (r ∷ rest) o =
      let m = matching netip dst r.spec.destination in
      ap (statics netip dst rest) (route-chosen r.spec m o)
      ∙ statics-chosen rest (pick_from (with_prefix (far r.spec) m) o)
      ∙ ap as_best (sym (pick_from-append (with_prefix (far r.spec) m) (far_by rest) o))

  route-pick : (t : Tree) → route netip dst t ≡ (as_best (pick_from (candidates t) none)).best
  unfolding route candidates as_best IsNear Follows
  route-pick t =
      let (e, k) = connected-Follows t.interfaces none tt in
      ap (λ (b : Best). b.best)
        (ap (statics netip dst t.static_routes) e
          ∙ statics-chosen t.static_routes (pick_from (near_by t.interfaces) none)
          ∙ ap as_best
              (sym (pick_from-append (near_by t.interfaces) (far_by t.static_routes) none)))

  best_of :
      (cs : List Candidate) (out : String)
      → out ≡ (as_best (pick_from cs none)).best
      → ((cs ≡ []) × (out ≡ "")) ⊎ ((c : Candidate) × IsBest c cs × (out ≡ c.interface))
  unfolding pick_from as_best IsBest Chosen
  best_of [] out h = inl (refl, h)
  best_of (c ∷ cs) out h =
      let w = pick_all cs c in
      let is_w : out ≡ w.interface = h ∙ ap (λ o. (as_best o).best) (pick_from-some cs c) in
      elim (pick_all-Chosen cs c) [
        | inl (same, low) ↦ inr (
          w,
          subst (λ x. IsBest x (c ∷ cs)) (sym same) ([], cs, refl, (better_irrefl c, low), tt),
          is_w,
        )
        | inr ((front, back, split, top, earlier), over) ↦ inr (
          w,
          (c ∷ front, back, ap (λ l. c ∷ l) split, (better_asym w c over, top), (over, earlier)),
          is_w,
        )
      ]

  -- The route of a destination is the Interface of the best candidate, the first one of several: no
  -- enabled connected prefix or static route that contains the destination has a longer prefix, or one
  -- as long with a smaller distance, or then a smaller priority, where connected prefixes have zero for
  -- both. It is empty when no prefix contains the destination.
  pub route-IsBest :
      (t : Tree)
      → ((candidates t ≡ []) × (route netip dst t ≡ ""))
        ⊎ ((c : Candidate) × IsBest c (candidates t) × (route netip dst t ≡ c.interface))
  route-IsBest t = best_of (candidates t) (route netip dst t) (route-pick t)
