-- ===== src/Model/Edits/Laws.antt =====
-- tree.go: what `Get` sees after `Put`, `Delete` and `Sort`.
use songbird_prototypes.Prelude.{
  String, ◌≡◌, refl, ap, ◌≢◌, inl, inr, false, Option, none, some, List, arith, ◌==◌, eq_iff,
  if◌then◌else◌, Bool-cases,
}
use songbird_prototypes.Model.Objects.Laws.{find-put}
use songbird_prototypes.Model.Objects.{name_of, find}
use songbird_prototypes.Model.Types.{Object}
use songbird_prototypes.Model.Objects
use songbird_prototypes.Model.Tree.{
  kind_text, list_kind-eq_some, list_kind, Doc, to_doc, as_object, header, KindName, Tree, SpecOf,
  objects, with_objects,
}
use songbird_prototypes.Model.Edits.{get_in}

pub KindName-discrete : Discrete KindName
KindName-discrete = hlevel

pub objects-with_objects :
    (k : KindName) (l : List (Object (SpecOf k))) (t : Tree) → objects k (with_objects k l t) ≡ l
unfolding objects with_objects
objects-with_objects KindName.system l t = refl
objects-with_objects _ l t = refl

pub objects-with_objects_ne :
    (k j : KindName) (l : List (Object (SpecOf k))) (t : Tree)
    → k ≢ j
    → objects j (with_objects k l t) ≡ objects j t
unfolding objects with_objects
objects-with_objects_ne KindName.system KindName.system l t h = absurd (h refl)
objects-with_objects_ne KindName.system _ l t h = refl
objects-with_objects_ne KindName.color KindName.color l t h = absurd (h refl)
objects-with_objects_ne KindName.color _ l t h = refl
objects-with_objects_ne KindName.interface KindName.interface l t h = absurd (h refl)
objects-with_objects_ne KindName.interface _ l t h = refl
objects-with_objects_ne KindName.zone KindName.zone l t h = absurd (h refl)
objects-with_objects_ne KindName.zone _ l t h = refl
objects-with_objects_ne KindName.static_route KindName.static_route l t h = absurd (h refl)
objects-with_objects_ne KindName.static_route _ l t h = refl
objects-with_objects_ne KindName.dhcp_server KindName.dhcp_server l t h = absurd (h refl)
objects-with_objects_ne KindName.dhcp_server _ l t h = refl
objects-with_objects_ne KindName.address KindName.address l t h = absurd (h refl)
objects-with_objects_ne KindName.address _ l t h = refl
objects-with_objects_ne KindName.address_group KindName.address_group l t h = absurd (h refl)
objects-with_objects_ne KindName.address_group _ l t h = refl
objects-with_objects_ne KindName.service KindName.service l t h = absurd (h refl)
objects-with_objects_ne KindName.service _ l t h = refl
objects-with_objects_ne KindName.service_group KindName.service_group l t h = absurd (h refl)
objects-with_objects_ne KindName.service_group _ l t h = refl
objects-with_objects_ne KindName.rule_set KindName.rule_set l t h = absurd (h refl)
objects-with_objects_ne KindName.rule_set _ l t h = refl
objects-with_objects_ne KindName.user KindName.user l t h = absurd (h refl)
objects-with_objects_ne KindName.user _ l t h = refl

pub header-to_doc :
    (k : KindName) (o : Object (SpecOf k)) → header (to_doc k o) ≡ (o.kind, o.metadata)
unfolding header to_doc
header-to_doc KindName.system o = refl
header-to_doc _ o = refl

pub to_doc-as_object :
    (k : KindName) (d : Doc) (o : Object (SpecOf k)) → as_object k d ≡ some o → to_doc k o ≡ d
unfolding as_object to_doc
to_doc-as_object KindName.system (Doc.system_doc x) o h = cc
to_doc-as_object KindName.system d o h = cc
to_doc-as_object KindName.color (Doc.color_doc x) o h = cc
to_doc-as_object KindName.color d o h = cc
to_doc-as_object KindName.interface (Doc.interface_doc x) o h = cc
to_doc-as_object KindName.interface d o h = cc
to_doc-as_object KindName.zone (Doc.zone_doc x) o h = cc
to_doc-as_object KindName.zone d o h = cc
to_doc-as_object KindName.static_route (Doc.static_route_doc x) o h = cc
to_doc-as_object KindName.static_route d o h = cc
to_doc-as_object KindName.dhcp_server (Doc.dhcp_server_doc x) o h = cc
to_doc-as_object KindName.dhcp_server d o h = cc
to_doc-as_object KindName.address (Doc.address_doc x) o h = cc
to_doc-as_object KindName.address d o h = cc
to_doc-as_object KindName.address_group (Doc.group_doc x) o h = cc
to_doc-as_object KindName.address_group d o h = cc
to_doc-as_object KindName.service (Doc.service_doc x) o h = cc
to_doc-as_object KindName.service d o h = cc
to_doc-as_object KindName.service_group (Doc.group_doc x) o h = cc
to_doc-as_object KindName.service_group d o h = cc
to_doc-as_object KindName.rule_set (Doc.rule_set_doc x) o h = cc
to_doc-as_object KindName.rule_set d o h = cc
to_doc-as_object KindName.user (Doc.user_doc x) o h = cc
to_doc-as_object KindName.user d o h = cc

unfoldable pub wrap : (k : KindName) → Option (Object (SpecOf k)) → Option Doc
wrap k none = none
wrap k (some o) = some (to_doc k o)

pub get_in-eq-wrap :
    (k : KindName) (t : Tree) (n : String) → get_in (some k) t n ≡ wrap k (find n (objects k t))
unfolding get_in wrap
get_in-eq-wrap k t n = ground arith

-- A lookup in the kind that was written.
pub get_in-put_self :
    (k : KindName) (t : Tree) (o : Object (SpecOf k)) (n : String)
    → get_in (some k) (with_objects k (Objects.put o (objects k t)) t) n
      ≡ (if name_of o == n then some (to_doc k o) else get_in (some k) t n)
unfolding wrap
get_in-put_self k t o n =
    rw (get_in-eq-wrap, get_in-eq-wrap, objects-with_objects, find-put)
      (elim (Bool-cases (name_of o == n)) [ inl e ↦ rw e | inr e ↦ rw e ])

pub get_in_ne :
    (k j : KindName) (l : List (Object (SpecOf k))) (t : Tree) (n : String)
    → k ≢ j
    → get_in (some j) (with_objects k l t) n ≡ get_in (some j) t n
get_in_ne k j l t n h =
    rw (get_in-eq-wrap j _ n, get_in-eq-wrap j t n, objects-with_objects_ne k j l t h)

pub list_kind_ne :
    (s r : String) (k j : KindName)
    → list_kind s ≡ some k
    → list_kind r ≡ some j
    → (s == r) ≡ false
    → k ≢ j
list_kind_ne s r k j p q h e =
    ground (arith, eq_iff s r, list_kind-eq_some s k p, list_kind-eq_some r j q, ap kind_text e)
