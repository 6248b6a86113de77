-- ===== src/Protocol/Route/Valid.antt =====
-- What the validation of routes accepts, as predicates, and the routes that extend another.
use mathlib.Core.List.{append_assoc}
use swaw_kit.Prelude.{
  suc, ◌+◌, ◌≤◌, ◌≡◌, refl, sym, ap, ◌∙◌, ◌↔◌, true, List, [], ◌∷◌, ◌++◌, arith, length,
  length-append, All, Text, ok,
}
use swaw_kit.Protocol.Name.{valid_facet_id, valid_resource_selector}
use swaw_kit.Protocol.Route.{
  ResourceHop, ResourceRoute, FacetRoute, RouteTarget, resource_target, facet_target, hop_text,
  hops_text, canonical_route, validate_hops, validate_route, child, canonical_facet_route,
  validate_facet_route, new_facet_route,
}

abbrev pub IsHop : ResourceHop → Type 0
IsHop hop = (valid_facet_id hop.facet ≡ true) × (valid_resource_selector hop.selector ≡ true)

pub record IsRoute (hops : List ResourceHop) : Type 0 where
  pub few : length hops ≤ 32
  pub named : All IsHop hops
  pub short : suc (length (hops_text hops)) ≤ 1024

pub record IsFacetRoute (route : FacetRoute) : Type 0 where
  pub owner : IsRoute route.resource.hops
  pub id : valid_facet_id route.facet ≡ true
  pub short : suc (length (hops_text route.resource.hops)) + suc (length route.facet) ≤ 1024

-- The target would pass its `validate`.
abbrev pub IsTarget : RouteTarget → Type 0
IsTarget (resource_target route) = validate_route route ≡ ok tt
IsTarget (facet_target route) = validate_facet_route route ≡ ok tt

abbrev pub at_hops : List ResourceHop → ResourceRoute
at_hops hops = record { hops = hops }

validate_hops_sound : (hops : List ResourceHop) → validate_hops hops ≡ ok tt → All IsHop hops
unfolding validate_hops
validate_hops_sound [] h = tt
validate_hops_sound (hop ∷ hops) h = ground (arith, validate_hops_sound hops)

validate_hops_complete : (hops : List ResourceHop) → All IsHop hops → validate_hops hops ≡ ok tt
unfolding validate_hops
validate_hops_complete [] h = refl
validate_hops_complete (hop ∷ hops) ((p, q), h) = rw (p, q) (validate_hops_complete hops h)

-- `ResourceRoute::validate` accepts the routes of at most 32 valid hops and 1024 bytes.
pub validate_route_iff :
    (route : ResourceRoute) → (validate_route route ≡ ok tt) ↔ IsRoute route.hops
unfolding validate_route
validate_route_iff route = (
  λ h. ground (arith, validate_hops_sound route.hops),
  λ v. ground (arith, validate_hops_complete route.hops),
)

pub length-facet_route :
    (route : FacetRoute)
    → length (canonical_facet_route route)
      ≡ suc (length (hops_text route.resource.hops)) + suc (length route.facet)
unfolding canonical_facet_route
length-facet_route route = length-append {0} (canonical_route route.resource) _

-- `FacetRoute::validate` accepts a valid route followed by a facet id, within 1024 bytes.
pub validate_facet_route_iff :
    (route : FacetRoute) → (validate_facet_route route ≡ ok tt) ↔ IsFacetRoute route
unfolding validate_facet_route
validate_facet_route_iff route = (
  λ h. ground (arith, validate_hops_sound route.resource.hops, length-facet_route route),
  λ v.
      ground (arith, v.owner, validate_hops_complete route.resource.hops, length-facet_route route),
)

pub hops_text-append :
    (hops more : List ResourceHop) → hops_text (hops ++ more) ≡ hops_text hops ++ hops_text more
unfolding hops_text
hops_text-append [] more = refl
hops_text-append (hop ∷ hops) more =
    ap (λ (s : Text). hop_text hop ++ s) (hops_text-append hops more)
    ∙ sym (append_assoc (hop_text hop) (hops_text hops) (hops_text more))

All-IsHop_prefix : (hops more : List ResourceHop) → All IsHop (hops ++ more) → All IsHop hops
All-IsHop_prefix [] more h = tt
All-IsHop_prefix (hop ∷ hops) more (p, h) = (p, All-IsHop_prefix hops more h)

All-IsHop_suffix : (hops more : List ResourceHop) → All IsHop (hops ++ more) → All IsHop more
All-IsHop_suffix [] more h = h
All-IsHop_suffix (hop ∷ hops) more (p, h) = All-IsHop_suffix hops more h

-- The owner of a valid route is valid.
pub IsRoute-prefix : (hops more : List ResourceHop) → IsRoute (hops ++ more) → IsRoute hops
IsRoute-prefix hops more v =
    let count = length-append hops more in
    let size =
      ap length (hops_text-append hops more) ∙ length-append (hops_text hops) (hops_text more) in
    record {
      few = omega (arith, v.few, count);
      named = All-IsHop_prefix hops more v.named;
      short = omega (arith, v.short, size);
    }

pub IsHop-of_IsRoute :
    (hops : List ResourceHop) (hop : ResourceHop) (more : List ResourceHop)
    → IsRoute (hops ++ hop ∷ more)
    → IsHop hop
IsHop-of_IsRoute hops hop more v = (All-IsHop_suffix hops (hop ∷ more) v.named).0

pub IsRoute-root : IsRoute []
unfolding hops_text
IsRoute-root = ground arith

pub child_of_IsRoute :
    (route : ResourceRoute) (hop : ResourceHop)
    → IsRoute (route.hops ++ hop ∷ [])
    → child route hop.facet hop.selector ≡ ok (record { hops = route.hops ++ hop ∷ [] })
unfolding child
child_of_IsRoute route hop v =
    let named = IsHop-of_IsRoute route.hops hop [] v in
    ground (
      arith,
      named.0,
      named.1,
      v.few,
      v.short,
      validate_hops_complete (route.hops ++ hop ∷ []) v.named,
    )

-- A successful `child` adds the one hop, and its result is valid.
pub child-eq-ok :
    (route : ResourceRoute) (facet selector : Text) {longer : ResourceRoute}
    → child route facet selector ≡ ok longer
    → (longer ≡ record { hops = route.hops ++ record { facet = facet; selector = selector } ∷ [] })
      × IsRoute longer.hops
unfolding child
child-eq-ok route facet selector h =
    let hops : List ResourceHop =
      route.hops ++ record { facet = facet; selector = selector } ∷ [] in
    ground (arith, validate_hops_sound hops)

pub new_facet_route_of_IsFacetRoute :
    (route : FacetRoute)
    → IsFacetRoute route
    → new_facet_route route.resource route.facet ≡ ok route
unfolding new_facet_route
new_facet_route_of_IsFacetRoute route v =
    ground (arith, v.owner, validate_hops_complete route.resource.hops, length-facet_route route)

pub new_facet_route-eq-ok :
    (resource : ResourceRoute) (facet : Text) {route : FacetRoute}
    → new_facet_route resource facet ≡ ok route
    → (route ≡ record { resource = resource; facet = facet }) × IsFacetRoute route
unfolding new_facet_route
new_facet_route-eq-ok resource facet h =
    let route : FacetRoute = record { resource = resource; facet = facet } in
    ground (arith, validate_hops_sound resource.hops, length-facet_route route)
