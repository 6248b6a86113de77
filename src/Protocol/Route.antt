-- ===== src/Protocol/Route.antt =====
-- Resource routes and facet routes: `$/facet::selector/…` with an optional last facet
-- (_lib/proj/_protocol/src/resource_route.rs).
pub mod Valid
pub mod Segments
pub mod Printing
pub mod Reading
use swaw_kit.Prelude.{
  ℕ, ◌+◌, Bool, ◌&&◌, none, some, List, [], ◌∷◌, ◌++◌, ltb, ◌==◌, length, is_empty, if◌then◌else◌,
  Text, ascii, text_eq, strip_prefix, split_byte, onto_first, ok, err, ◌>>=◌, ◌>>◌, reject_if,
  require, or_err,
}
use swaw_kit.Protocol.Error.{
  ProtocolResult, facet_id_not_portable, selector_not_portable, too_many_hops,
  resource_route_too_long, facet_route_too_long, ends_at_facet, ends_at_resource, invalid_route,
  route_is_too_long, must_begin_at_the_root, empty_facet, too_many_segments, more_than_one_selector,
  invalid_facet_id, invalid_selector, unselected_facet,
}
use swaw_kit.Protocol.Name.{valid_facet_id, valid_resource_selector}

abbrev pub max_resource_route_bytes : ℕ
max_resource_route_bytes = 1024

abbrev pub max_resource_route_hops : ℕ
max_resource_route_hops = 32

pub record ResourceHop : Type 0 where
  pub facet : Text
  pub selector : Text

pub record ResourceRoute : Type 0 where
  pub hops : List ResourceHop

pub record FacetRoute : Type 0 where
  pub resource : ResourceRoute
  pub facet : Text

pub data RouteTarget : Type 0 where
  resource_target : ResourceRoute → RouteTarget
  facet_target : FacetRoute → RouteTarget

unfoldable pub validate_facet_id : Text → ProtocolResult (Unit {0})
validate_facet_id value = require (valid_facet_id value) facet_id_not_portable

unfoldable pub validate_resource_selector : Text → ProtocolResult (Unit {0})
validate_resource_selector value = require (valid_resource_selector value) selector_not_portable

-- `ResourceHop::validate` and `ResourceHop::new`.
unfoldable pub validate_hop : ResourceHop → ProtocolResult (Unit {0})
unfolding validate_facet_id validate_resource_selector
validate_hop hop = do validate_facet_id hop.facet; validate_resource_selector hop.selector

unfoldable pub new_hop : Text → Text → ProtocolResult ResourceHop
unfolding validate_hop
new_hop facet selector =
    let hop : ResourceHop = record { facet = facet; selector = selector } in
    do validate_hop hop; ok hop

-- What one hop adds to a canonical route: `/facet::selector`.
unfoldable pub hop_text : ResourceHop → Text
hop_text hop = b'/' ∷ (hop.facet ++ (b':' ∷ b':' ∷ hop.selector))

-- The loop of `ResourceRoute::canonical_route`.
unfoldable pub hops_text : List ResourceHop → Text
unfolding hop_text
hops_text [] = []
hops_text (hop ∷ hops) = hop_text hop ++ hops_text hops

unfoldable pub canonical_route : ResourceRoute → Text
unfolding hops_text
canonical_route route = b'$' ∷ hops_text route.hops

unfoldable pub validate_hops : List ResourceHop → ProtocolResult (Unit {0})
unfolding validate_hop
validate_hops [] = ok tt
validate_hops (hop ∷ hops) = do validate_hop hop; validate_hops hops

-- `ResourceRoute::validate`.
unfoldable pub validate_route : ResourceRoute → ProtocolResult (Unit {0})
unfolding validate_hops canonical_route
validate_route route = do
  reject_if (ltb max_resource_route_hops (length route.hops)) too_many_hops
  validate_hops route.hops
  reject_if (ltb max_resource_route_bytes (length (canonical_route route))) resource_route_too_long

abbrev pub root : ResourceRoute
root = record { hops = [] }

unfoldable pub new_route : List ResourceHop → ProtocolResult ResourceRoute
unfolding validate_route
new_route hops =
    let route : ResourceRoute = record { hops = hops } in do validate_route route; ok route

unfoldable pub child : ResourceRoute → Text → Text → ProtocolResult ResourceRoute
unfolding new_hop new_route
child route facet selector = do hop ← new_hop facet selector; new_route (route.hops ++ hop ∷ [])

unfoldable pub canonical_facet_route : FacetRoute → Text
unfolding canonical_route
canonical_facet_route route = canonical_route route.resource ++ (b'/' ∷ route.facet)

-- `FacetRoute::validate` and `FacetRoute::new`.
unfoldable pub validate_facet_route : FacetRoute → ProtocolResult (Unit {0})
unfolding validate_route validate_facet_id canonical_facet_route
validate_facet_route route = do
  validate_route route.resource
  validate_facet_id route.facet
  reject_if (ltb max_resource_route_bytes (length (canonical_facet_route route)))
      facet_route_too_long

unfoldable pub new_facet_route : ResourceRoute → Text → ProtocolResult FacetRoute
unfolding validate_facet_route
new_facet_route resource facet =
    let route : FacetRoute = record { resource = resource; facet = facet } in
    do validate_facet_route route; ok route

-- `RouteTarget::canonical_route`.
unfoldable pub canonical_target : RouteTarget → Text
unfolding canonical_route canonical_facet_route
canonical_target (resource_target route) = canonical_route route
canonical_target (facet_target route) = canonical_facet_route route

-- `segment.split("::")`: the separators found from the left, none overlapping.
unfoldable pub split_colons : Text → List Text
split_colons [] = [] ∷ []
split_colons (c ∷ []) = (c ∷ []) ∷ []
split_colons (c ∷ d ∷ s) =
    let after = split_colons s in
    let more = split_colons (d ∷ s) in
    if c == b':' && d == b':' then [] ∷ after else onto_first c more

-- The round of the loop of `parse_route` for one segment that is already split; `rest` are the
-- segments behind it, and `next` goes on with the loop.
unfoldable pub parse_segment :
    Text
    → ResourceRoute
    → List Text
    → Bool
    → (ResourceRoute → ProtocolResult RouteTarget)
    → ProtocolResult RouteTarget
parse_segment route resource [] last next = err (invalid_route route invalid_facet_id)
parse_segment route resource (facet ∷ []) last next = do
  or_err (validate_facet_id facet) (invalid_route route invalid_facet_id)
  if last
      then (do target ← new_facet_route resource facet; ok (facet_target target))
      else err (invalid_route route unselected_facet)
parse_segment route resource (facet ∷ selector ∷ []) last next = do
  or_err (validate_facet_id facet) (invalid_route route invalid_facet_id)
  or_err (validate_resource_selector selector) (invalid_route route invalid_selector)
  longer ← child resource facet selector
  next longer
parse_segment route resource (_ ∷ _ ∷ _ ∷ _) last next =
    err (invalid_route route more_than_one_selector)

-- The loop of `parse_route`.
unfoldable pub parse_segments : Text → ResourceRoute → List Text → ProtocolResult RouteTarget
parse_segments route resource [] = ok (resource_target resource)
parse_segments route resource (segment ∷ rest) =
    parse_segment route resource (split_colons segment) (is_empty rest)
      (λ longer. parse_segments route longer rest)

-- `parse_route` behind the prefix `$/`.
unfoldable pub parse_suffix : Text → Text → ProtocolResult RouteTarget
parse_suffix route suffix = do
  reject_if (is_empty suffix) (invalid_route route empty_facet)
  let segments = split_byte b'/' suffix
  reject_if (ltb (max_resource_route_hops + 1) (length segments))
      (invalid_route route too_many_segments)
  parse_segments route root segments

unfoldable pub parse_route : Text → ProtocolResult RouteTarget
parse_route route = do
  reject_if (ltb max_resource_route_bytes (length route)) (invalid_route route route_is_too_long)
  if text_eq route (ascii "$")
      then ok (resource_target root)
      else elim (strip_prefix (ascii "$/") route) [
        | none ↦ err (invalid_route route must_begin_at_the_root)
        | some suffix ↦ parse_suffix route suffix
      ]

-- `ResourceRoute::parse` and `FacetRoute::parse`.
unfoldable pub parse_resource_route : Text → ProtocolResult ResourceRoute
parse_resource_route route = parse_route route >>= λ target. elim target [
  | resource_target found ↦ ok found
  | facet_target _ ↦ err (ends_at_facet route)
]

unfoldable pub parse_facet_route : Text → ProtocolResult FacetRoute
parse_facet_route route = parse_route route >>= λ target. elim target [
  | facet_target found ↦ ok found
  | resource_target _ ↦ err (ends_at_resource route)
]
