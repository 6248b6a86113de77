-- ===== src/Protocol/Route/Printing.antt =====
-- Printing and parsing: the printed form of a valid route parses to that route.
use mathlib.Core.List.{append_assoc, append-nil}
use swaw_kit.Prelude.{
  ◌≤◌, ◌≡◌, refl, sym, ap, subst, ◌∙◌, ◌≢◌, inl, Bool, List, [], ◌∷◌, ◌++◌, map, arith, length,
  length-append, length-map, All-append, Text, text_eq, strip_prefix, Avoids, All, ok, le→ltb,
}
use swaw_kit.Protocol.Name.Bytes.{facet_id-Avoids}
use swaw_kit.Protocol.Error.{ProtocolResult}
use swaw_kit.Protocol.Route.{
  ResourceHop, ResourceRoute, RouteTarget, resource_target, facet_target, root, canonical_route,
  canonical_target, validate_facet_id, validate_resource_selector, parse_segment, parse_segments,
  parse_suffix, parse_route,
}
use swaw_kit.Protocol.Route.Valid
use swaw_kit.Protocol.Route.Valid.{
  IsHop, IsRoute, IsFacetRoute, IsTarget, at_hops, IsRoute-prefix, IsHop-of_IsRoute,
  child_of_IsRoute, child-eq-ok, new_facet_route_of_IsFacetRoute, new_facet_route-eq-ok,
  validate_route_iff, validate_facet_route_iff, IsRoute-root, hops_text-append,
}
use swaw_kit.Protocol.Route.Segments.{
  slashed, segment_text, target_segments, canonical_target-eq-slashed, split_byte-slashed,
  split_colons-segment_text, split_colons-facet, segments-Avoid, segments-ne-nil, facet_id-ne-nil,
}

module _ (route : Text) where
  parse_segment-hop :
      (hops : List ResourceHop) (hop : ResourceHop) (last : Bool)
      (next : ResourceRoute → ProtocolResult RouteTarget)
      → IsRoute (hops ++ hop ∷ [])
      → parse_segment route (at_hops hops) (hop.facet ∷ hop.selector ∷ []) last next
        ≡ next (at_hops (hops ++ hop ∷ []))
  unfolding parse_segment validate_facet_id validate_resource_selector
  parse_segment-hop hops hop last next v =
      let (f, s) = IsHop-of_IsRoute hops hop [] v in
      rw (f, s, child_of_IsRoute (at_hops hops) hop v)

  -- Printed hops lead the loop to the route that they extend.
  parse_segments-hops :
      (hops more : List ResourceHop) (rest : List Text)
      → IsRoute (hops ++ more)
      → parse_segments route (at_hops hops) (map segment_text more ++ rest)
        ≡ parse_segments route (at_hops (hops ++ more)) rest
  unfolding parse_segments
  parse_segments-hops hops [] rest v = rw append-nil
  parse_segments-hops hops (hop ∷ more) rest v =
      let w : IsRoute ((hops ++ hop ∷ []) ++ more) = rw (append_assoc hops (hop ∷ []) more) v in
      rw (split_colons-segment_text hop (IsHop-of_IsRoute hops hop more v)) (
        parse_segment-hop hops hop _ _ (IsRoute-prefix (hops ++ hop ∷ []) more w)
        ∙ parse_segments-hops (hops ++ hop ∷ []) more rest w
        ∙ ap (λ (h : List ResourceHop). parse_segments route (at_hops h) rest)
            (append_assoc hops (hop ∷ []) more))

  parse_segments-target :
      (target : RouteTarget)
      → IsTarget target
      → parse_segments route root (target_segments target) ≡ ok target
  unfolding target_segments
  parse_segments-target (resource_target r) v =
      let valid = (validate_route_iff r).0 v in
      ap (parse_segments route root) (sym (append-nil _))
      ∙ parse_segments-hops [] r.hops [] valid
      ∙ unfold parse_segments in refl
  parse_segments-target (facet_target r) v =
      let valid = (validate_facet_route_iff r).0 v in
      parse_segments-hops [] r.resource.hops (r.facet ∷ []) valid.owner
      ∙ unfold parse_segments parse_segment validate_facet_id in
        rw (split_colons-facet r.facet valid.id, valid.id, new_facet_route_of_IsFacetRoute r valid)

  -- The segments of a valid target avoid the slash, and are at most 33.
  target_segments-facts :
      (target : RouteTarget)
      → IsTarget target
      → All (Avoids b'/') (target_segments target) × (length (target_segments target) ≤ 33)
  unfolding target_segments
  target_segments-facts (resource_target r) v =
      let valid = (validate_route_iff r).0 v in
      (
        segments-Avoid r.hops valid.named,
        omega (arith, length-map {0, 0} r.hops segment_text, valid.few),
      )
  target_segments-facts (facet_target r) v =
      let valid = (validate_facet_route_iff r).0 v in
      (
        All-append (Avoids b'/') (map segment_text r.resource.hops) (r.facet ∷ [])
            (segments-Avoid r.resource.hops valid.owner.named)
            (facet_id-Avoids (omega arith) (omega arith) (inl (omega arith)) r.facet valid.id, tt),
        omega (
          arith,
          length-map {0, 0} r.resource.hops segment_text,
          length-append {0} (map segment_text r.resource.hops) (r.facet ∷ []),
          valid.owner.few,
        ),
      )

length-canonical_target :
    (target : RouteTarget) → IsTarget target → length (canonical_target target) ≤ 1024
unfolding canonical_target
length-canonical_target (resource_target r) v =
    unfold canonical_route in ((validate_route_iff r).0 v).short
length-canonical_target (facet_target r) v =
    omega (arith, ((validate_facet_route_iff r).0 v).short, Valid.length-facet_route r)

-- No segment of a valid target is empty.
target_segments-ne-nil :
    (target : RouteTarget) → IsTarget target → All (λ s. s ≢ []) (target_segments target)
unfolding target_segments
target_segments-ne-nil (resource_target r) v = segments-ne-nil r.hops
target_segments-ne-nil (facet_target r) v =
    All-append (λ s. s ≢ []) (map segment_text r.resource.hops) (r.facet ∷ [])
      (segments-ne-nil r.resource.hops)
      (facet_id-ne-nil r.facet ((validate_facet_route_iff r).0 v).id, tt)

parse_suffix-target :
    (route : Text) (target : RouteTarget) (s : Text) (ss : List Text)
    → IsTarget target
    → target_segments target ≡ s ∷ ss
    → parse_suffix route (s ++ slashed ss) ≡ ok target
unfolding parse_suffix
parse_suffix-target route target [] ss v e =
    absurd ((subst (All (λ s. s ≢ [])) e (target_segments-ne-nil target v)).0 refl)
parse_suffix-target route target (c ∷ s) ss v e =
    let (avoid, few) = target_segments-facts route target v in
    let avoid' = subst (All (Avoids b'/')) e avoid in
    let few' = subst (λ (ts : List Text). length ts ≤ 33) e few in
    rw
      (split_byte-slashed (c ∷ s) ss avoid'.0 avoid'.1, le→ltb 33 (length ((c ∷ s) ∷ ss)) few', ← e)
      (parse_segments-target route target v)

-- The text of a valid target by its segments: the root alone, or `$/` and a suffix.
parse_route_by_segments :
    (target : RouteTarget) (ss : List Text)
    → IsTarget target
    → target_segments target ≡ ss
    → length (b'$' ∷ slashed ss) ≤ 1024
    → parse_route (b'$' ∷ slashed ss) ≡ ok target
unfolding parse_route slashed text_eq strip_prefix parse_segments
parse_route_by_segments target [] v e short =
    subst (λ (ts : List Text). parse_segments [] root ts ≡ ok target) e
      (parse_segments-target [] target v)
parse_route_by_segments target (s ∷ ss) v e short =
    rw (le→ltb 1024 (length (b'$' ∷ slashed (s ∷ ss))) short)
      (parse_suffix-target (b'$' ∷ slashed (s ∷ ss)) target s ss v e)

-- A valid target prints to a text that parses to it again.
pub parse_route-canonical_target :
    (target : RouteTarget) → IsTarget target → parse_route (canonical_target target) ≡ ok target
parse_route-canonical_target target v =
    let printed = canonical_target-eq-slashed target in
    ap parse_route printed
    ∙ parse_route_by_segments target (target_segments target) v refl
        (subst (λ (t : Text). length t ≤ 1024) printed (length-canonical_target target v))
