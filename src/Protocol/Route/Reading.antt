-- ===== src/Protocol/Route/Reading.antt =====
-- Parsing and printing: what `parse_route` accepts is the printed form of its result.
use mathlib.Core.List.{append_assoc, append-nil}
use swaw_kit.Prelude.{
  ◌≡◌, sym, ap, subst, ◌∙◌, inl, inr, Bool, true, false, List, [], ◌∷◌, ◌++◌, arith, is_empty, Text,
  ascii, text_eq, text_eq_iff, strip_prefix, append_of_strip_prefix, split_byte, ok, Result-cases,
  Option-cases, Bool-cases,
}
use swaw_kit.Protocol.Error.{ProtocolResult}
use swaw_kit.Protocol.Route.{
  ResourceHop, ResourceRoute, RouteTarget, resource_target, facet_target, hop_text, hops_text, root,
  canonical_route, canonical_facet_route, canonical_target, split_colons, validate_facet_id,
  validate_resource_selector, parse_segment, parse_segments, parse_suffix, parse_route, child,
  new_facet_route,
}
use swaw_kit.Protocol.Route.Valid.{
  IsRoute, IsFacetRoute, IsTarget, at_hops, child-eq-ok, new_facet_route-eq-ok, validate_route_iff,
  validate_facet_route_iff, IsRoute-root, hops_text-append,
}
use swaw_kit.Protocol.Route.Segments.{
  slashed, slashed-split_byte, join_colons, join_colons-split_colons,
}

module _ (route : Text) where
  abbrev Reads : List ResourceHop → List Text → RouteTarget → Type 0
  Reads hops ss target =
      (canonical_target target ≡ canonical_route (at_hops hops) ++ slashed ss) × IsTarget target

  facet_segment-eq-ok :
      (hops : List ResourceHop) (facet : Text) (last : Bool)
      (next : ResourceRoute → ProtocolResult RouteTarget) (target : RouteTarget)
      → parse_segment route (at_hops hops) (facet ∷ []) last next ≡ ok target
      → (last ≡ true)
        × (target ≡ facet_target (record { resource = at_hops hops; facet = facet }))
        × IsFacetRoute (record { resource = at_hops hops; facet = facet })
  unfolding parse_segment validate_facet_id
  facet_segment-eq-ok hops facet last next target h =
      elim (Result-cases (new_facet_route (at_hops hops) facet)) [
        | inl (fr, e) ↦
            let (same, v) = new_facet_route-eq-ok (at_hops hops) facet e in
            (ground arith, ground arith, subst IsFacetRoute same v)
        | inr (x, e) ↦ absurd (ground arith)
      ]

  hop_segment-eq-ok :
      (hops : List ResourceHop) (facet selector : Text) (last : Bool)
      (next : ResourceRoute → ProtocolResult RouteTarget) (target : RouteTarget)
      → parse_segment route (at_hops hops) (facet ∷ selector ∷ []) last next ≡ ok target
      → let longer = hops ++ record { facet = facet; selector = selector } ∷ [] in
        IsRoute longer × (next (at_hops longer) ≡ ok target)
  unfolding parse_segment validate_facet_id validate_resource_selector
  hop_segment-eq-ok hops facet selector last next target h =
      elim (Result-cases (child (at_hops hops) facet selector)) [
        | inl (longer, e) ↦
            let (same, v) = child-eq-ok (at_hops hops) facet selector e in
            (
              subst (λ (r : ResourceRoute). IsRoute r.hops) same v,
              subst (λ (r : ResourceRoute). next r ≡ ok target) same (ground arith),
            )
        | inr (x, e) ↦ absurd (ground arith)
      ]

  canonical_route-snoc :
      (hops : List ResourceHop) (hop : ResourceHop) (t : Text)
      → canonical_route (at_hops (hops ++ hop ∷ [])) ++ t
        ≡ canonical_route (at_hops hops) ++ (hop_text hop ++ t)
  unfolding canonical_route hops_text
  canonical_route-snoc hops hop t =
      ap (λ (r : Text). b'$' ∷ r) (simp (hops_text-append, append_assoc, append-nil))

  -- One segment, by the parts that it splits into.
  segment-Reads :
      (hops : List ResourceHop) (s : Text) (ss : List Text) (target : RouteTarget)
      (parts : List Text)
      → join_colons parts ≡ s
      → parse_segment route (at_hops hops) parts (is_empty ss) (λ l. parse_segments route l ss)
        ≡ ok target
      → ((longer : List ResourceHop)
          → IsRoute longer
          → parse_segments route (at_hops longer) ss ≡ ok target
          → Reads longer ss target)
      → Reads hops (s ∷ ss) target
  segment-Reads hops s ss target [] j h ih = unfold parse_segment in cc
  segment-Reads hops s [] target (facet ∷ []) j h ih =
      let (_, same, v) =
        facet_segment-eq-ok hops facet true (λ l. parse_segments route l []) target h in
      rw same (
        unfold canonical_target canonical_facet_route slashed in rw (append-nil, j),
        (validate_facet_route_iff _).1 v,
      )
  segment-Reads hops s (t ∷ ts) target (facet ∷ []) j h ih =
      let (last, _, _) =
        facet_segment-eq-ok hops facet false (λ l. parse_segments route l (t ∷ ts)) target h in
      absurd (ground arith)
  segment-Reads hops s ss target (facet ∷ selector ∷ []) j h ih =
      let (v, later) =
        hop_segment-eq-ok hops facet selector (is_empty ss) (λ l. parse_segments route l ss) target
          h in
      let (printed, valid) = ih _ v later in
      (
        printed
            ∙ canonical_route-snoc hops (record { facet = facet; selector = selector }) (slashed ss)
            ∙ unfold hop_text slashed in rw j,
        valid,
      )
  segment-Reads hops s ss target (_ ∷ _ ∷ _ ∷ _) j h ih = unfold parse_segment in cc

  parse_segments-Reads :
      (hops : List ResourceHop) (ss : List Text) (target : RouteTarget)
      → IsRoute hops
      → parse_segments route (at_hops hops) ss ≡ ok target
      → Reads hops ss target
  unfolding parse_segments
  parse_segments-Reads hops [] target v h =
      let same : resource_target (at_hops hops) ≡ target = ground arith in
      rw (← same) (
        unfold canonical_target slashed in sym (append-nil _),
        (validate_route_iff (at_hops hops)).1 v,
      )
  parse_segments-Reads hops (s ∷ ss) target v h =
      segment-Reads hops s ss target (split_colons s) (join_colons-split_colons s) h
        (λ longer. parse_segments-Reads longer ss target)

  parse_suffix-eq-ok :
      (suffix : Text) (target : RouteTarget)
      → parse_suffix route suffix ≡ ok target
      → (canonical_target target ≡ b'$' ∷ b'/' ∷ suffix) × IsTarget target
  unfolding parse_suffix
  parse_suffix-eq-ok suffix target h =
      let parsed : parse_segments route root (split_byte b'/' suffix) ≡ ok target = ground arith in
      let (printed, v) =
        parse_segments-Reads [] (split_byte b'/' suffix) target IsRoute-root parsed in
      (printed ∙ unfold canonical_route hops_text in rw (slashed-split_byte suffix), v)

-- What parses prints back to the very text that was parsed, and validates.
pub canonical_target-parse_route :
    (route : Text) (target : RouteTarget)
    → parse_route route ≡ ok target
    → (canonical_target target ≡ route) × IsTarget target
unfolding parse_route
canonical_target-parse_route route target h = elim (Bool-cases (text_eq route (ascii "$"))) [
  | inl whole ↦
      let same : resource_target root ≡ target = ground arith in
      rw (← same) (
        unfold canonical_target canonical_route hops_text in
            sym ((text_eq_iff route (ascii "$")).0 whole),
        (validate_route_iff root).1 IsRoute-root,
      )
  | inr longer ↦ elim (Option-cases (strip_prefix (ascii "$/") route)) [
    | inl missing ↦ absurd (ground arith)
    | inr (suffix, found) ↦
        let (printed, v) = parse_suffix-eq-ok route suffix target (ground arith) in
        (printed ∙ sym (append_of_strip_prefix (ascii "$/") route suffix found), v)
  ]
]
