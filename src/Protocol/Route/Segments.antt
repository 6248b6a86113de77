-- ===== src/Protocol/Route/Segments.antt =====
-- The segments of a route: what `split` at `/` and at `::` gives back of a printed route.
use mathlib.Core.List.{append_assoc, append-nil}
use swaw_kit.Prelude.{
  ℕ, ◌≡◌, refl, sym, ap, ap₂, ◌∙◌, ◌≢◌, inl, inr, true, List, [], ◌∷◌, ◌++◌, map, arith, Text,
  Avoids, onto_first, split_byte, split_byte-append, split_byte_of_Avoids, split_byte-ne-nil,
  join_byte, join_byte-split_byte, Avoids-append, All,
}
use swaw_kit.Protocol.Name.{valid_facet_id}
use swaw_kit.Protocol.Name.Bytes.{facet_id-Avoids, selector-Avoids}
use swaw_kit.Protocol.Route.{
  ResourceHop, RouteTarget, resource_target, facet_target, hop_text, hops_text, canonical_target,
  split_colons,
}
use swaw_kit.Protocol.Route.Valid.{IsHop}

-- A slash before each segment.
unfoldable pub slashed : List Text → Text
slashed [] = []
slashed (s ∷ ss) = b'/' ∷ (s ++ slashed ss)

unfoldable pub segment_text : ResourceHop → Text
segment_text hop = hop.facet ++ (b':' ∷ b':' ∷ hop.selector)

-- The segments of a target, behind `$`.
unfoldable pub target_segments : RouteTarget → List Text
target_segments (resource_target route) = map segment_text route.hops
target_segments (facet_target route) = map segment_text route.resource.hops ++ route.facet ∷ []

slashed-map : (hops : List ResourceHop) → slashed (map segment_text hops) ≡ hops_text hops
unfolding slashed segment_text hops_text
slashed-map [] = refl
slashed-map (hop ∷ hops) = ap (λ (t : Text). hop_text hop ++ t) (slashed-map hops)

slashed-append : (ss ts : List Text) → slashed (ss ++ ts) ≡ slashed ss ++ slashed ts
unfolding slashed
slashed-append [] ts = refl
slashed-append (s ∷ ss) ts =
    ap (λ (t : Text). b'/' ∷ (s ++ t)) (slashed-append ss ts)
    ∙ ap (λ (t : Text). b'/' ∷ t) (sym (append_assoc s (slashed ss) (slashed ts)))

slashed-one : (s : Text) → b'/' ∷ s ≡ slashed (s ∷ [])
unfolding slashed
slashed-one s = rw append-nil

-- The printed target is its segments.
pub canonical_target-eq-slashed :
    (target : RouteTarget) → canonical_target target ≡ b'$' ∷ slashed (target_segments target)
unfolding canonical_target target_segments
canonical_target-eq-slashed (resource_target route) =
    ap (λ (t : Text). b'$' ∷ t) (sym (slashed-map route.hops))
canonical_target-eq-slashed (facet_target route) =
    let hops = route.resource.hops in
    ap (λ (t : Text). b'$' ∷ t)
      (ap₂ (λ (t u : Text). t ++ u) (sym (slashed-map hops)) (slashed-one route.facet)
        ∙ sym (slashed-append (map segment_text hops) (route.facet ∷ [])))

-- Splitting the text behind the first slash gives the segments back.
pub split_byte-slashed :
    (s : Text) (ss : List Text)
    → Avoids b'/' s
    → All (Avoids b'/') ss
    → split_byte b'/' (s ++ slashed ss) ≡ s ∷ ss
unfolding slashed
split_byte-slashed s [] h hs = rw append-nil (split_byte_of_Avoids b'/' s h)
split_byte-slashed s (t ∷ ts) h (k, ks) =
    rw (split_byte-append b'/' s (t ++ slashed ts) h)
      (ap (λ (r : List Text). s ∷ r) (split_byte-slashed t ts k ks))

slashed-eq-join_byte : (ss : List Text) → ss ≢ [] → slashed ss ≡ b'/' ∷ join_byte b'/' ss
unfolding slashed join_byte
slashed-eq-join_byte [] h = absurd (h refl)
slashed-eq-join_byte (s ∷ []) h = rw append-nil
slashed-eq-join_byte (s ∷ t ∷ ts) h =
    ap (λ (r : Text). b'/' ∷ (s ++ r)) (slashed-eq-join_byte (t ∷ ts) (λ e. cc))

-- Any text is what its segments print.
pub slashed-split_byte : (s : Text) → slashed (split_byte b'/' s) ≡ b'/' ∷ s
slashed-split_byte s =
    slashed-eq-join_byte (split_byte b'/' s) (split_byte-ne-nil b'/' s)
    ∙ ap (λ (r : Text). b'/' ∷ r) (join_byte-split_byte b'/' s)

-- One hop's segment splits into its two names, and a facet id stays whole.
split_colons_of_Avoids : (s : Text) → Avoids b':' s → split_colons s ≡ s ∷ []
unfolding split_colons
split_colons_of_Avoids [] h = refl
split_colons_of_Avoids (c ∷ []) h = refl
split_colons_of_Avoids (c ∷ d ∷ s) h = ground (arith, split_colons_of_Avoids (d ∷ s))

split_colons-append :
    (s t : Text) → Avoids b':' s → split_colons (s ++ (b':' ∷ b':' ∷ t)) ≡ s ∷ split_colons t
unfolding split_colons
split_colons-append [] t h = refl
split_colons-append (c ∷ []) t h = ground arith
split_colons-append (c ∷ d ∷ s) t h = ground (arith, split_colons-append (d ∷ s) t)

module _ (hop : ResourceHop) (v : IsHop hop) where
  pub split_colons-segment_text : split_colons (segment_text hop) ≡ hop.facet ∷ hop.selector ∷ []
  unfolding segment_text
  split_colons-segment_text =
      split_colons-append hop.facet hop.selector
        (facet_id-Avoids (omega arith) (omega arith) (inr (omega arith)) hop.facet v.0)
      ∙ ap (λ (r : List Text). hop.facet ∷ r)
          (split_colons_of_Avoids hop.selector
            (selector-Avoids (omega arith) (omega arith) (inr (omega arith)) hop.selector v.1))

  pub segment_text-Avoids : Avoids b'/' (segment_text hop)
  unfolding segment_text
  segment_text-Avoids =
      Avoids-append b'/' hop.facet _
        (facet_id-Avoids (omega arith) (omega arith) (inl (omega arith)) hop.facet v.0)
        (
          omega arith,
          (
            omega arith,
            selector-Avoids (omega arith) (omega arith) (inl (omega arith)) hop.selector v.1,
          ),
        )

pub split_colons-facet : (s : Text) → valid_facet_id s ≡ true → split_colons s ≡ s ∷ []
split_colons-facet s v =
    split_colons_of_Avoids s (facet_id-Avoids (omega arith) (omega arith) (inr (omega arith)) s v)

pub segments-Avoid :
    (hops : List ResourceHop) → All IsHop hops → All (Avoids b'/') (map segment_text hops)
segments-Avoid [] h = tt
segments-Avoid (hop ∷ hops) (v, h) = (segment_text-Avoids hop v, segments-Avoid hops h)

-- `join` undoes the split at `::`.
abbrev pub join_colons : List Text → Text
join_colons [] = []
join_colons (s ∷ []) = s
join_colons (s ∷ t ∷ ts) = s ++ (b':' ∷ b':' ∷ join_colons (t ∷ ts))

join_colons-onto_first :
    (c : ℕ) (ss : List Text) → join_colons (onto_first c ss) ≡ c ∷ join_colons ss
join_colons-onto_first c [] = refl
join_colons-onto_first c (s ∷ []) = refl
join_colons-onto_first c (s ∷ t ∷ ts) = refl

join_colons-nil : (ss : List Text) → ss ≢ [] → join_colons ([] ∷ ss) ≡ b':' ∷ b':' ∷ join_colons ss
join_colons-nil [] h = absurd (h refl)
join_colons-nil (s ∷ ss) h = refl

split_colons-ne-nil : (s : Text) → split_colons s ≢ []
unfolding split_colons
split_colons-ne-nil [] = ground arith
split_colons-ne-nil (c ∷ []) = ground arith
split_colons-ne-nil (c ∷ d ∷ s) = ground (arith, split_colons-ne-nil (d ∷ s))

pub join_colons-split_colons : (s : Text) → join_colons (split_colons s) ≡ s
unfolding split_colons
join_colons-split_colons [] = refl
join_colons-split_colons (c ∷ []) = refl
join_colons-split_colons (c ∷ d ∷ s) = ground (
  arith,
  join_colons-split_colons s,
  join_colons-split_colons (d ∷ s),
  join_colons-nil (split_colons s) (split_colons-ne-nil s),
  join_colons-onto_first c (split_colons (d ∷ s)),
)

pub facet_id-ne-nil : (s : Text) → valid_facet_id s ≡ true → s ≢ []
unfolding valid_facet_id
facet_id-ne-nil [] v e = ground arith
facet_id-ne-nil (c ∷ s) v e = cc

append_cons-ne-nil : (s t : Text) (c : ℕ) → s ++ (c ∷ t) ≢ []
append_cons-ne-nil [] t c e = cc
append_cons-ne-nil (d ∷ s) t c e = cc

pub segments-ne-nil : (hops : List ResourceHop) → All (λ s. s ≢ []) (map segment_text hops)
unfolding segment_text
segments-ne-nil [] = tt
segments-ne-nil (hop ∷ hops) = (append_cons-ne-nil hop.facet _ _, segments-ne-nil hops)
