-- ===== src/Protocol/Identity/Routes.antt =====
-- The resource route of a command: which it is, and exactly when there is one.
use mathlib.Core.List.{append_assoc, append-nil}
use swaw_kit.Prelude.{
  suc, ◌+◌, ◌*◌, ◌≤◌, ◌≡◌, refl, sym, ap, subst, ◌∙◌, ◌↔◌, true, List, [], ◌∷◌, ◌++◌, map, arith,
  length, length-append, all, All, Text, ascii, ok, Option, none, some, and_parts, ◌>>=◌, >>=-eq-ok,
  join_byte,
}
use swaw_kit.Protocol.Name.{valid_command_segment, valid_module_namespace, valid_facet_id}
use swaw_kit.Protocol.Name.Inclusions.{name_inclusions}
use swaw_kit.Protocol.Route.{ResourceHop, ResourceRoute, child, hop_text, hops_text}
use swaw_kit.Protocol.Route.Valid.{
  IsHop, IsRoute, at_hops, IsRoute-prefix, child_of_IsRoute, child-eq-ok,
}
use swaw_kit.Protocol.Identity.{
  CommandSpace, system_space, module_space, CommandIdentity, address, checked_namespace,
  command_resource_route, route_in, subcommand_route, namespace_text,
}
use swaw_kit.Protocol.Identity.Address.{IsIdentity}

abbrev hop_to : Text → Text → ResourceHop
hop_to facet selector = record { facet = facet; selector = selector }

abbrev subcommand_hops : List Text → List ResourceHop
subcommand_hops = map (hop_to (ascii "subcommands"))

-- The hops that name a command, from its space, namespace and path.
abbrev hops_in : CommandSpace → Option Text → List Text → List ResourceHop
hops_in system_space namespace [] = []
hops_in system_space namespace (s ∷ ss) = hop_to (ascii "system") s ∷ subcommand_hops ss
hops_in module_space namespace ss =
    hop_to (ascii "modules") (namespace_text namespace) ∷ subcommand_hops ss

abbrev pub resource_hops : CommandIdentity → List ResourceHop
resource_hops command = hops_in command.space command.namespace command.path

subcommand_route-eq-ok :
    (hops : List ResourceHop) (ss : List Text) (route : ResourceRoute)
    → IsRoute hops
    → subcommand_route (at_hops hops) ss ≡ ok route
    → (route ≡ at_hops (hops ++ subcommand_hops ss)) × IsRoute route.hops
unfolding subcommand_route
subcommand_route-eq-ok hops [] route v h =
    let same : at_hops hops ≡ route = ground arith in
    (
      sym same ∙ ap at_hops (sym (append-nil hops)),
      subst (λ (r : ResourceRoute). IsRoute r.hops) same v,
    )
subcommand_route-eq-ok hops (s ∷ ss) route v h =
    let (longer, made, later) = >>=-eq-ok (child (at_hops hops) (ascii "subcommands") s) _ h in
    let (same, w) = child-eq-ok (at_hops hops) (ascii "subcommands") s made in
    let next : List ResourceHop = hops ++ hop_to (ascii "subcommands") s ∷ [] in
    let (e, u) =
      subcommand_route-eq-ok next ss route (subst (λ (r : ResourceRoute). IsRoute r.hops) same w)
        (subst (λ (r : ResourceRoute). subcommand_route r ss ≡ ok route) same later) in
    (e ∙ ap at_hops (append_assoc hops _ _), u)

subcommand_route_of_IsRoute :
    (hops : List ResourceHop) (ss : List Text)
    → IsRoute (hops ++ subcommand_hops ss)
    → subcommand_route (at_hops hops) ss ≡ ok (at_hops (hops ++ subcommand_hops ss))
unfolding subcommand_route
subcommand_route_of_IsRoute hops [] v =
    ap (λ (h : List ResourceHop). ok (at_hops h)) (sym (append-nil hops))
subcommand_route_of_IsRoute hops (s ∷ ss) v =
    let next : List ResourceHop = hops ++ hop_to (ascii "subcommands") s ∷ [] in
    let w : IsRoute (next ++ subcommand_hops ss) =
      rw (append_assoc hops (hop_to (ascii "subcommands") s ∷ []) (subcommand_hops ss)) v in
    rw
      (child_of_IsRoute (at_hops hops) (hop_to (ascii "subcommands") s)
        (IsRoute-prefix next (subcommand_hops ss) w))
      (subcommand_route_of_IsRoute next ss w
        ∙ ap (λ (h : List ResourceHop). ok (at_hops h)) (append_assoc hops _ _))

valid_subcommands :
    (ss : List Text) → all valid_command_segment ss ≡ true → All IsHop (subcommand_hops ss)
valid_subcommands [] h = tt
valid_subcommands (s ∷ ss) h =
    let (here, later) = and_parts (valid_command_segment s) (all valid_command_segment ss) h in
    ((unfold valid_facet_id in refl, (name_inclusions s).1 here), valid_subcommands ss later)

length-hops_text_cons :
    (facet selector : Text) (hops : List ResourceHop)
    → length (hops_text (hop_to facet selector ∷ hops))
      ≡ 3 + length facet + length selector + length (hops_text hops)
unfolding hops_text
length-hops_text_cons facet selector hops = omega (
  arith,
  length-append {0} (hop_text (hop_to facet selector)) (hops_text hops),
  length-append {0} facet (b':' ∷ b':' ∷ selector),
)

length-hops_text_nil : length (hops_text []) ≡ 0
unfolding hops_text
length-hops_text_nil = refl

-- A path of `n` segments prints to at most 13 bytes more per segment as a route than as an address.
length-subcommands :
    (s : Text) (ss : List Text)
    → length (hops_text (subcommand_hops (s ∷ ss)))
      ≤ length (join_byte b'/' (s ∷ ss)) + 13 * length ss + 14
unfolding join_byte
length-subcommands s [] =
    omega (arith, length-hops_text_cons (ascii "subcommands") s [], length-hops_text_nil)
length-subcommands s (t ∷ ts) = omega (
  arith,
  length-hops_text_cons (ascii "subcommands") s (subcommand_hops (t ∷ ts)),
  length-append {0} s (b'/' ∷ join_byte b'/' (t ∷ ts)),
  length-subcommands t ts,
)

subcommands_bound :
    (ss : List Text)
    → length (hops_text (subcommand_hops ss)) ≤ length (join_byte b'/' ss) + 13 * length ss + 1
subcommands_bound [] = omega (arith, length-hops_text_nil)
subcommands_bound (s ∷ ss) = omega (arith, length-subcommands s ss)

length-join_byte_cons :
    (s : Text) (ss : List Text)
    → length s + length (join_byte b'/' ss) ≤ length (join_byte b'/' (s ∷ ss))
unfolding join_byte
length-join_byte_cons s [] = omega arith
length-join_byte_cons s (t ∷ ts) =
    omega (arith, length-append {0} s (b'/' ∷ join_byte b'/' (t ∷ ts)))

length-subcommand_hops : (ss : List Text) → length (subcommand_hops ss) ≡ length ss
length-subcommand_hops [] = refl
length-subcommand_hops (s ∷ ss) = ap suc (length-subcommand_hops ss)

hops-IsRoute :
    (space : CommandSpace) (namespace : Option Text) (path : List Text)
    → IsIdentity (record { space = space; namespace = namespace; path = path })
    → length (hops_in space namespace path) ≤ 32
    → IsRoute (hops_in space namespace path)
unfolding address
hops-IsRoute system_space namespace [] v few = absurd (ground (arith, v.some_path))
hops-IsRoute system_space namespace (s ∷ ss) v few =
    let (here, later) =
      and_parts (valid_command_segment s) (all valid_command_segment ss) v.named in
    record {
      few = few;
      named =
          ((unfold valid_facet_id in refl, (name_inclusions s).1 here), valid_subcommands ss later);
      short = omega (
        arith,
        v.short,
        few,
        length-hops_text_cons (ascii "system") s (subcommand_hops ss),
        subcommands_bound ss,
        length-join_byte_cons s ss,
        length-subcommand_hops ss,
      );
    }
hops-IsRoute module_space none ss v few =
    absurd (unfold checked_namespace in ground (arith, v.placed))
hops-IsRoute module_space (some n) ss v few =
    let valid : valid_module_namespace n ≡ true =
      unfold checked_namespace in ground (arith, v.placed) in
    record {
      few = few;
      named = (
        (unfold valid_facet_id in refl, (name_inclusions n).1 ((name_inclusions n).2 valid)),
        valid_subcommands ss v.named,
      );
      short = omega (
        arith,
        v.short,
        few,
        length-hops_text_cons (ascii "modules") n (subcommand_hops ss),
        subcommands_bound ss,
        length-append {0} n (b'/' ∷ join_byte b'/' ss),
        length-subcommand_hops ss,
      );
    }

IsRoute-first :
    (hop : ResourceHop) (hops : List ResourceHop) → IsRoute (hop ∷ hops) → IsRoute (hop ∷ [])
IsRoute-first hop hops v = IsRoute-prefix (hop ∷ []) hops v

route_in_of_IsRoute :
    (space : CommandSpace) (namespace : Option Text) (path : List Text)
    → (path ≡ [] → ⊥)
    → IsRoute (hops_in space namespace path)
    → route_in space namespace path ≡ ok (at_hops (hops_in space namespace path))
route_in_of_IsRoute system_space namespace [] ne v = absurd (ne refl)
route_in_of_IsRoute system_space namespace (s ∷ ss) ne v =
    rw
      (child_of_IsRoute (at_hops []) (hop_to (ascii "system") s)
        (IsRoute-first _ (subcommand_hops ss) v))
      (subcommand_route_of_IsRoute (hop_to (ascii "system") s ∷ []) ss v)
route_in_of_IsRoute module_space namespace ss ne v =
    rw
      (child_of_IsRoute (at_hops []) (hop_to (ascii "modules") (namespace_text namespace))
        (IsRoute-first _ (subcommand_hops ss) v))
      (subcommand_route_of_IsRoute (hop_to (ascii "modules") (namespace_text namespace) ∷ []) ss v)

first-eq-ok :
    (facet selector : Text) (ss : List Text) (route : ResourceRoute)
    → (child (at_hops []) facet selector >>= λ first. subcommand_route first ss) ≡ ok route
    → (route ≡ at_hops (hop_to facet selector ∷ subcommand_hops ss)) × IsRoute route.hops
first-eq-ok facet selector ss route h =
    let (first, made, later) = >>=-eq-ok (child (at_hops []) facet selector) _ h in
    let (same, v) = child-eq-ok (at_hops []) facet selector made in
    subcommand_route-eq-ok (hop_to facet selector ∷ []) ss route
      (subst (λ (r : ResourceRoute). IsRoute r.hops) same v)
      (subst (λ (r : ResourceRoute). subcommand_route r ss ≡ ok route) same later)

route_in-eq-ok :
    (space : CommandSpace) (namespace : Option Text) (path : List Text) (route : ResourceRoute)
    → route_in space namespace path ≡ ok route
    → (route ≡ at_hops (hops_in space namespace path)) × IsRoute route.hops
route_in-eq-ok system_space namespace [] route h = cc
route_in-eq-ok system_space namespace (s ∷ ss) route h = first-eq-ok (ascii "system") s ss route h
route_in-eq-ok module_space namespace ss route h =
    first-eq-ok (ascii "modules") (namespace_text namespace) ss route h

-- A valid command has a resource route exactly when that route has at most 32 hops, one for each
-- path segment and one for a module's namespace; the route is then the one of those hops.
pub command_resource_route_iff :
    (command : CommandIdentity) (route : ResourceRoute)
    → IsIdentity command
    → (command_resource_route command ≡ ok route)
      ↔ ((route ≡ record { hops = resource_hops command }) × (length (resource_hops command) ≤ 32))
unfolding command_resource_route
command_resource_route_iff command route v = (
  λ h.
      let (same, w) = route_in-eq-ok command.space command.namespace command.path route h in
      (same, (subst (λ (r : ResourceRoute). IsRoute r.hops) same w).few),
  λ (same, few). rw same (
      route_in_of_IsRoute command.space command.namespace command.path
        (λ e. ground (arith, v.some_path))
        (hops-IsRoute command.space command.namespace command.path v few)),
)
