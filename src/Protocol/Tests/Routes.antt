-- ===== src/Protocol/Tests/Routes.antt =====
-- Routes, names and identities of the shapes that the unit tests of the crate use.
use swaw_kit.Prelude.{
  ◌≡◌, ◌≢◌, ◌↔◌, refl, true, none, some, List, [], ◌∷◌, ◌++◌, ◌≤◌, arith, Text, ascii, length,
  text_eq, strip_prefix, split_byte, join_byte, ok, err,
}
use swaw_kit.Protocol.Error.{
  invalid_route, invalid_facet_id, unselected_facet, more_than_one_selector,
}
use swaw_kit.Protocol.Name.{
  valid_facet_id, valid_resource_selector, valid_command_segment, valid_module_namespace,
}
use swaw_kit.Protocol.Route.{
  ResourceRoute, RouteTarget, facet_target, validate_facet_id, validate_resource_selector,
  validate_facet_route, canonical_target, child, new_facet_route, split_colons, parse_segment,
  parse_segments, parse_suffix, parse_route,
}
use swaw_kit.Protocol.Route.Valid.{IsTarget}
use swaw_kit.Protocol.Route.Printing.{parse_route-canonical_target}
use swaw_kit.Protocol.Route.Reading.{canonical_target-parse_route}
use swaw_kit.Protocol.Identity.{
  CommandIdentity, system_space, module_space, address, checked_namespace, new_identity, parse_path,
  parse_identity, parse_module_address, split_once, is_true_ancestor_of, starts_with_path,
  command_data_root, native_command_root, command_resource_route,
}
use swaw_kit.Protocol.Identity.Address.{IsIdentity, parse_identity-address, address-parse_identity}
use swaw_kit.Protocol.Identity.DataRoots.{
  command_data_root_injective, native_command_root-ne-data_root, data_root_below_ancestor,
}
use swaw_kit.Protocol.Identity.Routes.{resource_hops, command_resource_route_iff}

abbrev system_dev : ResourceRoute
system_dev = record {
  hops =
      record { facet = ascii "system"; selector = ascii "dev" }
      ∷ record { facet = ascii "subcommands"; selector = ascii "bun" }
      ∷ [];
}

abbrev execute_target : RouteTarget
execute_target = facet_target (record { resource = system_dev; facet = ascii "execute" })

abbrev execute_text : Text
execute_text = ascii "$/system::dev/subcommands::bun/execute"

execute_target-IsTarget : IsTarget execute_target
unfolding validate_facet_route valid_facet_id valid_resource_selector
execute_target-IsTarget = refl

prints : canonical_target execute_target ≡ execute_text
unfolding canonical_target
prints = refl

abbrev Reads : Text → RouteTarget → Type 0
Reads s t = parse_route s ≡ ok t

parses : Reads execute_text execute_target
unfolding parse_route parse_suffix parse_segments parse_segment split_byte split_colons text_eq
    strip_prefix child new_facet_route validate_facet_id validate_resource_selector valid_facet_id
    valid_resource_selector
parses = refl

refuses :
    (parse_route (ascii "$/system/dev")
      ≡ err (invalid_route (ascii "$/system/dev") unselected_facet))
    × (parse_route (ascii "$/a::b::c")
        ≡ err (invalid_route (ascii "$/a::b::c") more_than_one_selector))
    × (parse_route (ascii "$/system::dev//execute")
        ≡ err (invalid_route (ascii "$/system::dev//execute") invalid_facet_id))
unfolding parse_route parse_suffix parse_segments parse_segment split_byte split_colons text_eq
    strip_prefix child new_facet_route validate_facet_id validate_resource_selector valid_facet_id
    valid_resource_selector
refuses = (refl, refl, refl)

reserved_names_refused :
    (valid_facet_id (ascii "con") ≡ valid_facet_id [])
    × (valid_resource_selector (ascii "42") ≡ true)
unfolding valid_facet_id valid_resource_selector
reserved_names_refused = (refl, refl)

parse_route-canonical_target_example :
    parse_route (canonical_target execute_target) ≡ ok execute_target
parse_route-canonical_target_example =
    parse_route-canonical_target execute_target execute_target-IsTarget

canonical_target-parse_route_example :
    (canonical_target execute_target ≡ execute_text) × IsTarget execute_target
canonical_target-parse_route_example =
    canonical_target-parse_route execute_text execute_target parses

abbrev context_add : CommandIdentity
context_add = record {
  space = system_space;
  namespace = none;
  path = ascii "context" ∷ ascii "add" ∷ [];
}

abbrev context : CommandIdentity
context = record { space = system_space; namespace = none; path = ascii "context" ∷ [] }

abbrev swaw_context : CommandIdentity
swaw_context = record {
  space = module_space;
  namespace = some (ascii "swaw");
  path = ascii "context" ∷ ascii "add" ∷ [];
}

valid_examples : IsIdentity context_add × IsIdentity swaw_context × IsIdentity context
unfolding checked_namespace valid_command_segment valid_module_namespace address join_byte
valid_examples = (
  record { placed = refl; some_path = refl; named = refl; short = omega arith },
  record { placed = refl; some_path = refl; named = refl; short = omega arith },
  record { placed = refl; some_path = refl; named = refl; short = omega arith },
)

identity_parses : parse_identity (ascii "swaw/context/add") ≡ ok swaw_context
unfolding parse_identity parse_module_address parse_path new_identity checked_namespace
    valid_command_segment valid_module_namespace address join_byte split_byte split_once
    strip_prefix
identity_parses = refl

parse_identity-address_example : parse_identity (address swaw_context) ≡ ok swaw_context
parse_identity-address_example = parse_identity-address swaw_context valid_examples.1

address-parse_identity_example :
    (address swaw_context ≡ ascii "swaw/context/add") × IsIdentity swaw_context
address-parse_identity_example =
    address-parse_identity (ascii "swaw/context/add") swaw_context identity_parses

command_data_root_injective_example : context_add ≡ context_add
command_data_root_injective_example =
    command_data_root_injective (ascii "data" ∷ []) context_add context_add valid_examples.0
      valid_examples.0 refl

native_command_root-ne-data_root_example :
    native_command_root (ascii "data" ∷ []) context ++ (ascii "add" ∷ [])
    ≢ command_data_root (ascii "data" ∷ []) context_add
native_command_root-ne-data_root_example =
    native_command_root-ne-data_root (ascii "data" ∷ []) (ascii "add" ∷ []) context context_add
      valid_examples.0

data_root_below_ancestor_example :
    (s : Text) × (rest : List Text) × (command_data_root (ascii "data" ∷ []) context_add
      ≡ command_data_root (ascii "data" ∷ []) context ++ s ∷ rest)
data_root_below_ancestor_example =
    data_root_below_ancestor (ascii "data" ∷ []) context context_add
      (unfold is_true_ancestor_of starts_with_path text_eq in refl)

command_resource_route_iff_example :
    (command_resource_route context_add ≡ ok (record { hops = resource_hops context_add })) ↔ (
      (◌≡◌ {A = ResourceRoute}
        (record { hops = resource_hops context_add })
        (record { hops = resource_hops context_add }))
      × (length (resource_hops context_add) ≤ 32))
command_resource_route_iff_example =
    command_resource_route_iff context_add (record { hops = resource_hops context_add })
      valid_examples.0
