-- ===== src/Protocol/Tests/Contracts.antt =====
-- A contract of a command and one delegate, declared in two orders.
use swaw_kit.Prelude.{
  ◌≡◌, refl, List, [], ◌∷◌, ascii, ok, err, length, text_eq, text_le, sort, has_descent,
  strip_prefix, split_byte, join_byte, same, swap_heads,
}
use swaw_kit.Protocol.Error.{invalid_contract_identity}
use swaw_kit.Protocol.Name.{valid_command_segment, valid_capability_name}
use swaw_kit.Protocol.Identity.{
  parse_identity, parse_path, new_identity, checked_namespace, address, is_true_ancestor_of,
  starts_with_path,
}
use swaw_kit.Protocol.Capability.{
  CommandRequirement, validate_command_requirements, validate_command_provisions,
  validate_requirements_from, validate_provisions_from, has_seen,
}
use swaw_kit.Protocol.Contract.{
  ExecutionContractCommand, ExecutionContract, native, delegate, assembled, new_contract,
  validate_contract, count_native, validate_command, validate_requirements, validate_provisions,
  check_execution, identity_eq, delegated_commands,
}
use swaw_kit.Protocol.Contract.Order.{IsReordered, new_contract-reordered}
use swaw_kit.Protocol.Contract.Shape.{addresses, owned_by, others, new_contract-delegates}

abbrev dev : ExecutionContractCommand
dev = record {
  address = ascii ".dev";
  execution = native;
  requires = [];
  provides = record { id = ascii "tools" } ∷ [];
}

abbrev bun_requirements : List CommandRequirement
bun_requirements =
    record { provider = ascii ".dev"; export = ascii "tools" }
    ∷ record { provider = ascii ".dev"; export = ascii "cache" }
    ∷ []

abbrev bun : ExecutionContractCommand
bun = record {
  address = ascii ".dev/bun";
  execution = delegate (ascii ".dev");
  requires = bun_requirements;
  provides = [];
}

abbrev contract : ExecutionContract
contract = assembled (ascii ".dev") (bun ∷ dev ∷ [])

accepted : new_contract (ascii ".dev") (bun ∷ dev ∷ []) ≡ ok contract
unfolding new_contract validate_contract count_native validate_command validate_requirements
    validate_provisions check_execution identity_eq validate_command_requirements
    validate_command_provisions validate_requirements_from validate_provisions_from has_seen
    parse_identity parse_path new_identity checked_namespace address is_true_ancestor_of
    starts_with_path valid_command_segment valid_capability_name text_eq text_le sort has_descent
    strip_prefix split_byte join_byte
accepted = refl

repeated : new_contract (ascii ".dev") (dev ∷ dev ∷ []) ≡ err invalid_contract_identity
unfolding new_contract validate_contract parse_identity parse_path new_identity checked_namespace
    address valid_command_segment text_eq text_le sort has_descent strip_prefix split_byte join_byte
repeated = refl

abbrev unchanged : (c : ExecutionContractCommand) → IsReordered c c
unchanged c = record { address = refl; execution = refl; requires = same; provides = same }

new_contract-reordered_example : new_contract (ascii ".dev") (dev ∷ bun ∷ []) ≡ ok contract
new_contract-reordered_example =
    new_contract-reordered (ascii ".dev") (bun ∷ dev ∷ []) (bun ∷ dev ∷ []) (dev ∷ bun ∷ [])
      contract accepted (unchanged bun, (unchanged dev, tt)) (swap_heads bun dev [])

new_contract-delegates_example :
    (length (owned_by (ascii ".dev") (addresses contract.commands)) ≡ 1)
    × (delegated_commands contract ≡ others (ascii ".dev") (addresses contract.commands))
new_contract-delegates_example =
    new_contract-delegates (ascii ".dev") (bun ∷ dev ∷ []) contract accepted
