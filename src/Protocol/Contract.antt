-- ===== src/Protocol/Contract.antt =====
-- The execution contract of a native command: which commands its process runs
-- (_lib/proj/_protocol/src/execution_contract.rs). The canonical bytes are serde's and are not
-- modelled.
pub mod Order
pub mod Shape
use swaw_kit.Prelude.{
  ℕ, ◌+◌, Bool, true, false, not, ◌&&◌, ◌||◌, List, [], ◌∷◌, ◌==◌, length, is_empty, map, Text,
  ascii, text_eq, text_le, pair_le, sort, has_descent, Result, ok, err, reject_if, ◌>>◌, ◌>>=◌,
  if◌then◌else◌,
}
use swaw_kit.Protocol.Error.{
  ProtocolError, ProtocolResult, invalid_contract_identity, foreign_execution, not_one_native_owner,
  requirements_not_canonical, provisions_not_canonical,
}
use swaw_kit.Protocol.Capability.{
  CommandRequirement, CommandProvision, validate_command_requirements, validate_command_provisions,
}
use swaw_kit.Protocol.Identity.{
  CommandIdentity, parse_identity, is_true_ancestor_of, same_space, same_namespace,
  starts_with_path,
}

abbrev pub execution_contract_schema : Text
execution_contract_schema = ascii "swawkit.native-command-execution-contract/v4"

-- COMMAND_ENVIRONMENT_PROTOCOL of command_environment.rs.
abbrev pub command_environment_protocol_name : Text
command_environment_protocol_name = ascii "3"

pub data ExecutionSemantics : Type 0 where
  native : ExecutionSemantics
  delegate : Text → ExecutionSemantics

pub record ExecutionContractCommand : Type 0 where
  pub address : Text
  pub execution : ExecutionSemantics
  pub requires : List CommandRequirement
  pub provides : List CommandProvision

pub record ExecutionContract : Type 0 where
  pub schema : Text
  pub command_environment_protocol : Text
  pub owner : Text
  pub commands : List ExecutionContractCommand

-- The keys by which the three lists are sorted.
abbrev pub requirement_key : CommandRequirement → Text × Text
requirement_key r = (r.provider, r.export)

abbrev pub requirement_le : CommandRequirement → CommandRequirement → Bool
requirement_le left right = pair_le (requirement_key left) (requirement_key right)

abbrev pub provision_le : CommandProvision → CommandProvision → Bool
provision_le left right = text_le left.id right.id

abbrev pub command_le : ExecutionContractCommand → ExecutionContractCommand → Bool
command_le left right = text_le left.address right.address

-- The first loop of `ExecutionContract::new`.
abbrev pub normalized : ExecutionContractCommand → ExecutionContractCommand
normalized c = record c {
  requires = sort requirement_le c.requires;
  provides = sort provision_le c.provides;
}

unfoldable pub validate_requirements : List CommandRequirement → ProtocolResult (Unit {0})
validate_requirements values = do
  validate_command_requirements values
  reject_if (has_descent requirement_le values) requirements_not_canonical

unfoldable pub validate_provisions : List CommandProvision → ProtocolResult (Unit {0})
validate_provisions values = do
  validate_command_provisions values
  reject_if (has_descent provision_le values) provisions_not_canonical

-- `==` of two identities.
unfoldable pub identity_eq : CommandIdentity → CommandIdentity → Bool
identity_eq a b =
    same_space a.space b.space
    && same_namespace a.namespace b.namespace
    && (length a.path == length b.path && starts_with_path a.path b.path)

-- The `match` on the execution of one command: by how much it raises the native count.
unfoldable pub check_execution :
    Text → CommandIdentity → Text → CommandIdentity → ExecutionSemantics → ProtocolResult ℕ
check_execution owner owner_identity address identity native =
    if identity_eq identity owner_identity then ok 1 else err (foreign_execution address owner)
check_execution owner owner_identity address identity (delegate declared_owner) =
    if text_eq declared_owner owner && is_true_ancestor_of owner_identity identity
    then ok 0
    else err (foreign_execution address owner)

-- One round of the loop of `validate`.
unfoldable pub validate_command :
    Text → CommandIdentity → ExecutionContractCommand → ProtocolResult ℕ
validate_command owner owner_identity command = do
  identity ← parse_identity command.address
  validate_requirements command.requires
  validate_provisions command.provides
  check_execution owner owner_identity command.address identity command.execution

unfoldable pub count_native :
    Text → CommandIdentity → ℕ → List ExecutionContractCommand → ProtocolResult ℕ
count_native owner owner_identity count [] = ok count
count_native owner owner_identity count (command ∷ commands) = do
  more ← validate_command owner owner_identity command
  count_native owner owner_identity (count + more) commands

unfoldable pub validate_contract : ExecutionContract → ProtocolResult (Unit {0})
validate_contract contract = do
  owner_identity ← parse_identity contract.owner
  reject_if
      (not (text_eq contract.schema execution_contract_schema)
        || not (text_eq contract.command_environment_protocol command_environment_protocol_name)
        || is_empty contract.commands
        || has_descent command_le contract.commands)
      invalid_contract_identity
  native_count ← count_native contract.owner owner_identity 0 contract.commands
  reject_if (not (native_count == 1)) not_one_native_owner

-- The contract that `new` builds before it validates it.
abbrev pub assembled : Text → List ExecutionContractCommand → ExecutionContract
assembled owner commands = record {
  schema = execution_contract_schema;
  command_environment_protocol = command_environment_protocol_name;
  owner = owner;
  commands = sort command_le (map normalized commands);
}

unfoldable pub new_contract :
    Text → List ExecutionContractCommand → ProtocolResult ExecutionContract
new_contract owner commands = do
  validate_contract (assembled owner commands)
  ok (assembled owner commands)

-- `ExecutionContract::delegated_commands`.
abbrev pub onto_delegated : ExecutionSemantics → Text → List Text → List Text
onto_delegated native address rest = rest
onto_delegated (delegate _) address rest = address ∷ rest

unfoldable pub delegated_from : List ExecutionContractCommand → List Text
delegated_from [] = []
delegated_from (c ∷ cs) = onto_delegated c.execution c.address (delegated_from cs)

unfoldable pub delegated_commands : ExecutionContract → List Text
unfolding delegated_from
delegated_commands contract = delegated_from contract.commands
