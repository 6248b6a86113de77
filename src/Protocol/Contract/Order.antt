-- ===== src/Protocol/Contract/Order.antt =====
-- The order in which a contract is declared does not matter.
use swaw_kit.Prelude.{
  ◌≡◌, refl, ap, ap₂, subst, ◌∙◌, not, false, List, [], ◌∷◌, map, arith, All, Text, ok, ◌>>◌,
  >>=-eq-ok, >>-eq-ok, reject_if-eq-ok, ◌==◌, ℕ, ◌+◌, sort, has_descent, Shuffle, Shuffle-map,
  All-Shuffle, Distinct, Distinct-Shuffle, Distinct-of_no_descent, sort-Shuffle, sort-Shuffles,
  by_key-IsOrder, pair_key-IsOrder,
}
use swaw_kit.Protocol.Error.{
  invalid_contract_identity, not_one_native_owner, requirements_not_canonical,
  provisions_not_canonical,
}
use swaw_kit.Protocol.Capability.{
  CommandRequirement, CommandProvision, validate_command_requirements, validate_command_provisions,
}
use swaw_kit.Protocol.Identity.{CommandIdentity, parse_identity}
use swaw_kit.Protocol.Contract.{
  ExecutionContractCommand, ExecutionContract, execution_contract_schema,
  command_environment_protocol_name, requirement_key, requirement_le, provision_le, command_le,
  normalized, validate_requirements, validate_provisions, check_execution, validate_command,
  count_native, validate_contract, assembled, new_contract,
}

-- Two declarations of one command that differ in the order of its requirements and provisions.
pub record IsReordered (c d : ExecutionContractCommand) : Type 0 where
  pub address : c.address ≡ d.address
  pub execution : c.execution ≡ d.execution
  pub requires : Shuffle c.requires d.requires
  pub provides : Shuffle c.provides d.provides

abbrev pub AllReordered : List ExecutionContractCommand → List ExecutionContractCommand → Type 0
AllReordered [] [] = Unit
AllReordered (c ∷ cs) (d ∷ ds) = IsReordered c d × AllReordered cs ds
AllReordered [] (d ∷ ds) = ⊥
AllReordered (c ∷ cs) [] = ⊥

pub record IsCanonical (c : ExecutionContractCommand) : Type 0 where
  pub requires : has_descent requirement_le c.requires ≡ false
  pub provides : has_descent provision_le c.provides ≡ false

pub validate_requirements-ascends :
    (values : List CommandRequirement)
    → validate_requirements values ≡ ok tt
    → has_descent requirement_le values ≡ false
unfolding validate_requirements
validate_requirements-ascends values h =
    reject_if-eq-ok (has_descent requirement_le values) requirements_not_canonical
      (>>-eq-ok (validate_command_requirements values) _ h).1

pub validate_provisions-ascends :
    (values : List CommandProvision)
    → validate_provisions values ≡ ok tt
    → has_descent provision_le values ≡ false
unfolding validate_provisions
validate_provisions-ascends values h =
    reject_if-eq-ok (has_descent provision_le values) provisions_not_canonical
      (>>-eq-ok (validate_command_provisions values) _ h).1

-- What one round of the loop of `validate` has checked.
pub record IsChecked (owner : Text) (owner_identity : CommandIdentity)
    (c : ExecutionContractCommand) (n : ℕ) : Type 0 where
  pub identity : CommandIdentity
  pub parsed : parse_identity c.address ≡ ok identity
  pub canonical : IsCanonical c
  pub belongs : check_execution owner owner_identity c.address identity c.execution ≡ ok n

pub validate_command-IsChecked :
    (owner : Text) (owner_identity : CommandIdentity) (c : ExecutionContractCommand) (n : ℕ)
    → validate_command owner owner_identity c ≡ ok n
    → IsChecked owner owner_identity c n
unfolding validate_command
validate_command-IsChecked owner owner_identity c n h =
    let (identity, parsed, rest) = >>=-eq-ok (parse_identity c.address) _ h in
    let (required, more) = >>-eq-ok (validate_requirements c.requires) _ rest in
    let (provided, last) = >>-eq-ok (validate_provisions c.provides) _ more in
    record {
      identity = identity;
      parsed = parsed;
      canonical = record {
        requires = validate_requirements-ascends c.requires required;
        provides = validate_provisions-ascends c.provides provided;
      };
      belongs = last;
    }

count_native-IsCanonical :
    (owner : Text) (owner_identity : CommandIdentity) (count : ℕ)
    (cs : List ExecutionContractCommand) (n : ℕ)
    → count_native owner owner_identity count cs ≡ ok n
    → All IsCanonical cs
unfolding count_native
count_native-IsCanonical owner owner_identity count [] n h = tt
count_native-IsCanonical owner owner_identity count (c ∷ cs) n h =
    let (more, checked, rest) = >>=-eq-ok (validate_command owner owner_identity c) _ h in
    (
      (validate_command-IsChecked owner owner_identity c more checked).canonical,
      count_native-IsCanonical owner owner_identity (count + more) cs n rest,
    )

-- What `validate` has checked of a whole contract.
pub record IsValidated (k : ExecutionContract) : Type 0 where
  pub owner_identity : CommandIdentity
  pub parsed : parse_identity k.owner ≡ ok owner_identity
  pub ascends : has_descent command_le k.commands ≡ false
  pub counted : count_native k.owner owner_identity 0 k.commands ≡ ok 1

pub validate_contract-IsValidated :
    (k : ExecutionContract) → validate_contract k ≡ ok tt → IsValidated k
unfolding validate_contract
validate_contract-IsValidated k h =
    let (owner_identity, parsed, rest) = >>=-eq-ok (parse_identity k.owner) _ h in
    let (shaped, more) = >>-eq-ok _ _ rest in
    let (n, counted, last) = >>=-eq-ok (count_native k.owner owner_identity 0 k.commands) _ more in
    let one = reject_if-eq-ok (not (n == 1)) not_one_native_owner last in
    let shape = reject_if-eq-ok _ invalid_contract_identity shaped in
    record {
      owner_identity = owner_identity;
      parsed = parsed;
      ascends = ground (arith, shape);
      counted = counted ∙ ap (λ (m : ℕ). ok m) (ground arith);
    }

new_contract-cases :
    (owner : Text) (cs : List ExecutionContractCommand) (k : ExecutionContract)
    → new_contract owner cs ≡ ok k
    → validate_contract (assembled owner cs) ≡ ok tt
unfolding new_contract
new_contract-cases owner cs k h = (>>-eq-ok (validate_contract (assembled owner cs)) _ h).0

normalized-eq :
    (c d : ExecutionContractCommand)
    → IsCanonical (normalized c)
    → IsReordered c d
    → normalized c ≡ normalized d
normalized-eq c d canonical r =
    let requires =
      Distinct-of_no_descent requirement_le (pair_key-IsOrder requirement_key)
        (sort requirement_le c.requires) canonical.requires in
    let provides =
      Distinct-of_no_descent provision_le (by_key-IsOrder (λ (p : CommandProvision). p.id))
        (sort provision_le c.provides) canonical.provides in
    let required = sort-Shuffle requirement_le (pair_key-IsOrder requirement_key) r.requires (
      Distinct-Shuffle requirement_le (pair_key-IsOrder requirement_key)
        (sort-Shuffles requirement_le c.requires) requires) in
    let provided =
      sort-Shuffle provision_le (by_key-IsOrder (λ (p : CommandProvision). p.id)) r.provides (
        Distinct-Shuffle provision_le (by_key-IsOrder (λ (p : CommandProvision). p.id))
          (sort-Shuffles provision_le c.provides) provides) in
    ground (arith, r.address, r.execution, required, provided)

all_normalized-eq :
    (cs ds : List ExecutionContractCommand)
    → All IsCanonical (map normalized cs)
    → AllReordered cs ds
    → map normalized cs ≡ map normalized ds
all_normalized-eq [] [] h r = refl
all_normalized-eq (c ∷ cs) (d ∷ ds) (p, h) (q, r) =
    ap₂ ◌∷◌ (normalized-eq c d p q) (all_normalized-eq cs ds h r)
all_normalized-eq [] (d ∷ ds) h r = absurd r
all_normalized-eq (c ∷ cs) [] h r = absurd r

assembled-eq :
    (owner : Text) (cs ds es : List ExecutionContractCommand)
    → IsValidated (assembled owner cs)
    → AllReordered cs ds
    → Shuffle ds es
    → assembled owner cs ≡ assembled owner es
assembled-eq owner cs ds es v r s =
    let sorted = sort-Shuffles command_le (map normalized cs) in
    let order = by_key-IsOrder (λ (c : ExecutionContractCommand). c.address) in
    let canonical = All-Shuffle IsCanonical sorted (
      count_native-IsCanonical owner v.owner_identity 0 (sort command_le (map normalized cs)) 1
        v.counted) in
    let distinct =
      Distinct-Shuffle command_le order sorted
        (Distinct-of_no_descent command_le order (sort command_le (map normalized cs)) v.ascends) in
    let inner = all_normalized-eq cs ds canonical r in
    let outer =
      sort-Shuffle command_le order (Shuffle-map normalized s)
        (subst (Distinct command_le) inner distinct) in
    ap
      (λ (l : List ExecutionContractCommand). record {
        schema = execution_contract_schema;
        command_environment_protocol = command_environment_protocol_name;
        owner = owner;
        commands = l;
      })
      (ap (sort command_le) inner ∙ outer)

-- A contract that is accepted is accepted, as the same contract, whatever the order in which its
-- commands are declared, and that of the requirements and provisions of each.
pub new_contract-reordered :
    (owner : Text) (cs ds es : List ExecutionContractCommand) (k : ExecutionContract)
    → new_contract owner cs ≡ ok k
    → AllReordered cs ds
    → Shuffle ds es
    → new_contract owner es ≡ ok k
unfolding new_contract
new_contract-reordered owner cs ds es k h r s =
    let v = validate_contract-IsValidated (assembled owner cs) (new_contract-cases owner cs k h) in
    subst (λ (a : ExecutionContract). (validate_contract a >> ok a) ≡ ok k)
      (assembled-eq owner cs ds es v r s) h
