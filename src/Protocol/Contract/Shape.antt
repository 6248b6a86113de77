-- ===== src/Protocol/Contract/Shape.antt =====
-- What an accepted contract is: one native owner, and delegates below it.
use swaw_kit.Prelude.{
  ℕ, ◌+◌, ◌≡◌, refl, sym, ap, subst, inl, inr, ◌∙◌, not, true, false, Bool-cases, Option, none,
  some, List, [], ◌∷◌, arith, keep, length, Text, text_eq, text_eq_iff, ok, >>=-eq-ok, >>-eq-ok,
  if◌then◌else◌,
}
use swaw_kit.Protocol.Identity.{
  CommandSpace, system_space, module_space, CommandIdentity, parse_identity, address, same_space,
  same_namespace, starts_with_path, is_true_ancestor_of,
}
use swaw_kit.Protocol.Identity.Address.{address-parse_identity}
use swaw_kit.Protocol.Contract.{
  ExecutionSemantics, native, delegate, ExecutionContractCommand, ExecutionContract, identity_eq,
  check_execution, validate_command, count_native, validate_contract, assembled, new_contract,
  onto_delegated, delegated_from, delegated_commands,
}
use swaw_kit.Protocol.Contract.Order.{validate_command-IsChecked, validate_contract-IsValidated}

abbrev pub addresses : List ExecutionContractCommand → List Text
addresses [] = []
addresses (c ∷ cs) = c.address ∷ addresses cs

starts_with_path-eq : (p q : List Text) → starts_with_path p q ≡ true → length p ≡ length q → p ≡ q
unfolding starts_with_path
starts_with_path-eq [] [] h e = refl
starts_with_path-eq [] (t ∷ q) h e = absurd (omega (arith, e))
starts_with_path-eq (s ∷ p) [] h e = ground arith
starts_with_path-eq (s ∷ p) (t ∷ q) h e = ground (arith, text_eq_iff s t, starts_with_path-eq p q)

same_namespace-eq : (a b : Option Text) → same_namespace a b ≡ true → a ≡ b
same_namespace-eq none none h = refl
same_namespace-eq (some a) (some b) h = ground (arith, text_eq_iff a b)
same_namespace-eq none (some b) h = cc
same_namespace-eq (some a) none h = cc

same_space-eq : (a b : CommandSpace) → same_space a b ≡ true → a ≡ b
same_space-eq system_space system_space h = refl
same_space-eq module_space module_space h = refl
same_space-eq system_space module_space h = cc
same_space-eq module_space system_space h = cc

identity_eq_sound : (a b : CommandIdentity) → identity_eq a b ≡ true → a ≡ b
unfolding identity_eq
identity_eq_sound a b h =
    let path : starts_with_path a.path b.path ≡ true = ground arith in
    let size : length a.path ≡ length b.path = ground arith in
    let spaces : same_space a.space b.space ≡ true = ground arith in
    let names : same_namespace a.namespace b.namespace ≡ true = ground arith in
    ground (
      arith,
      same_space-eq a.space b.space spaces,
      same_namespace-eq a.namespace b.namespace names,
      starts_with_path-eq a.path b.path path size,
    )

ancestor-apart : (a : CommandIdentity) → is_true_ancestor_of a a ≡ false
unfolding is_true_ancestor_of
ancestor-apart a = ground arith

-- One checked command: it is native and the owner, or a delegate and not the owner.
check_execution-owner :
    (owner : Text) (o : CommandIdentity) (at : Text) (i : CommandIdentity) (e : ExecutionSemantics)
    (n : ℕ) (rest : List Text)
    → parse_identity owner ≡ ok o
    → parse_identity at ≡ ok i
    → check_execution owner o at i e ≡ ok n
    → (n ≡ (if text_eq at owner then 1 else 0))
      × (onto_delegated e at rest ≡ (if text_eq at owner then rest else at ∷ rest))
unfolding check_execution
check_execution-owner owner o at i native n rest p q h =
    let same : identity_eq i o ≡ true = ground arith in
    let address_eq : at ≡ owner =
      sym (address-parse_identity at i q).0
      ∙ ap address (identity_eq_sound i o same)
      ∙ (address-parse_identity owner o p).0 in
    let one = (text_eq_iff at owner).1 address_eq in (ground (arith, one), ground (arith, one))
check_execution-owner owner o at i (delegate declared) n rest p q h =
    let below : is_true_ancestor_of o i ≡ true = ground arith in
    let other : text_eq at owner ≡ false = elim (Bool-cases (text_eq at owner)) [
      | inr differs ↦ differs
      | inl equal ↦
          let same : at ≡ owner = (text_eq_iff at owner).0 equal in
          ground (arith, ancestor-apart o, below, p, q, same)
    ] in
    (ground (arith, other), ground (arith, other))

-- The commands of a contract, by whether they have the owner's address.
abbrev pub owned_by : Text → List Text → List Text
owned_by owner all = keep (λ (a : Text). text_eq a owner) all

abbrev pub others : Text → List Text → List Text
others owner all = keep (λ (a : Text). not (text_eq a owner)) all

count_native-owner :
    (owner : Text) (o : CommandIdentity) (count : ℕ) (cs : List ExecutionContractCommand) (n : ℕ)
    → parse_identity owner ≡ ok o
    → count_native owner o count cs ≡ ok n
    → (n ≡ count + length (owned_by owner (addresses cs)))
      × (delegated_from cs ≡ others owner (addresses cs))
unfolding count_native delegated_from
count_native-owner owner o count [] n p h = (ground arith, refl)
count_native-owner owner o count (c ∷ cs) n p h =
    let (more, checked, rest) = >>=-eq-ok (validate_command owner o c) _ h in
    let ic = validate_command-IsChecked owner o c more checked in
    let (counted, listed) =
      check_execution-owner owner o c.address ic.identity c.execution more (delegated_from cs) p
        ic.parsed ic.belongs in
    let (total, delegated) = count_native-owner owner o (count + more) cs n p rest in
    (ground (arith, counted, total), listed ∙ ground (arith, delegated))

-- An accepted contract lists its owner exactly once, and the delegated commands are all the others.
pub new_contract-delegates :
    (owner : Text) (cs : List ExecutionContractCommand) (k : ExecutionContract)
    → new_contract owner cs ≡ ok k
    → (length (owned_by owner (addresses k.commands)) ≡ 1)
      × (delegated_commands k ≡ others owner (addresses k.commands))
unfolding new_contract delegated_commands
new_contract-delegates owner cs k h =
    let (valid, same) = >>-eq-ok (validate_contract (assembled owner cs)) _ h in
    let v = validate_contract-IsValidated (assembled owner cs) valid in
    let (total, delegated) =
      count_native-owner owner v.owner_identity 0 (assembled owner cs).commands 1 v.parsed
        v.counted in
    let built : assembled owner cs ≡ k = ground (arith, same) in
    subst
      (λ (a : ExecutionContract).
        (length (owned_by owner (addresses a.commands)) ≡ 1)
        × (delegated_from a.commands ≡ others owner (addresses a.commands)))
      built (omega (arith, total), delegated)
