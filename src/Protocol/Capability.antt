-- ===== src/Protocol/Capability.antt =====
-- The capabilities that commands require and provide
-- (_lib/proj/_protocol/src/command_capability.rs).
use swaw_kit.Prelude.{
  ℕ, Bool, false, not, ◌||◌, List, [], ◌∷◌, ltb, length, Text, text_eq, ◌&&◌, one_of, ok, is_ok,
  reject_if, ◌>>◌,
}
use swaw_kit.Protocol.Error.{
  ProtocolResult, too_many_requirements, invalid_requirement, too_many_provisions,
  invalid_provision,
}
use swaw_kit.Protocol.Name.{valid_capability_name}
use swaw_kit.Protocol.Identity.{parse_identity}

abbrev pub max_command_requirements : ℕ
max_command_requirements = 64

abbrev pub max_command_provisions : ℕ
max_command_provisions = 64

pub record CommandRequirement : Type 0 where
  pub provider : Text
  pub export : Text

pub record CommandProvision : Type 0 where
  pub id : Text

-- `seen.insert((&value.provider, &value.export))` on a set that holds the pair.
unfoldable pub has_seen : List CommandRequirement → CommandRequirement → Bool
has_seen [] value = false
has_seen (s ∷ seen) value =
    (text_eq s.provider value.provider && text_eq s.export value.export) || has_seen seen value

-- The loop of `validate_command_requirements`, with the set of the values seen.
unfoldable pub validate_requirements_from :
    List CommandRequirement → List CommandRequirement → ProtocolResult (Unit {0})
validate_requirements_from seen [] = ok tt
validate_requirements_from seen (value ∷ values) = do
  reject_if
      (not (is_ok (parse_identity value.provider))
        || not (valid_capability_name value.export)
        || has_seen seen value)
      invalid_requirement
  validate_requirements_from (value ∷ seen) values

unfoldable pub validate_command_requirements : List CommandRequirement → ProtocolResult (Unit {0})
validate_command_requirements values = do
  reject_if (ltb max_command_requirements (length values)) too_many_requirements
  validate_requirements_from [] values

unfoldable pub validate_provisions_from :
    List Text → List CommandProvision → ProtocolResult (Unit {0})
validate_provisions_from seen [] = ok tt
validate_provisions_from seen (value ∷ values) = do
  reject_if (not (valid_capability_name value.id) || one_of seen value.id) invalid_provision
  validate_provisions_from (value.id ∷ seen) values

unfoldable pub validate_command_provisions : List CommandProvision → ProtocolResult (Unit {0})
validate_command_provisions values = do
  reject_if (ltb max_command_provisions (length values)) too_many_provisions
  validate_provisions_from [] values
