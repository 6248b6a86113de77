-- ===== src/Protocol/Name.antt =====
-- The portable names of the protocol: command segments and namespaces, facet ids, resource
-- selectors, capability names (_lib/proj/_protocol/src/command_name.rs, and the name tests of
-- resource_route.rs, command_capability.rs and resource_capabilities.rs).
pub mod Bytes
pub mod Inclusions
use swaw_kit.Prelude.{
  ℕ, zero, suc, ◌<◌, ◌≡◌, ◌≢◌, refl, Bool, true, false, not, ◌&&◌, ◌||◌, List, [], ◌∷◌, arith, ltb,
  leb, ◌==◌, length, is_empty, Text, ascii, one_of,
}

-- `u8::is_ascii_lowercase`, `u8::is_ascii_digit`.
abbrev pub is_ascii_lowercase : ℕ → Bool
is_ascii_lowercase c = leb b'a' c && leb c b'z'

abbrev pub is_ascii_digit : ℕ → Bool
is_ascii_digit c = leb b'0' c && leb c b'9'

-- `value.bytes().enumerate().all(p)`, from an index on.
unfoldable pub all_enumerated : (ℕ → ℕ → Bool) → ℕ → Text → Bool
all_enumerated p i [] = true
all_enumerated p i (c ∷ s) = p i c && all_enumerated p (suc i) s

abbrev pub reserved_names : List Text
reserved_names =
    ascii "con"
    ∷ ascii "prn"
    ∷ ascii "aux"
    ∷ ascii "nul"
    ∷ ascii "com1"
    ∷ ascii "com2"
    ∷ ascii "com3"
    ∷ ascii "com4"
    ∷ ascii "com5"
    ∷ ascii "com6"
    ∷ ascii "com7"
    ∷ ascii "com8"
    ∷ ascii "com9"
    ∷ ascii "lpt1"
    ∷ ascii "lpt2"
    ∷ ascii "lpt3"
    ∷ ascii "lpt4"
    ∷ ascii "lpt5"
    ∷ ascii "lpt6"
    ∷ ascii "lpt7"
    ∷ ascii "lpt8"
    ∷ ascii "lpt9"
    ∷ []

unfoldable pub is_windows_reserved_name : Text → Bool
unfolding one_of
is_windows_reserved_name value = one_of reserved_names value

-- The byte test of `valid_lower_kebab`, by index.
abbrev pub lower_kebab_byte : Bool → ℕ → ℕ → Bool
lower_kebab_byte first_must_be_letter index byte =
    is_ascii_lowercase byte
    || (not first_must_be_letter && is_ascii_digit byte)
    || (ltb 0 index && (is_ascii_digit byte || byte == b'-'))

unfoldable pub valid_lower_kebab : Text → ℕ → Bool → Bool
unfolding all_enumerated
valid_lower_kebab value maximum first_must_be_letter =
    not (is_empty value)
    && leb (length value) maximum
    && all_enumerated (lower_kebab_byte first_must_be_letter) 0 value

-- `validate_facet_id` and `validate_resource_selector` as tests.
unfoldable pub valid_facet_id : Text → Bool
unfolding valid_lower_kebab is_windows_reserved_name
valid_facet_id value = valid_lower_kebab value 32 true && not (is_windows_reserved_name value)

unfoldable pub valid_resource_selector : Text → Bool
unfolding valid_lower_kebab is_windows_reserved_name
valid_resource_selector value =
    valid_lower_kebab value 128 false && not (is_windows_reserved_name value)

abbrev pub segment_byte : ℕ → ℕ → Bool
segment_byte index byte =
    is_ascii_lowercase byte || (ltb 0 index && (is_ascii_digit byte || byte == b'-'))

unfoldable pub valid_command_segment : Text → Bool
unfolding all_enumerated is_windows_reserved_name
valid_command_segment value =
    not (is_empty value)
    && leb (length value) 64
    && all_enumerated segment_byte 0 value
    && not (is_windows_reserved_name value)

unfoldable pub valid_module_namespace : Text → Bool
unfolding valid_command_segment one_of
valid_module_namespace value =
    valid_command_segment value && not (one_of (ascii "system" ∷ ascii "module" ∷ []) value)

-- `valid_capability_name` and `valid_token`.
unfoldable pub valid_capability_name : Text → Bool
unfolding all_enumerated
valid_capability_name value =
    not (is_empty value) && leb (length value) 32 && all_enumerated segment_byte 0 value
