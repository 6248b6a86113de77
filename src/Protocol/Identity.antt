-- ===== src/Protocol/Identity.antt =====
-- Canonical command identities and their addresses, `.path/…` and `namespace/path/…`
-- (_lib/proj/_protocol/src/command_identity.rs), and their resource routes
-- (`command_resource_route` of resource_route.rs).
pub mod Address
pub mod Routes
pub mod DataRoots
use swaw_kit.Prelude.{
  ℕ, ◌+◌, ◌≡◌, Bool, true, false, not, ◌&&◌, ◌||◌, Option, none, some, List, [], ◌∷◌, ◌++◌, ltb,
  leb, ◌==◌, length, is_empty, all, if◌then◌else◌, Text, ascii, text_eq, strip_prefix, split_byte,
  join_byte, Result, ok, err, ◌>>=◌, ◌>>◌, reject_if, require, or_err,
}
use swaw_kit.Protocol.Error.{
  ProtocolError, ProtocolResult, invalid_identity_path, incompatible_namespace, identity_too_long,
  invalid_address,
}
use swaw_kit.Protocol.Name.{valid_command_segment, valid_module_namespace}
use swaw_kit.Protocol.Route.{ResourceRoute, root, child}

abbrev pub max_command_address_bytes : ℕ
max_command_address_bytes = 256

pub data CommandSpace : Type 0 where
  system_space module_space : CommandSpace

pub record CommandIdentity : Type 0 where
  pub space : CommandSpace
  pub namespace : Option Text
  pub path : List Text

-- `expect` on a namespace that `CommandIdentity::new` has put there.
abbrev pub namespace_text : Option Text → Text
namespace_text none = []
namespace_text (some namespace) = namespace

abbrev address_in : CommandSpace → Option Text → List Text → Text
address_in system_space namespace path = b'.' ∷ join_byte b'/' path
address_in module_space namespace path = namespace_text namespace ++ (b'/' ∷ join_byte b'/' path)

unfoldable pub address : CommandIdentity → Text
address identity = address_in identity.space identity.namespace identity.path

-- The `match` on space and namespace in `CommandIdentity::new`.
unfoldable pub checked_namespace : CommandSpace → Option Text → ProtocolResult (Option Text)
checked_namespace system_space none = ok none
checked_namespace system_space (some _) = err incompatible_namespace
checked_namespace module_space none = err incompatible_namespace
checked_namespace module_space (some value) =
    if valid_module_namespace value then ok (some value) else err incompatible_namespace

unfoldable pub new_identity :
    CommandSpace → Option Text → List Text → ProtocolResult CommandIdentity
new_identity space namespace path = do
  reject_if (is_empty path || not (all valid_command_segment path)) invalid_identity_path
  checked ← checked_namespace space namespace
  let identity : CommandIdentity = record { space = space; namespace = checked; path = path }
  reject_if (ltb max_command_address_bytes (length (address identity))) identity_too_long
  ok identity

unfoldable pub parse_path : Text → Text → ProtocolResult (List Text)
parse_path whole path = do
  reject_if (is_empty path || not (all valid_command_segment (split_byte b'/' path)))
      (invalid_address whole)
  ok (split_byte b'/' path)

-- `str::split_once` at a byte.
unfoldable pub split_once : ℕ → Text → Option (Text × Text)
split_once sep [] = none
split_once sep (c ∷ s) =
    let rest = split_once sep s in
    if c == sep then some ([], s) else elim rest [ none ↦ none | some (a, b) ↦ some (c ∷ a, b) ]

unfoldable pub parse_module_address : Text → Option (Text × Text) → ProtocolResult CommandIdentity
parse_module_address whole none = err (invalid_address whole)
parse_module_address whole (some (namespace, rest)) = do
  path ← parse_path whole rest
  or_err (new_identity module_space (some namespace) path) (invalid_address whole)

unfoldable pub parse_identity : Text → ProtocolResult CommandIdentity
parse_identity whole = do
  reject_if (ltb max_command_address_bytes (length whole)) (invalid_address whole)
  elim (strip_prefix (ascii ".") whole) [
    | some rest ↦ (do path ← parse_path whole rest; new_identity system_space none path)
    | none ↦ parse_module_address whole (split_once b'/' whole)
  ]

abbrev pub same_space : CommandSpace → CommandSpace → Bool
same_space system_space system_space = true
same_space module_space module_space = true
same_space _ _ = false

abbrev pub same_namespace : Option Text → Option Text → Bool
same_namespace none none = true
same_namespace (some a) (some b) = text_eq a b
same_namespace _ _ = false

-- `[T]::starts_with` on texts.
unfoldable pub starts_with_path : List Text → List Text → Bool
starts_with_path [] path = true
starts_with_path (p ∷ prefix) [] = false
starts_with_path (p ∷ prefix) (s ∷ path) = text_eq p s && starts_with_path prefix path

unfoldable pub is_true_ancestor_of : CommandIdentity → CommandIdentity → Bool
is_true_ancestor_of owner command =
    same_space owner.space command.space
    && same_namespace owner.namespace command.namespace
    && ltb (length owner.path) (length command.path)
    && starts_with_path owner.path command.path

-- The segments below the data root of an entry: `command_data_root`, `native_command_root`.
abbrev pub root_segment : CommandSpace → Option Text → Text
root_segment system_space namespace = ascii "system"
root_segment module_space namespace = namespace_text namespace

unfoldable pub command_data_root : List Text → CommandIdentity → List Text
command_data_root data_root identity =
    data_root ++ (ascii "modules" ∷ root_segment identity.space identity.namespace ∷ identity.path)

unfoldable pub native_command_root : List Text → CommandIdentity → List Text
native_command_root data_root identity =
    command_data_root data_root identity ++ ascii "_native" ∷ []

-- The loop of `command_resource_route` over the segments left.
unfoldable pub subcommand_route : ResourceRoute → List Text → ProtocolResult ResourceRoute
subcommand_route reference [] = ok reference
subcommand_route reference (segment ∷ segments) = do
  longer ← child reference (ascii "subcommands") segment
  subcommand_route longer segments

-- On an empty path, which no identity has, the source panics; here the system route is refused.
abbrev pub route_in : CommandSpace → Option Text → List Text → ProtocolResult ResourceRoute
route_in system_space namespace [] = err invalid_identity_path
route_in system_space namespace (segment ∷ segments) = do
  first ← child root (ascii "system") segment
  subcommand_route first segments
route_in module_space namespace segments = do
  first ← child root (ascii "modules") (namespace_text namespace)
  subcommand_route first segments

unfoldable pub command_resource_route : CommandIdentity → ProtocolResult ResourceRoute
command_resource_route command = route_in command.space command.namespace command.path
