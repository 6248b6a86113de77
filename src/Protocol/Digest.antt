-- ===== src/Protocol/Digest.antt =====
-- Revisions and the builder of framed digests (_lib/proj/_protocol/src/digest.rs).
--
-- SHA-256 is the argument `sha256`; the hasher is the bytes that it has been given.
pub mod Framing
pub mod Hex
use Prim.Native.Nat.{◌/◌}
use swaw_kit.Prelude.{
  ℕ, zero, suc, ◌+◌, ◌-◌, ◌%◌, Bool, true, false, ◌&&◌, ◌||◌, Option, none, some, List, [], ◌∷◌,
  ◌++◌, ltb, leb, ◌==◌, length, if◌then◌else◌, Text, ascii, strip_prefix,
}

abbrev pub revision_prefix : Text
revision_prefix = ascii "sha256-"

abbrev pub hex_digit : ℕ → ℕ
hex_digit d = if ltb d 10 then b'0' + d else b'a' + (d - 10)

-- `{:x}` of a digest.
unfoldable pub lower_hex : Text → Text
lower_hex [] = []
lower_hex (byte ∷ bytes) = hex_digit (byte / 16) ∷ hex_digit (byte % 16) ∷ lower_hex bytes

abbrev pub sha256_hex : (Text → Text) → Text → Text
sha256_hex sha256 bytes = lower_hex (sha256 bytes)

abbrev pub revision : (Text → Text) → Text → Text
revision sha256 bytes = revision_prefix ++ sha256_hex sha256 bytes

abbrev pub is_hex_byte : ℕ → Bool
is_hex_byte byte = (leb b'0' byte && leb byte b'9') || (leb b'a' byte && leb byte b'f')

unfoldable pub all_hex : Text → Bool
all_hex [] = true
all_hex (byte ∷ bytes) = is_hex_byte byte && all_hex bytes

unfoldable pub is_sha256 : Text → Bool
is_sha256 value = (length value == 64) && all_hex value

abbrev pub is_some_sha256 : Option Text → Bool
is_some_sha256 none = false
is_some_sha256 (some value) = is_sha256 value

unfoldable pub is_revision : Text → Bool
is_revision value = is_some_sha256 (strip_prefix revision_prefix value)

-- The `n` low bytes of a number, the lowest first.
unfoldable pub le_bytes : ℕ → ℕ → Text
le_bytes zero value = []
le_bytes (suc n) value = (value % 256) ∷ le_bytes n (value / 256)

-- `push_length`: the length as a `u64`.
abbrev pub push_length : ℕ → Text → Text
push_length size digest = digest ++ le_bytes 8 size

-- `RevisionBuilder::push`.
unfoldable pub push_field : Text → Text → Text → Text
push_field name value digest =
    push_length (length value) (push_length (length name) digest ++ name) ++ value

-- `RevisionBuilder::new`.
abbrev pub new_builder : Text → Text
new_builder domain = push_field (ascii "domain") domain []

-- `RevisionBuilder::finish`.
abbrev pub finish_revision : (Text → Text) → Text → Text
finish_revision sha256 digest = revision_prefix ++ lower_hex (sha256 digest)

-- The calls of `push` in turn.
unfoldable pub push_fields : List (Text × Text) → Text → Text
push_fields [] digest = digest
push_fields ((name, value) ∷ fields) digest = push_fields fields (push_field name value digest)
