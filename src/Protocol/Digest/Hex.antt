-- ===== src/Protocol/Digest/Hex.antt =====
-- The text of a digest.
use Prim.Native.Nat.{◌/◌}
use swaw_kit.Prelude.{
  ℕ, ◌<◌, ◌*◌, ◌%◌, ◌≡◌, refl, ap, ◌∙◌, true, [], ◌∷◌, All, arith, ◌==◌, length, Text,
  strip_prefix-append,
}
use swaw_kit.Protocol.Digest.{
  lower_hex, hex_digit, is_hex_byte, all_hex, is_sha256, is_some_sha256, is_revision, revision,
  revision_prefix,
}

abbrev pub IsByte : ℕ → Type 0
IsByte byte = byte < 256

hex_digit-hex : (d : ℕ) → d < 16 → is_hex_byte (hex_digit d) ≡ true
hex_digit-hex d small = ground arith

lower_hex-hex : (bytes : Text) → All IsByte bytes → all_hex (lower_hex bytes) ≡ true
unfolding lower_hex all_hex
lower_hex-hex [] h = refl
lower_hex-hex (byte ∷ bytes) (small, h) =
    let high = hex_digit-hex (byte / 16) (omega (arith, small)) in
    let low = hex_digit-hex (byte % 16) (omega arith) in
    ground (arith, high, low, lower_hex-hex bytes h)

length-lower_hex : (bytes : Text) → length (lower_hex bytes) ≡ 2 * length bytes
unfolding lower_hex
length-lower_hex [] = omega arith
length-lower_hex (byte ∷ bytes) = omega (arith, length-lower_hex bytes)

-- The revision of every content is accepted as one, if a digest is 32 bytes.
pub is_revision-revision :
    (sha256 : Text → Text)
    → ((s : Text) → length (sha256 s) ≡ 32)
    → ((s : Text) → All IsByte (sha256 s))
    → (bytes : Text) → is_revision (revision sha256 bytes) ≡ true
unfolding is_revision is_sha256
is_revision-revision sha256 sized small bytes =
    let size : (length (lower_hex (sha256 bytes)) == 64) ≡ true =
      ground (arith, length-lower_hex (sha256 bytes), sized bytes) in
    ap is_some_sha256 (strip_prefix-append revision_prefix (lower_hex (sha256 bytes)))
    ∙ ground (arith, size, lower_hex-hex (sha256 bytes) (small bytes))
