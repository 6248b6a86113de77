-- ===== src/Protocol/Tests/Digests.antt =====
-- Revisions of concrete inputs.
use swaw_kit.Prelude.{
  ℕ, zero, suc, ◌%◌, ◌≡◌, refl, true, List, [], ◌∷◌, All, arith, length, Text, ascii,
}
use swaw_kit.Protocol.Digest.{revision, is_revision}
use swaw_kit.Protocol.Digest.Hex.{IsByte, is_revision-revision}
use swaw_kit.Protocol.Digest.Framing.{push_fields-injective}

-- A digest of 32 bytes that counts the bytes of its input.
abbrev repeated : ℕ → ℕ → Text
repeated zero byte = []
repeated (suc n) byte = byte ∷ repeated n byte

abbrev count_digest : Text → Text
count_digest s = repeated 32 (length s % 256)

repeated-IsByte : (n byte : ℕ) → IsByte byte → All IsByte (repeated n byte)
repeated-IsByte zero byte h = tt
repeated-IsByte (suc n) byte h = (h, repeated-IsByte n byte h)

is_revision-revision_example : is_revision (revision count_digest (ascii "fixture")) ≡ true
is_revision-revision_example =
    is_revision-revision count_digest (λ s. refl)
      (λ s. repeated-IsByte 32 (length s % 256) (omega arith)) (ascii "fixture")

abbrev fields : List (Text × Text)
fields = (ascii "a", ascii "bc") ∷ []

push_fields-injective_example : (ascii "fixture" ≡ ascii "fixture") × (fields ≡ fields)
push_fields-injective_example =
    push_fields-injective (ascii "fixture") (ascii "fixture") fields fields (omega arith)
      (omega arith) ((omega arith, omega arith), tt) ((omega arith, omega arith), tt) refl
