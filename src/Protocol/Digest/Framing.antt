-- ===== src/Protocol/Digest/Framing.antt =====
-- The framing of the builder's inputs.
use mathlib.Core.List.{append_assoc, append-nil}
use Prim.Native.Nat.{◌/◌}
use swaw_kit.Prelude.{
  ℕ, zero, suc, ◌<◌, ◌*◌, ◌%◌, ◌^◌, ◌≡◌, refl, sym, ap, ap₂, ◌∙◌, List, [], ◌∷◌, ◌++◌, All, arith,
  length, Text, ascii,
}
use swaw_kit.Protocol.Digest.{le_bytes, push_field, push_fields, new_builder}

-- The number of values of `n` bytes.
abbrev width : ℕ → ℕ
width zero = 1
width (suc n) = 256 * width n

-- Two texts of one length in front.
append-injective :
    (xs ys r s : Text) → length xs ≡ length ys → xs ++ r ≡ ys ++ s → (xs ≡ ys) × (r ≡ s)
append-injective [] [] r s size same = (refl, same)
append-injective [] (y ∷ ys) r s size same = absurd (ground arith)
append-injective (x ∷ xs) [] r s size same = absurd (ground arith)
append-injective (x ∷ xs) (y ∷ ys) r s size same =
    let (front, rest) = append-injective xs ys r s (ground arith) (ground arith) in
    (ground (arith, front), rest)

length-le_bytes : (n value : ℕ) → length (le_bytes n value) ≡ n
unfolding le_bytes
length-le_bytes zero value = refl
length-le_bytes (suc n) value = ap suc (length-le_bytes n (value / 256))

le_bytes-injective : (n a b : ℕ) → a < width n → b < width n → le_bytes n a ≡ le_bytes n b → a ≡ b
unfolding le_bytes
le_bytes-injective zero a b h k same = omega (arith, h, k)
le_bytes-injective (suc n) a b h k same =
    let high =
      le_bytes-injective n (a / 256) (b / 256) (omega (arith, h)) (omega (arith, k))
        (ground arith) in
    let low : a % 256 ≡ b % 256 = ground arith in omega (arith, high, low)

-- The length of the text is a `u64`.
abbrev pub FitsWord : Text → Type 0
FitsWord s = length s < 2 ^ 64

block-injective :
    (a b r s : Text)
    → FitsWord a
    → FitsWord b
    → le_bytes 8 (length a) ++ (a ++ r) ≡ le_bytes 8 (length b) ++ (b ++ s)
    → (a ≡ b) × (r ≡ s)
block-injective a b r s h k same =
    let (sizes, rest) =
      append-injective (le_bytes 8 (length a)) (le_bytes 8 (length b)) (a ++ r) (b ++ s)
        (length-le_bytes 8 (length a) ∙ sym (length-le_bytes 8 (length b))) same in
    append-injective a b r s
      (le_bytes-injective 8 (length a) (length b) (omega (arith, h)) (omega (arith, k)) sizes) rest

-- The bytes of the fields.
abbrev frames : List (Text × Text) → Text
frames [] = []
frames ((name, value) ∷ fields) =
    le_bytes 8 (length name) ++ (name ++ (le_bytes 8 (length value) ++ (value ++ frames fields)))

push_field-append :
    (name value digest rest : Text)
    → push_field name value digest ++ rest
      ≡ digest
        ++ (le_bytes 8 (length name) ++ (name ++ (le_bytes 8 (length value) ++ (value ++ rest))))
unfolding push_field
push_field-append name value digest rest =
    append_assoc (((digest ++ le_bytes 8 (length name)) ++ name) ++ le_bytes 8 (length value)) value
      rest
    ∙ append_assoc ((digest ++ le_bytes 8 (length name)) ++ name) (le_bytes 8 (length value))
        (value ++ rest)
    ∙ append_assoc (digest ++ le_bytes 8 (length name)) name _
    ∙ append_assoc digest (le_bytes 8 (length name)) _

push_fields-frames :
    (fields : List (Text × Text)) (digest : Text)
    → push_fields fields digest ≡ digest ++ frames fields
unfolding push_fields
push_fields-frames [] digest = sym (append-nil digest)
push_fields-frames ((name, value) ∷ fields) digest =
    push_fields-frames fields (push_field name value digest)
    ∙ push_field-append name value digest (frames fields)

abbrev pub FieldFits : Text × Text → Type 0
FieldFits (name, value) = FitsWord name × FitsWord value

frames-injective :
    (fields others : List (Text × Text))
    → All FieldFits fields
    → All FieldFits others
    → frames fields ≡ frames others
    → fields ≡ others
unfolding le_bytes
frames-injective [] [] h k same = refl
frames-injective [] ((name, value) ∷ others) h k same = absurd (ground arith)
frames-injective ((name, value) ∷ fields) [] h k same = absurd (ground arith)
frames-injective ((name, value) ∷ fields) ((other, content) ∷ others) ((fits, small), h)
      ((fits2, small2), k) same =
    let (names, rest) = block-injective name other _ _ fits fits2 same in
    let (values, more) = block-injective value content _ _ small small2 rest in
    ap₂ ◌∷◌ (ap₂ (λ n v. (n, v)) names values) (frames-injective fields others h k more)

-- Two builders that have been given the same bytes have the same domain and the same fields, in the
-- same order: no content of one field can pass for another field.
pub push_fields-injective :
    (domain other : Text) (fields others : List (Text × Text))
    → FitsWord domain
    → FitsWord other
    → All FieldFits fields
    → All FieldFits others
    → push_fields fields (new_builder domain) ≡ push_fields others (new_builder other)
    → (domain ≡ other) × (fields ≡ others)
unfolding push_fields
push_fields-injective domain other fields others fits fits2 h k same =
    let whole =
      frames-injective ((ascii "domain", domain) ∷ fields) ((ascii "domain", other) ∷ others)
        ((ground arith, fits), h) ((ground arith, fits2), k)
        (sym (push_fields-frames ((ascii "domain", domain) ∷ fields) [])
          ∙ same
          ∙ push_fields-frames ((ascii "domain", other) ∷ others) []) in
    ground (arith, whole)
