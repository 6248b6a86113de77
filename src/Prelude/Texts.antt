-- ===== src/Prelude/Texts.antt =====
-- Texts as lists of bytes. The program compares, measures and splits its UTF-8 strings by bytes,
-- at ASCII separators only.
use Prim.Native.Nat.{ℕ}
use Prim.Native.Char.{code}
use Prim.Native.String.{String}
use mathlib.Core.Path.{◌≡◌, refl, ap, ap₂, ◌∙◌}
use mathlib.Core.Logic.{◌↔◌, ◌≢◌}
use mathlib.Core.Bool.{Bool, true, false, ◌&&◌, ◌||◌}
use mathlib.Core.Option.{Option, none, some}
use mathlib.Core.List.{List, [], ◌∷◌, ◌++◌}
use native.Mathlib.Omega.{arith}
use swaw_kit.Prelude.Lists.{All}
use swaw_kit.Prelude.Tests.{if◌then◌else◌, ◌==◌, ==_iff, and_parts}

abbrev pub Text : Type 0
Text = List ℕ

-- An ASCII literal of the source.
abbrev pub ascii : String → Text
ascii String.[] = []
ascii (String.◌∷◌ c s) = code c ∷ ascii s

unfoldable pub text_eq : Text → Text → Bool
text_eq [] [] = true
text_eq [] (_ ∷ _) = false
text_eq (_ ∷ _) [] = false
text_eq (a ∷ s) (b ∷ t) = (a == b) && text_eq s t

text_eq_sound : (s t : Text) → text_eq s t ≡ true → s ≡ t
unfolding text_eq
text_eq_sound [] [] h = refl
text_eq_sound [] (b ∷ t) h = ground arith
text_eq_sound (a ∷ s) [] h = ground arith
text_eq_sound (a ∷ s) (b ∷ t) h =
    let (here, later) = and_parts (a == b) (text_eq s t) h in
    ap₂ (λ c r. c ∷ r) ((==_iff a b).0 here) (text_eq_sound s t later)

pub text_eq_self : (s : Text) → text_eq s s ≡ true
unfolding text_eq
text_eq_self [] = refl
text_eq_self (a ∷ s) = ground (arith, text_eq_self s)

pub text_eq_iff : (s t : Text) → (text_eq s t ≡ true) ↔ (s ≡ t)
text_eq_iff s t = (text_eq_sound s t, λ e. ground (arith, text_eq_self s))

-- `matches!(value, "a" | "b" | …)`, and `contains` on a list of texts.
unfoldable pub one_of : List Text → Text → Bool
unfolding text_eq
one_of [] s = false
one_of (t ∷ ts) s = text_eq s t || one_of ts s

-- `str::strip_prefix`.
unfoldable pub strip_prefix : Text → Text → Option Text
strip_prefix [] s = some s
strip_prefix (p ∷ ps) [] = none
strip_prefix (p ∷ ps) (c ∷ s) = let rest = strip_prefix ps s in if p == c then rest else none

pub strip_prefix-append : (p s : Text) → strip_prefix p (p ++ s) ≡ some s
unfolding strip_prefix
strip_prefix-append [] s = refl
strip_prefix-append (c ∷ p) s = ground (arith, strip_prefix-append p s)

pub append_of_strip_prefix : (p s r : Text) → strip_prefix p s ≡ some r → s ≡ p ++ r
unfolding strip_prefix
append_of_strip_prefix [] s r h = ground arith
append_of_strip_prefix (c ∷ p) [] r h = ground arith
append_of_strip_prefix (c ∷ p) (d ∷ s) r h = ground (arith, append_of_strip_prefix p s r)

-- The first piece of a split grows by a byte.
abbrev pub onto_first : ℕ → List Text → List Text
onto_first c [] = (c ∷ []) ∷ []
onto_first c (s ∷ ss) = (c ∷ s) ∷ ss

-- `str::split` at one byte.
unfoldable pub split_byte : ℕ → Text → List Text
split_byte sep [] = [] ∷ []
split_byte sep (c ∷ s) =
    let rest = split_byte sep s in if c == sep then [] ∷ rest else onto_first c rest

-- `[T]::join` with one separator byte.
unfoldable pub join_byte : ℕ → List Text → Text
join_byte sep [] = []
join_byte sep (s ∷ []) = s
join_byte sep (s ∷ t ∷ ts) = s ++ (sep ∷ join_byte sep (t ∷ ts))

-- No byte of the text is `sep`.
abbrev pub Avoids : ℕ → Text → Type 0
Avoids sep [] = Unit
Avoids sep (c ∷ s) = (c ≢ sep) × Avoids sep s

pub split_byte-ne-nil : (sep : ℕ) (s : Text) → split_byte sep s ≢ []
unfolding split_byte
split_byte-ne-nil sep [] = ground arith
split_byte-ne-nil sep (c ∷ s) = ground (arith, split_byte-ne-nil sep s)

join_byte-onto_first :
    (sep c : ℕ) (ss : List Text) → join_byte sep (onto_first c ss) ≡ c ∷ join_byte sep ss
unfolding join_byte
join_byte-onto_first sep c [] = refl
join_byte-onto_first sep c (s ∷ []) = refl
join_byte-onto_first sep c (s ∷ t ∷ ts) = refl

join_byte-cons_nil :
    (sep : ℕ) (ss : List Text) → ss ≢ [] → join_byte sep ([] ∷ ss) ≡ sep ∷ join_byte sep ss
unfolding join_byte
join_byte-cons_nil sep [] h = absurd (h refl)
join_byte-cons_nil sep (t ∷ ts) h = refl

-- Splitting loses nothing.
pub join_byte-split_byte : (sep : ℕ) (s : Text) → join_byte sep (split_byte sep s) ≡ s
unfolding split_byte
join_byte-split_byte sep [] = unfold join_byte in refl
join_byte-split_byte sep (c ∷ s) = ground (
  arith,
  join_byte-split_byte sep s,
  split_byte-ne-nil sep s,
  join_byte-cons_nil sep (split_byte sep s),
  join_byte-onto_first sep c (split_byte sep s),
)

pub split_byte_of_Avoids : (sep : ℕ) (s : Text) → Avoids sep s → split_byte sep s ≡ s ∷ []
unfolding split_byte
split_byte_of_Avoids sep [] h = refl
split_byte_of_Avoids sep (c ∷ s) h = ground (arith, split_byte_of_Avoids sep s)

pub split_byte-append :
    (sep : ℕ) (s t : Text) → Avoids sep s → split_byte sep (s ++ (sep ∷ t)) ≡ s ∷ split_byte sep t
unfolding split_byte
split_byte-append sep [] t h = ground arith
split_byte-append sep (c ∷ s) t h = ground (arith, split_byte-append sep s t)

pub Avoids-append : (sep : ℕ) (s t : Text) → Avoids sep s → Avoids sep t → Avoids sep (s ++ t)
Avoids-append sep [] t h k = k
Avoids-append sep (c ∷ s) t (p, h) k = (p, Avoids-append sep s t h k)

-- Splitting undoes joining.
pub split_byte-join_byte :
    (sep : ℕ) (s : Text) (ss : List Text)
    → Avoids sep s
    → All (Avoids sep) ss
    → split_byte sep (join_byte sep (s ∷ ss)) ≡ s ∷ ss
unfolding join_byte
split_byte-join_byte sep s [] h hs = split_byte_of_Avoids sep s h
split_byte-join_byte sep s (t ∷ ts) h (k, ks) =
    split_byte-append sep s (join_byte sep (t ∷ ts)) h
    ∙ ap (λ (r : List Text). s ∷ r) (split_byte-join_byte sep t ts k ks)

-- A text that arrives in chunks.
abbrev pub joined : List Text → Text
joined [] = []
joined (chunk ∷ chunks) = chunk ++ joined chunks
