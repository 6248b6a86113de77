-- ===== src/Runtime/Invocation.antt =====
-- The limits of an invocation (_lib/proj/_app/src/runtime_service/model.rs, validate_invocation).
--
-- The strings are lists of code points here, since the limits count UTF-16 code units.
use swaw_kit.Prelude.{
  if◌then◌else◌, ℕ, ◌+◌, ◌*◌, ◌≤◌, ◌≡◌, ◌≢◌, Bool, false, ◌||◌, List, [], ◌∷◌, arith, ltb, ◌==◌,
  any, is_empty, length, All, Result, ok, err,
}

abbrev max_argument_count : ℕ
max_argument_count = 128

abbrev max_argument_utf16 : ℕ
max_argument_utf16 = 4096

abbrev max_command_utf16 : ℕ
max_command_utf16 = 8192

-- The messages of `validate_invocation`.
pub data InvocationError : Type 0 where
  empty_address too_many_arguments contains_nul argument_too_long invocation_too_long :
      InvocationError

-- `char::len_utf16`.
abbrev pub utf16_units : ℕ → ℕ
utf16_units c = if ltb 65535 c then 2 else 1

-- `value.encode_utf16().count()`.
abbrev pub utf16_length : List ℕ → ℕ
utf16_length [] = 0
utf16_length (c ∷ s) = utf16_units c + utf16_length s

abbrev pub contains_nul_char : List ℕ → Bool
contains_nul_char s = any (λ c. c == 0) s

abbrev pub total_utf16 : List (List ℕ) → ℕ
total_utf16 [] = 0
total_utf16 (s ∷ ss) = utf16_length s + total_utf16 ss

unfoldable pub validate_invocation : List ℕ → List (List ℕ) → Result InvocationError (Unit {0})
validate_invocation address arguments =
    if is_empty address
    then err empty_address
    else (if ltb max_argument_count (length arguments)
        then err too_many_arguments
        else (if contains_nul_char address || any contains_nul_char arguments
            then err contains_nul
            else (if ltb max_argument_utf16 (utf16_length address)
                  || any (λ s. ltb max_argument_utf16 (utf16_length s)) arguments
                then err argument_too_long
                else (if ltb max_command_utf16 (utf16_length address + total_utf16 arguments)
                    then err invocation_too_long
                    else ok tt))))

-- `char::len_utf8`.
abbrev utf8_units : ℕ → ℕ
utf8_units c = if ltb 65535 c then 4 else if ltb 2047 c then 3 else if ltb 127 c then 2 else 1

-- The length of a string in bytes.
abbrev pub utf8_length : List ℕ → ℕ
utf8_length [] = 0
utf8_length (c ∷ s) = utf8_units c + utf8_length s

abbrev pub total_utf8 : List (List ℕ) → ℕ
total_utf8 [] = 0
total_utf8 (s ∷ ss) = utf8_length s + total_utf8 ss

utf8_units-le : (c : ℕ) → utf8_units c ≤ 3 * utf16_units c
utf8_units-le c = ground arith

utf8_length-le : (s : List ℕ) → utf8_length s ≤ 3 * utf16_length s
utf8_length-le [] = omega arith
utf8_length-le (c ∷ s) = omega (arith, utf8_units-le c, utf8_length-le s)

total_utf8-le : (ss : List (List ℕ)) → total_utf8 ss ≤ 3 * total_utf16 ss
total_utf8-le [] = omega arith
total_utf8-le (s ∷ ss) = omega (arith, utf8_length-le s, total_utf8-le ss)

-- No argument has a NUL character.
abbrev pub NulFree : List ℕ → Type 0
NulFree s = All (λ (c : ℕ). c ≢ 0) s

nul_free : (s : List ℕ) → contains_nul_char s ≡ false → NulFree s
nul_free [] h = tt
nul_free (c ∷ s) h = (λ e. ground (arith, e), nul_free s (ground arith))

All-NulFree : (ss : List (List ℕ)) → any contains_nul_char ss ≡ false → All NulFree ss
All-NulFree [] h = tt
All-NulFree (s ∷ ss) h = (nul_free s (ground arith), All-NulFree ss (ground arith))

-- What an accepted invocation hands to the operating system: a command line without NUL
-- characters, of at most 129 strings and 24576 bytes.
pub record IsBounded (address : List ℕ) (arguments : List (List ℕ)) : Type 0 where
  pub named : address ≢ []
  pub count : length arguments ≤ 128
  pub address_free : NulFree address
  pub arguments_free : All NulFree arguments
  pub units : utf16_length address + total_utf16 arguments ≤ 8192
  pub bytes : utf8_length address + total_utf8 arguments ≤ 24576

-- An accepted invocation names a command, has at most 128 arguments, no NUL character, and at most
-- 8192 UTF-16 code units and 24576 UTF-8 bytes.
pub validate_invocation-IsBounded :
    (address : List ℕ) (arguments : List (List ℕ))
    → validate_invocation address arguments ≡ ok tt
    → IsBounded address arguments
unfolding validate_invocation
validate_invocation-IsBounded address arguments h =
    let units : utf16_length address + total_utf16 arguments ≤ 8192 = ground arith in
    record {
      named = λ e. ground (arith, e);
      count = ground arith;
      address_free = nul_free address (ground arith);
      arguments_free = All-NulFree arguments (ground arith);
      units = units;
      bytes = omega (arith, units, utf8_length-le address, total_utf8-le arguments);
    }
