-- ===== src/Runtime/Tests/Invocations.antt =====
-- Invocations within and over the limits.
use swaw_kit.Prelude.{◌≡◌, refl, [], ◌∷◌, ascii, ok, err}
use swaw_kit.Runtime.Invocation.{
  validate_invocation, contains_nul, empty_address, IsBounded, validate_invocation-IsBounded,
}

echo_hi : validate_invocation (ascii "/:echo") (ascii "hi" ∷ (128512 ∷ []) ∷ []) ≡ ok tt
unfolding validate_invocation
echo_hi = refl

nul_argument : validate_invocation (ascii "/:echo") ((0 ∷ []) ∷ []) ≡ err contains_nul
unfolding validate_invocation
nul_argument = refl

no_address : validate_invocation [] ((0 ∷ []) ∷ []) ≡ err empty_address
unfolding validate_invocation
no_address = refl

validate_invocation-IsBounded_example : IsBounded (ascii "/:echo") (ascii "hi" ∷ (128512 ∷ []) ∷ [])
validate_invocation-IsBounded_example =
    validate_invocation-IsBounded (ascii "/:echo") (ascii "hi" ∷ (128512 ∷ []) ∷ []) echo_hi
