-- ===== src/Protocol/Identity/DataRoots.antt =====
-- Data roots: commands do not share them, and none lies in the native root of another.
use mathlib.Core.List.{append_assoc}
use swaw_kit.Prelude.{
  ◌≡◌, refl, sym, ap, ap₂, subst, ◌∙◌, ◌≢◌, ◌↔◌, Bool, true, false, List, [], ◌∷◌, ◌++◌, arith,
  length, length-append, all, ltb, Text, ascii, text_eq, text_eq_iff, text_eq_self, ok, Option,
  none, some, and_parts,
}
use swaw_kit.Protocol.Name.{valid_command_segment, valid_module_namespace}
use swaw_kit.Protocol.Identity.{
  CommandSpace, system_space, module_space, CommandIdentity, checked_namespace, is_true_ancestor_of,
  starts_with_path, command_data_root, native_command_root, same_space, same_namespace,
  root_segment,
}
use swaw_kit.Protocol.Identity.Address.{IsIdentity}

append_left_cancel {ℓ} : {A : Type ℓ} (xs : List A) {ys zs : List A} → xs ++ ys ≡ xs ++ zs → ys ≡ zs
append_left_cancel [] h = h
append_left_cancel (x ∷ xs) h = append_left_cancel xs (cc)

not_system : (n : Text) → valid_module_namespace n ≡ true → ascii "system" ≢ n
unfolding valid_module_namespace
not_system n v e = ground (arith, text_eq_iff n (ascii "system"))

same_root_by :
    (s t : CommandSpace) (m n : Option Text) (p q d : List Text)
    → checked_namespace s m ≡ ok m
    → checked_namespace t n ≡ ok n
    → command_data_root d (record { space = s; namespace = m; path = p })
      ≡ command_data_root d (record { space = t; namespace = n; path = q })
    → ◌≡◌ {A = CommandIdentity}
        (record { space = s; namespace = m; path = p })
        (record { space = t; namespace = n; path = q })
unfolding command_data_root checked_namespace
same_root_by system_space system_space none none p q d v w h =
    let tails = append_left_cancel d h in cc
same_root_by module_space module_space (some m) (some n) p q d v w h =
    let tails = append_left_cancel d h in cc
same_root_by system_space module_space none (some n) p q d v w h =
    let tails = append_left_cancel d h in absurd (not_system n (ground arith) (cc))
same_root_by module_space system_space (some m) none p q d v w h =
    let tails = append_left_cancel d h in absurd (not_system m (ground arith) (cc))
same_root_by system_space _ (some _) _ p q d v w h = cc
same_root_by module_space _ none _ p q d v w h = cc
same_root_by _ system_space _ (some _) p q d v w h = cc
same_root_by _ module_space _ none p q d v w h = cc

-- Two valid identities with one data root are one identity.
pub command_data_root_injective :
    (data_root : List Text) (left right : CommandIdentity)
    → IsIdentity left
    → IsIdentity right
    → command_data_root data_root left ≡ command_data_root data_root right
    → left ≡ right
command_data_root_injective data_root left right v w h =
    same_root_by left.space right.space left.namespace right.namespace left.path right.path
      data_root v.placed w.placed h

native_invalid : valid_command_segment (ascii "_native") ≡ false
unfolding valid_command_segment
native_invalid = refl

all_middle :
    (p : Text → Bool) (xs : List Text) (y : Text) (zs : List Text)
    → all p (xs ++ y ∷ zs) ≡ true
    → p y ≡ true
all_middle p [] y zs h = (and_parts (p y) (all p zs) h).0
all_middle p (x ∷ xs) y zs h = all_middle p xs y zs (and_parts (p x) (all p (xs ++ y ∷ zs)) h).1

-- No data root of a valid identity is the native root of any command, nor lies below it.
pub native_command_root-ne-data_root :
    (data_root below : List Text) (owner command : CommandIdentity)
    → IsIdentity command
    → native_command_root data_root owner ++ below ≢ command_data_root data_root command
unfolding native_command_root command_data_root
native_command_root-ne-data_root d below owner command v h =
    let tails = append_left_cancel d ((simp append_assoc at h)) in
    let paths : owner.path ++ ascii "_native" ∷ below ≡ command.path = cc (tails) in
    let bad =
      all_middle valid_command_segment owner.path (ascii "_native") below
        (subst (λ (ss : List Text). all valid_command_segment ss ≡ true) (sym paths) v.named) in
    cc (bad, native_invalid)

starts_with_path-append : (p q : List Text) → starts_with_path p (p ++ q) ≡ true
unfolding starts_with_path
starts_with_path-append [] q = refl
starts_with_path-append (s ∷ p) q = ground (arith, text_eq_self s, starts_with_path-append p q)

rest_of_starts_with_path :
    (p q : List Text) → starts_with_path p q ≡ true → (r : List Text) × (q ≡ p ++ r)
unfolding starts_with_path
rest_of_starts_with_path [] q h = (q, refl)
rest_of_starts_with_path (s ∷ p) [] h = absurd (ground arith)
rest_of_starts_with_path (s ∷ p) (t ∷ q) h =
    let (here, later) = and_parts (text_eq s t) (starts_with_path p q) h in
    let (r, e) = rest_of_starts_with_path p q later in
    (r, ap₂ (λ (x : Text) (y : List Text). x ∷ y) (sym ((text_eq_iff s t).0 here)) e)

same_space_iff : (s t : CommandSpace) → (same_space s t ≡ true) ↔ (s ≡ t)
same_space_iff system_space system_space = ground arith
same_space_iff system_space module_space = ground arith
same_space_iff module_space system_space = ground arith
same_space_iff module_space module_space = ground arith

same_namespace_iff : (m n : Option Text) → (same_namespace m n ≡ true) ↔ (m ≡ n)
same_namespace_iff none none = ground arith
same_namespace_iff none (some n) = ground arith
same_namespace_iff (some m) none = ground arith
same_namespace_iff (some m) (some n) =
    (λ h. ap some ((text_eq_iff m n).0 h), λ h. (text_eq_iff m n).1 (cc))

-- `is_true_ancestor_of` is a strict extension of the path in one space and namespace.
pub true_ancestor_path :
    (owner command : CommandIdentity)
    → is_true_ancestor_of owner command ≡ true
    → (s : Text) × (rest : List Text) × (command.path ≡ owner.path ++ s ∷ rest)
      × (owner.space ≡ command.space)
      × (owner.namespace ≡ command.namespace)
unfolding is_true_ancestor_of
true_ancestor_path owner command h =
    let space : same_space owner.space command.space ≡ true = ground arith in
    let namespace : same_namespace owner.namespace command.namespace ≡ true = ground arith in
    let shorter : ltb (length owner.path) (length command.path) ≡ true = ground arith in
    let prefix : starts_with_path owner.path command.path ≡ true = ground arith in
    let (r, e) = rest_of_starts_with_path owner.path command.path prefix in
    go r e shorter ((same_space_iff owner.space command.space).0 space)
      ((same_namespace_iff owner.namespace command.namespace).0 namespace)
  where
    go :
        (r : List Text)
        → command.path ≡ owner.path ++ r
        → ltb (length owner.path) (length command.path) ≡ true
        → owner.space ≡ command.space
        → owner.namespace ≡ command.namespace
        → (s : Text) × (rest : List Text) × (command.path ≡ owner.path ++ s ∷ rest)
          × (owner.space ≡ command.space)
          × (owner.namespace ≡ command.namespace)
    go [] e shorter p q = absurd (ground (arith, ap length e, length-append {0} owner.path []))
    go (s ∷ rest) e shorter p q = (s, rest, e, p, q)

-- The data root of a command lies strictly below that of each true ancestor.
pub data_root_below_ancestor :
    (data_root : List Text) (owner command : CommandIdentity)
    → is_true_ancestor_of owner command ≡ true
    → (s : Text) × (rest : List Text) × (command_data_root data_root command
        ≡ command_data_root data_root owner ++ s ∷ rest)
unfolding command_data_root
data_root_below_ancestor d owner command h =
    let (s, rest, path, space, namespace) = true_ancestor_path owner command h in
    (
      s,
      rest,
      ap₂ (λ (r : Text) (p : List Text). d ++ (ascii "modules" ∷ r ∷ p))
            (ap₂ root_segment (sym space) (sym namespace)) path
          ∙ (sym (
              append_assoc d
                (ascii "modules" ∷ root_segment owner.space owner.namespace ∷ owner.path)
                (s ∷ rest))),
    )
