-- ===== src/Protocol/Identity/Address.antt =====
-- Addresses and identities: parsing and printing are inverse to one another.
use swaw_kit.Prelude.{
  ℕ, ◌≤◌, ◌≡◌, refl, sym, ap, subst, ◌∙◌, inl, inr, true, false, List, [], ◌∷◌, ◌++◌, arith, length,
  is_empty, all, All, Text, ascii, strip_prefix, append_of_strip_prefix, strip_prefix-append,
  split_byte, join_byte, Avoids, ok, Result-cases, Option, none, some, Option-cases, Bool-cases,
  and_parts, le→ltb, >>=-eq-ok, split_byte-join_byte, join_byte-split_byte, ◌>>=◌, ◌==◌,
}
use swaw_kit.Protocol.Name.{valid_command_segment}
use swaw_kit.Protocol.Name.Inclusions.{segment-Avoids, name_inclusions}
use swaw_kit.Protocol.Identity.{
  CommandSpace, system_space, module_space, CommandIdentity, address, checked_namespace,
  new_identity, parse_path, split_once, parse_module_address, parse_identity,
}

-- What `CommandIdentity::new` has checked of an identity.
pub record IsIdentity (identity : CommandIdentity) : Type 0 where
  pub placed : checked_namespace identity.space identity.namespace ≡ ok identity.namespace
  pub some_path : is_empty identity.path ≡ false
  pub named : all valid_command_segment identity.path ≡ true
  pub short : length (address identity) ≤ 256

pub new_identity_of_IsIdentity :
    (identity : CommandIdentity)
    → IsIdentity identity
    → new_identity identity.space identity.namespace identity.path ≡ ok identity
unfolding new_identity
new_identity_of_IsIdentity identity v = ground (arith, v.placed)

checked_namespace-eq-ok :
    (space : CommandSpace) (namespace checked : Option Text)
    → checked_namespace space namespace ≡ ok checked
    → checked ≡ namespace
unfolding checked_namespace
checked_namespace-eq-ok system_space none checked h = ground arith
checked_namespace-eq-ok system_space (some n) checked h = ground arith
checked_namespace-eq-ok module_space none checked h = ground arith
checked_namespace-eq-ok module_space (some n) checked h = ground arith

-- `CommandIdentity::new` returns its three arguments, checked.
pub new_identity-eq-ok :
    (space : CommandSpace) (namespace : Option Text) (path : List Text) (identity : CommandIdentity)
    → new_identity space namespace path ≡ ok identity
    → (identity ≡ record { space = space; namespace = namespace; path = path })
      × IsIdentity identity
unfolding new_identity
new_identity-eq-ok space namespace path identity h =
    elim (Result-cases (checked_namespace space namespace)) [
      | inl (checked, e) ↦
          let same = checked_namespace-eq-ok space namespace checked e in
          let placed : checked_namespace space checked ≡ ok checked = rw same (rw same at e) in
          let this : record { space = space; namespace = checked; path = path } ≡ identity =
            ground arith in
          let valid : IsIdentity (record { space = space; namespace = checked; path = path }) =
            record {
              placed = placed;
              some_path = ground arith;
              named = ground arith;
              short = ground arith;
            } in
          (
            sym this
                ∙ ap (λ (n : Option Text). record { space = space; namespace = n; path = path })
                    same,
            subst IsIdentity this valid,
          )
      | inr (x, e) ↦ absurd (ground arith)
    ]

segments-Avoid : (path : List Text) → all valid_command_segment path ≡ true → All (Avoids b'/') path
segments-Avoid [] h = tt
segments-Avoid (s ∷ path) h =
    let (here, later) = and_parts (valid_command_segment s) (all valid_command_segment path) h in
    (segment-Avoids b'/' (omega arith) (omega arith) s here, segments-Avoid path later)

join_byte-nonempty :
    (path : List Text)
    → is_empty path ≡ false
    → all valid_command_segment path ≡ true
    → is_empty (join_byte b'/' path) ≡ false
unfolding join_byte valid_command_segment
join_byte-nonempty [] e h = ground arith
join_byte-nonempty ([] ∷ path) e h = ground arith
join_byte-nonempty ((c ∷ s) ∷ []) e h = refl
join_byte-nonempty ((c ∷ s) ∷ t ∷ path) e h = refl

split_join :
    (path : List Text)
    → is_empty path ≡ false
    → all valid_command_segment path ≡ true
    → split_byte b'/' (join_byte b'/' path) ≡ path
split_join [] e h = ground arith
split_join (s ∷ path) e h =
    let (a, rest) = segments-Avoid (s ∷ path) h in split_byte-join_byte b'/' s path a rest

parse_path-join :
    (whole : Text) (path : List Text)
    → is_empty path ≡ false
    → all valid_command_segment path ≡ true
    → parse_path whole (join_byte b'/' path) ≡ ok path
unfolding parse_path
parse_path-join whole path e h = rw (join_byte-nonempty path e h, split_join path e h, h)

split_once-append :
    (sep : ℕ) (s t : Text) → Avoids sep s → split_once sep (s ++ (sep ∷ t)) ≡ some (s, t)
unfolding split_once
split_once-append sep [] t h = ground arith
split_once-append sep (c ∷ s) t h = ground (arith, split_once-append sep s t)

append_of_split_once :
    (sep : ℕ) (s a b : Text) → split_once sep s ≡ some (a, b) → s ≡ a ++ (sep ∷ b)
unfolding split_once
append_of_split_once sep [] a b h = ground arith
append_of_split_once sep (c ∷ s) a b h = elim (Bool-cases (c == sep)) [
  | inl same ↦ ground arith
  | inr other ↦ elim (Option-cases (split_once sep s)) [
    | inl missed ↦ absurd (ground arith)
    | inr ((x, y), found) ↦ ground (arith, append_of_split_once sep s x y found)
  ]
]

-- An address of a namespace does not begin with the dot of the system space.
no_dot : (s t : Text) → valid_command_segment s ≡ true → strip_prefix (ascii ".") (s ++ t) ≡ none
unfolding strip_prefix
no_dot [] t h = absurd (unfold valid_command_segment in ground arith)
no_dot (c ∷ s) t h =
    let (c-ne, _) = segment-Avoids b'.' (omega arith) (omega arith) (c ∷ s) h in ground arith

-- By the space and the namespace, so that `checked_namespace` computes.
parse_identity-address_by :
    (space : CommandSpace) (namespace : Option Text) (path : List Text)
    → let identity : CommandIdentity = record {
      space = space;
      namespace = namespace;
      path = path;
    } in
      IsIdentity identity → parse_identity (address identity) ≡ ok identity
unfolding parse_identity address
parse_identity-address_by system_space none path v =
    rw
      (
        le→ltb 256 _ v.short,
        strip_prefix-append (ascii ".") (join_byte b'/' path),
        parse_path-join (b'.' ∷ join_byte b'/' path) path v.some_path v.named,
      )
      (new_identity_of_IsIdentity _ v)
parse_identity-address_by module_space (some namespace) path v =
    let valid : valid_command_segment namespace ≡ true =
      (name_inclusions namespace).2 (unfold checked_namespace in ground (arith, v.placed)) in
    let whole = namespace ++ (b'/' ∷ join_byte b'/' path) in
    rw
      (
        le→ltb 256 _ v.short,
        no_dot namespace (b'/' ∷ join_byte b'/' path) valid,
        split_once-append b'/' namespace (join_byte b'/' path)
            (segment-Avoids b'/' (omega arith) (omega arith) namespace valid),
      )
      (unfold parse_module_address in
        rw (parse_path-join whole path v.some_path v.named, new_identity_of_IsIdentity _ v))
parse_identity-address_by system_space (some _) path v =
    absurd (unfold checked_namespace in ground (arith, v.placed))
parse_identity-address_by module_space none path v =
    absurd (unfold checked_namespace in ground (arith, v.placed))

-- The address of a valid identity parses to that identity.
pub parse_identity-address :
    (identity : CommandIdentity)
    → IsIdentity identity
    → parse_identity (address identity) ≡ ok identity
parse_identity-address identity v =
    parse_identity-address_by identity.space identity.namespace identity.path v

parse_path-eq-ok :
    (whole rest : Text) (path : List Text)
    → parse_path whole rest ≡ ok path
    → join_byte b'/' path ≡ rest
unfolding parse_path
parse_path-eq-ok whole rest path h =
    let split : path ≡ split_byte b'/' rest = ground arith in
    ap (join_byte b'/') split ∙ join_byte-split_byte b'/' rest

system-eq-ok :
    (whole rest : Text) (identity : CommandIdentity)
    → (parse_path whole rest >>= new_identity system_space none) ≡ ok identity
    → (address identity ≡ b'.' ∷ rest) × IsIdentity identity
system-eq-ok whole rest identity h =
    let (path, parsed, made) =
      >>=-eq-ok (parse_path whole rest) (new_identity system_space none) h in
    let (same, v) = new_identity-eq-ok system_space none path identity made in
    (
      ap address same
          ∙ unfold address in ap (λ (r : Text). b'.' ∷ r) (parse_path-eq-ok whole rest path parsed),
      v,
    )

module-eq-ok :
    (whole namespace rest : Text) (identity : CommandIdentity)
    → parse_module_address whole (some (namespace, rest)) ≡ ok identity
    → (address identity ≡ namespace ++ (b'/' ∷ rest)) × IsIdentity identity
unfolding parse_module_address
module-eq-ok whole namespace rest identity h =
    let (path, parsed, made) = >>=-eq-ok (parse_path whole rest) _ h in
    let new : new_identity module_space (some namespace) path ≡ ok identity = ground arith in
    let (same, v) = new_identity-eq-ok module_space (some namespace) path identity new in
    (
      ap address same
          ∙ unfold address in
            ap (λ (r : Text). namespace ++ (b'/' ∷ r)) (parse_path-eq-ok whole rest path parsed),
      v,
    )

-- Whatever parses has that very address, and is valid.
pub address-parse_identity :
    (whole : Text) (identity : CommandIdentity)
    → parse_identity whole ≡ ok identity
    → (address identity ≡ whole) × IsIdentity identity
unfolding parse_identity
address-parse_identity whole identity h = elim (Option-cases (strip_prefix (ascii ".") whole)) [
  | inr (rest, dot) ↦
      let (printed, v) = system-eq-ok whole rest identity (ground arith) in
      (printed ∙ sym (append_of_strip_prefix (ascii ".") whole rest dot), v)
  | inl plain ↦ elim (Option-cases (split_once b'/' whole)) [
    | inl missed ↦ absurd (unfold parse_module_address in ground arith)
    | inr ((namespace, rest), found) ↦
        let (printed, v) = module-eq-ok whole namespace rest identity (ground arith) in
        (printed ∙ sym (append_of_split_once b'/' whole namespace rest found), v)
  ]
]
