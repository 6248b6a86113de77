-- ===== src/Protocol/Name/Bytes.antt =====
-- What the bytes of a valid name can be, and how the kinds of names include one another.
use swaw_kit.Prelude.{
  ℕ, suc, ◌<◌, ◌≡◌, ◌≢◌, refl, Bool, true, false, [], ◌∷◌, ◌⊎◌, arith, Text, Avoids, and_parts,
}
use swaw_kit.Protocol.Name.{
  all_enumerated, lower_kebab_byte, valid_facet_id, valid_resource_selector,
}

-- A byte test that never accepts `sep` keeps `sep` out of the text.
pub Avoids-of_all_enumerated :
    (p : ℕ → ℕ → Bool) (sep i : ℕ) (s : Text)
    → ((j c : ℕ) → p j c ≡ true → c ≢ sep)
    → all_enumerated p i s ≡ true
    → Avoids sep s
unfolding all_enumerated
Avoids-of_all_enumerated p sep i [] keep h = tt
Avoids-of_all_enumerated p sep i (c ∷ s) keep h =
    let (here, later) = and_parts (p i c) (all_enumerated p (suc i) s) h in
    (keep i c here, Avoids-of_all_enumerated p sep (suc i) s keep later)

-- One byte test implies another.
pub all_enumerated_mono :
    (p q : ℕ → ℕ → Bool) (i : ℕ) (s : Text)
    → ((j c : ℕ) → p j c ≡ true → q j c ≡ true)
    → all_enumerated p i s ≡ true
    → all_enumerated q i s ≡ true
unfolding all_enumerated
all_enumerated_mono p q i [] keep h = refl
all_enumerated_mono p q i (c ∷ s) keep h =
    let (here, later) = and_parts (p i c) (all_enumerated p (suc i) s) h in
    ground (arith, keep i c here, all_enumerated_mono p q (suc i) s keep later)

kebab_ne_sep :
    (first : Bool) (sep j c : ℕ)
    → 46 < sep
    → sep < 97
    → (sep < 48) ⊎ (57 < sep)
    → lower_kebab_byte first j c ≡ true
    → c ≢ sep
kebab_ne_sep first sep j c lo hi out h = ground arith

module _ {sep : ℕ} (lo : 46 < sep) (hi : sep < 97) (out : (sep < 48) ⊎ (57 < sep)) where
  -- Facet ids and selectors hold neither `/` nor `:`.
  pub facet_id-Avoids : (s : Text) → valid_facet_id s ≡ true → Avoids sep s
  unfolding valid_facet_id
  facet_id-Avoids s h =
      Avoids-of_all_enumerated (lower_kebab_byte true) sep 0 s
        (λ j c. kebab_ne_sep true sep j c lo hi out) (ground arith)

  pub selector-Avoids : (s : Text) → valid_resource_selector s ≡ true → Avoids sep s
  unfolding valid_resource_selector
  selector-Avoids s h =
      Avoids-of_all_enumerated (lower_kebab_byte false) sep 0 s
        (λ j c. kebab_ne_sep false sep j c lo hi out) (ground arith)
