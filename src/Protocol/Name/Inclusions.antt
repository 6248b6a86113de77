-- ===== src/Protocol/Name/Inclusions.antt =====
-- How the kinds of portable names include one another.
use swaw_kit.Prelude.{ℕ, ◌<◌, ◌≡◌, ◌≢◌, Bool, true, false, arith, Text, Avoids}
use swaw_kit.Protocol.Name.{
  lower_kebab_byte, segment_byte, valid_facet_id, valid_resource_selector, valid_command_segment,
  valid_module_namespace,
}
use swaw_kit.Protocol.Name.Bytes.{Avoids-of_all_enumerated, all_enumerated_mono}

segment→kebab :
    (first : Bool) (j c : ℕ) → segment_byte j c ≡ true → lower_kebab_byte first j c ≡ true
segment→kebab first j c h = ground arith

facet→selector_byte :
    (j c : ℕ) → lower_kebab_byte true j c ≡ true → lower_kebab_byte false j c ≡ true
facet→selector_byte j c h = ground arith

segment_ne_sep : (sep j c : ℕ) → sep < 48 → sep ≢ 45 → segment_byte j c ≡ true → c ≢ sep
segment_ne_sep sep j c lo ne h = ground arith

-- Every facet id and every command segment may stand as a resource selector, and every module
-- namespace is a command segment.
pub name_inclusions :
    (s : Text)
    → (valid_facet_id s ≡ true → valid_resource_selector s ≡ true)
      × (valid_command_segment s ≡ true → valid_resource_selector s ≡ true)
      × (valid_module_namespace s ≡ true → valid_command_segment s ≡ true)
unfolding valid_facet_id valid_resource_selector valid_command_segment valid_module_namespace
name_inclusions s = (
  λ h. ground (
    arith,
    all_enumerated_mono (lower_kebab_byte true) (lower_kebab_byte false) 0 s facet→selector_byte,
  ),
  λ h.
      ground (
        arith,
        all_enumerated_mono segment_byte (lower_kebab_byte false) 0 s (segment→kebab false),
      ),
  λ h. ground arith,
)

pub segment-Avoids :
    (sep : ℕ) → sep < 48 → sep ≢ 45 → (s : Text) → valid_command_segment s ≡ true → Avoids sep s
unfolding valid_command_segment
segment-Avoids sep lo ne s h =
    Avoids-of_all_enumerated segment_byte sep 0 s (λ j c. segment_ne_sep sep j c lo ne)
      (ground arith)
