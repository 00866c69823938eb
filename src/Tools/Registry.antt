-- ===== src/Tools/Registry.antt =====
-- crates/tools/src/registry.rs: the registered tools and which of them are enabled. `T` is a tool.
use signal_bot_tee.Common.{
  String, Bool, true, Option, none, List, [], ◌∷◌, is_some, if◌then◌else◌, ◌≡◌, refl, sym, str_eq,
  ◌||◌, ap, ◌∙◌, arith, eq_iff, Bool-cases, inl, inr,
}
use signal_bot_tee.Common.Table
use signal_bot_tee.Common.Table.{Table, get-put}
use signal_bot_tee.Common.StringSet
use signal_bot_tee.Common.StringSet.{StringSet}

pub record ToolRegistry (T : Type 0) : Type 0 where
  pub tools : Table T
  pub enabled : StringSet

abbrev pub empty_registry : {T : Type 0} → ToolRegistry T
empty_registry = record { tools = []; enabled = [] }

module _ {T : Type 0} where
  -- `register`, of a tool with its name
  unfoldable pub register : String → T → ToolRegistry T → ToolRegistry T
  register name tool r = record {
    tools = Table.put name tool r.tools;
    enabled = StringSet.insert name r.enabled;
  }

  unfoldable pub enable : String → ToolRegistry T → ToolRegistry T
  enable name r =
      if is_some (Table.get name r.tools)
      then record r { enabled = StringSet.insert name r.enabled }
      else r

  unfoldable pub disable : String → ToolRegistry T → ToolRegistry T
  disable name r = record r { enabled = StringSet.remove name r.enabled }

  unfoldable pub is_enabled : String → ToolRegistry T → Bool
  is_enabled name r = StringSet.contains name r.enabled

  unfoldable pub get_tool : String → ToolRegistry T → Option T
  get_tool name r = if StringSet.contains name r.enabled then Table.get name r.tools else none

-- What is done with a registry over its life
pub data Change (T : Type 0) : Type 0 where
  registering : String → T → Change T
  enabling disabling : String → Change T

unfoldable pub apply_changes : {T : Type 0} → List (Change T) → ToolRegistry T → ToolRegistry T
unfolding register enable disable
apply_changes [] r = r
apply_changes (registering name tool ∷ cs) r = apply_changes cs (register name tool r)
apply_changes (enabling name ∷ cs) r = apply_changes cs (enable name r)
apply_changes (disabling name ∷ cs) r = apply_changes cs (disable name r)

module _ {T : Type 0} where
  -- Every enabled name is that of a tool.
  abbrev IsBacked : ToolRegistry T → Type 0
  IsBacked r =
      (name : String)
      → StringSet.contains name r.enabled ≡ true
      → is_some (Table.get name r.tools) ≡ true

  register-IsBacked :
      (name : String) (tool : T) (r : ToolRegistry T) → IsBacked r → IsBacked (register name tool r)
  unfolding register
  register-IsBacked name tool r backed other =
      rw (StringSet.contains-insert name other r.enabled, get-put name other tool r.tools)
        (λ h. ground (arith, h, backed other))

  enable-IsBacked : (name : String) (r : ToolRegistry T) → IsBacked r → IsBacked (enable name r)
  unfolding enable
  enable-IsBacked name r backed other h = elim (Bool-cases (is_some (Table.get name r.tools))) [
    | inl there ↦ known there
    | inr missing ↦
        let same : enable name r ≡ r = rw missing refl in
        rw same (backed other (ap (λ x. StringSet.contains other x.enabled) (sym same) ∙ h))
  ]
    where
      known :
          is_some (Table.get name r.tools) ≡ true
          → is_some (Table.get other (enable name r).tools) ≡ true
      known there =
          let grown : enable name r ≡ record r { enabled = StringSet.insert name r.enabled } =
            rw there refl in
          let listed : (str_eq name other || StringSet.contains other r.enabled) ≡ true =
            sym (StringSet.contains-insert name other r.enabled)
            ∙ ap (λ x. StringSet.contains other x.enabled) (sym grown)
            ∙ h in
          rw grown (elim (Bool-cases (str_eq name other)) [
            | inl same ↦ rw (sym ((eq_iff name other).0 same)) there
            | inr apart ↦ backed other (ground (arith, apart, listed))
          ])

  disable-IsBacked : (name : String) (r : ToolRegistry T) → IsBacked r → IsBacked (disable name r)
  unfolding disable
  disable-IsBacked name r backed other h =
      backed other (ground (arith, h, StringSet.contains-remove name other r.enabled))

  changes-IsBacked :
      (cs : List (Change T)) (r : ToolRegistry T) → IsBacked r → IsBacked (apply_changes cs r)
  unfolding apply_changes
  changes-IsBacked [] r backed = backed
  changes-IsBacked (registering name tool ∷ cs) r backed =
      changes-IsBacked cs (register name tool r) (register-IsBacked name tool r backed)
  changes-IsBacked (enabling name ∷ cs) r backed =
      changes-IsBacked cs (enable name r) (enable-IsBacked name r backed)
  changes-IsBacked (disabling name ∷ cs) r backed =
      changes-IsBacked cs (disable name r) (disable-IsBacked name r backed)

module _ (T : Type 0) where
  empty-IsBacked : IsBacked (empty_registry {T = T})
  unfolding StringSet.contains
  empty-IsBacked name h = absurd (ground (arith, h))

module _ {T : Type 0} where
  -- After any registrations, enablings and disablings of an empty registry, `get_tool` finds a tool
  -- exactly for the names that `is_enabled` reports.
  pub get_tool-is_enabled :
      (cs : List (Change T)) (name : String)
      → let r = apply_changes cs empty_registry in is_some (get_tool name r) ≡ is_enabled name r
  unfolding get_tool is_enabled
  get_tool-is_enabled cs name =
      let r : ToolRegistry T = apply_changes cs empty_registry in
      let backed : IsBacked r = changes-IsBacked cs empty_registry (empty-IsBacked T) in
      elim (Bool-cases (StringSet.contains name r.enabled)) [
        | inl on ↦ rw on (backed name on)
        | inr off ↦ rw off refl
      ]
