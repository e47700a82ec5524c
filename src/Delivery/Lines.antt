-- ===== src/Delivery/Lines.antt =====
-- How a platform's lines are matched to the menu: _ResolvedDeliveryLine, _ResolutionResult and
-- _resolve_delivery_lines (backend/app/delivery/order_service.py).
use nextgen_backend.Prelude.{
  same_text, Text, ℕ, Bool, true, false, not, ◌&&◌, ◌||◌, Option, none, some, List, [], ◌∷◌, ◌++◌,
  map, ◌==◌, if◌then◌else◌, exists, is_some,
}
use nextgen_backend.Delivery.Types.{
  Provider, uber_eats, mr_d, generic, MappingKind, item_mapping, modifier_mapping, option_mapping,
  ProductMapping, MenuEntry, CanonicalModifier, CanonicalLine, Casing, World,
}
use nextgen_backend.Delivery.Names.{normalise_key}

pub record ResolvedLine : Type 0 where
  pub canonical : CanonicalLine
  pub menu_item_id : Option ℕ
  pub menu_item_name : Text
  pub add_on_ids : List ℕ
  pub unresolved : List Text
  pub is_ignored : Bool

abbrev pub is_resolved : ResolvedLine → Bool
is_resolved line = line.is_ignored || is_some line.menu_item_id

abbrev has_unresolved : List Text → Bool
has_unresolved [] = false
has_unresolved (_ ∷ _) = true

abbrev pub blocks_line : ResolvedLine → Bool
blocks_line line = not (is_resolved line) || has_unresolved line.unresolved

unfoldable pub blocks_import : List ResolvedLine → Bool
blocks_import lines = exists blocks_line lines

unfoldable pub unresolved_names : List ResolvedLine → List Text
unresolved_names [] = []
unresolved_names (line ∷ lines) =
    (if is_resolved line then [] else line.canonical.title ∷ [])
    ++ line.unresolved
    ++ unresolved_names lines

-- A dictionary made from rows in order: of two rows with one key the later stays.
abbrev pub find_last {ℓ} : {A : Type ℓ} → (A → Bool) → List A → Option A
find_last p [] = none
find_last p (x ∷ xs) = elim (find_last p xs) [
  | some y ↦ some y
  | none ↦ if p x then some x else none
]

abbrev pub is_provider : Provider → Provider → Bool
is_provider uber_eats uber_eats = true
is_provider mr_d mr_d = true
is_provider generic generic = true
is_provider _ _ = false

abbrev is_kind : MappingKind → MappingKind → Bool
is_kind item_mapping item_mapping = true
is_kind modifier_mapping modifier_mapping = true
is_kind option_mapping option_mapping = true
is_kind _ _ = false

abbrev is_external : Option ℕ → ℕ → Bool
is_external none k = false
is_external (some j) k = j == k

-- `item_by_external_id.get(k) if k else None`, and the same for modifiers.
unfoldable pub mapping_of : World → ℕ → Provider → MappingKind → Option ℕ → Option ProductMapping
mapping_of w business provider kind none = none
mapping_of w business provider kind (some k) =
    find_last
      (λ m.
        m.business_id == business
        && is_provider m.platform provider
        && is_kind m.kind kind
        && is_external m.external_id k)
      w.mappings

-- An entry of the menu that is not deleted, by its id or by its normalised name.
abbrev pub on_menu : ℕ → MenuEntry → Bool
on_menu business e = e.business_id == business && not e.is_deleted

unfoldable pub entry_by_id : ℕ → List MenuEntry → Option ℕ → Option MenuEntry
entry_by_id business entries none = none
entry_by_id business entries (some k) = find_last (λ e. on_menu business e && e.id == k) entries

unfoldable pub entry_by_name : Casing → ℕ → List MenuEntry → Text → Option MenuEntry
entry_by_name casing business entries title =
    find_last
      (λ e.
        on_menu business e && same_text (normalise_key casing e.name) (normalise_key casing title))
      entries

abbrev pub or_entry : Option MenuEntry → Option MenuEntry → Option MenuEntry
or_entry (some e) other = some e
or_entry none other = other

abbrev ignored_by : Option ProductMapping → Bool
ignored_by none = false
ignored_by (some m) = m.is_ignored

abbrev mapped_item : Option ProductMapping → Option ℕ
mapped_item none = none
mapped_item (some m) = m.menu_item_id

abbrev mapped_add_on : Option ProductMapping → Option ℕ
mapped_add_on none = none
mapped_add_on (some m) = m.menu_add_on_id

-- The loop over one line's modifiers: the add-ons found and the titles not found.
unfoldable pub resolve_modifiers :
    World → ℕ → Provider → List CanonicalModifier → List ℕ × List Text
resolve_modifiers w business provider [] = ([], [])
resolve_modifiers w business provider (m ∷ ms) =
    let mapping = mapping_of w business provider modifier_mapping m.external_id in
    let (add_on_ids, unresolved) = resolve_modifiers w business provider ms in
    if ignored_by mapping
    then (add_on_ids, unresolved)
    else elim (or_entry (entry_by_id business w.add_ons (mapped_add_on mapping))
        (entry_by_name w.casing business w.add_ons m.title)) [
          | some add_on ↦ (add_on.id ∷ add_on_ids, unresolved)
          | none ↦ (add_on_ids, m.title ∷ unresolved)
        ]

abbrev entry_id : Option MenuEntry → Option ℕ
entry_id none = none
entry_id (some e) = some e.id

abbrev entry_name : Option MenuEntry → Text
entry_name none = []
entry_name (some e) = e.name

-- The menu item of one line: an ignored line has none.
unfoldable pub item_of : World → ℕ → Provider → CanonicalLine → Bool × Option MenuEntry
item_of w business provider line =
    let mapping = mapping_of w business provider item_mapping line.external_item_id in
    if ignored_by mapping then (true, none) else (
      false,
      or_entry (entry_by_id business w.menu_items (mapped_item mapping))
          (entry_by_name w.casing business w.menu_items line.title),
    )

unfoldable pub resolve_line : World → ℕ → Provider → CanonicalLine → ResolvedLine
resolve_line w business provider line =
    let (is_ignored, item) = item_of w business provider line in
    let (add_on_ids, unresolved) = resolve_modifiers w business provider line.modifiers in
    record {
      canonical = line;
      menu_item_id = entry_id item;
      menu_item_name = entry_name item;
      add_on_ids = add_on_ids;
      unresolved = unresolved;
      is_ignored = is_ignored;
    }

unfoldable pub resolve_delivery_lines :
    World → ℕ → Provider → List CanonicalLine → List ResolvedLine
resolve_delivery_lines w business provider = map (resolve_line w business provider)
