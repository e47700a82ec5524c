-- ===== src/Delivery/Mapping.antt =====
-- The lines of a platform order against the items of its sale
-- (backend/app/delivery/order_service.py, _ResolutionResult and _create_order_from_canonical).
use nextgen_backend.Prelude.{
  ℕ, ◌≡◌, ◌↔◌, refl, inl, inr, true, false, not, List, [], ◌∷◌, ◌++◌, arith, Bool-cases,
}
use nextgen_backend.Delivery.{
  ResolvedLine, is_resolved, blocks_import, unresolved_names, sale_items,
}
use nextgen_backend.Delivery.Counts.{count}

append_empty {ℓ} : {A : Type ℓ} (xs ys : List A) → ((xs ++ ys) ≡ []) ↔ ((xs ≡ []) × (ys ≡ []))
append_empty [] ys = (λ h. (refl, h), λ h. h.1)
append_empty (x ∷ xs) ys = (λ h. cc, λ h. cc)

-- The import is blocked exactly when there is a name to show to the staff: an order whose every
-- line and modifier is found or ignored reports none.
pub unresolved_names-blocks_import :
    (lines : List ResolvedLine) → (blocks_import lines ≡ false) ↔ (unresolved_names lines ≡ [])
unfolding blocks_import unresolved_names
unresolved_names-blocks_import [] = (λ h. refl, λ h. refl)
unresolved_names-blocks_import (line ∷ lines) =
    let rest = unresolved_names-blocks_import lines in
    let split = append_empty line.unresolved (unresolved_names lines) in
    elim (Bool-cases (is_resolved line)) [
      | inl found ↦ rw found (ground (arith, rest, split))
      | inr missing ↦ rw missing (ground arith)
    ]

-- Where the import is not blocked, the sale has one item for each line that is not ignored.
pub sale_items-count :
    (order business : ℕ) (lines : List ResolvedLine)
    → blocks_import lines ≡ false
    → count (λ _. true) (sale_items order business lines) ≡ count (λ l. not l.is_ignored) lines
unfolding sale_items blocks_import
sale_items-count order business [] h = refl
sale_items-count order business (line ∷ lines) h =
    let rest = sale_items-count order business lines in ground arith
