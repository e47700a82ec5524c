-- ===== src/Orders/Cancellation.antt =====
-- Cancelling an order and its stock (backend/app/inventory/cancellation.py, by way of
-- update_order_status of backend/app/api/v1/routes_orders.py).
use nextgen_backend.Prelude.{
  ℕ, String, ◌≡◌, refl, sym, ◌∙◌, true, false, Option, none, some, List, [], ◌∷◌, ◌++◌, exists,
}
use nextgen_backend.Prelude.Result.{done, done_inj}
use nextgen_backend.Inventory.Consumption.{LineItemSpec, ConsumptionResult, Recipes}
use nextgen_backend.Inventory.Ledger.{
  Movement, MovementType, Ingredient, of_order, is_consumption, post_sale_consumption,
  reverse_sale_consumption, stock_on_hand,
}
use nextgen_backend.Inventory.Ledger.RoundTrip.{sale_then_void}
use nextgen_backend.Orders.{
  status_cancelled, AuthUser, Order, stock_kept_consumed, Tables, StatusUpdateRequest, get_order,
  pre_preparation, reverse_consumption_on_cancel, update_order_status,
}
use nextgen_backend.Orders.Rows.{get_order_mine}
use nextgen_backend.Orders.StatusUpdate.{update_order_status-written, written}

cancelled_movements :
    (now : ℕ) (user : AuthUser) (link : Option String) (k : ℕ) (body : StatusUpdateRequest)
    (o : Order) (db : Tables)
    → body.status ≡ status_cancelled
    → pre_preparation o.status ≡ true
    → (written now user true link k body o db).movements
      ≡ (reverse_sale_consumption now user.business_id o.id
          (some user.user_id)
          (some "Order cancelled before preparation started")
          db.movements).1
unfolding reverse_consumption_on_cancel
cancelled_movements now user link k body o db c h = rw (c, h) refl

-- A staff cancellation of an order that has not reached the kitchen, in a business that tracks
-- stock, puts every ingredient back to its stock from before the order's sale was posted, provided
-- that the ledger held no movement of that order before the sale and gained nothing at all between
-- the sale and the cancellation.
pub cancel_restores_stock :
    (sold_at now : ℕ) (user : AuthUser) (link : Option String) (k : ℕ) (body : StatusUpdateRequest)
    (db after : Tables) (o : Order) (specs : List LineItemSpec) (by occurred_at : Option ℕ)
    (kind : MovementType) (item_recipes add_on_recipes : Recipes) (ingredients : List Ingredient)
    (ledger : List Movement) (r : ConsumptionResult) (i : ℕ)
    → post_sale_consumption sold_at user.business_id k specs by occurred_at kind item_recipes
        add_on_recipes ingredients ledger
      ≡ some (r, db.movements)
    → is_consumption kind ≡ true
    → exists (of_order user.business_id k) ledger ≡ false
    → get_order user.business_id k db ≡ done o
    → pre_preparation o.status ≡ true
    → body.status ≡ status_cancelled
    → update_order_status now user true link k body db ≡ done after
    → stock_on_hand user.business_id none after.movements i
      ≡ stock_on_hand user.business_id none ledger i
cancel_restores_stock sold_at now user link k body db after o specs by occurred_at kind item_recipes
      add_on_recipes ingredients ledger r i sold sale fresh found early cancels e =
    let (o', found', _, _, made) =
      update_order_status-written now user true link k body db after e in
    let same : o' ≡ o = done_inj (sym found' ∙ found) in
    let early' : pre_preparation o'.status ≡ true = rw same early in
    let id : o'.id ≡ k = (get_order_mine user.business_id k o' db found').0 in
    rw (made, cancelled_movements now user link k body o' db cancels early', id)
      (sale_then_void sold_at now user.business_id k specs by (some user.user_id) occurred_at
        (some "Order cancelled before preparation started") kind item_recipes add_on_recipes
        ingredients ledger i sold sale fresh)

-- Cancelling an order whose food was started leaves the stock ledger alone and adds one audit row
-- that says so.
pub cancel_keeps_consumption :
    (now : ℕ) (user : AuthUser) (link : Option String) (k : ℕ) (body : StatusUpdateRequest)
    (db after : Tables) (o : Order)
    → get_order user.business_id k db ≡ done o
    → pre_preparation o.status ≡ false
    → body.status ≡ status_cancelled
    → update_order_status now user true link k body db ≡ done after
    → (after.movements ≡ db.movements)
      × (after.audits
          ≡ db.audits
            ++ record {
              action = stock_kept_consumed;
              business_id = user.business_id;
              actor_user_id = some user.user_id;
              target_id = k;
            }
              ∷ [])
unfolding reverse_consumption_on_cancel
cancel_keeps_consumption now user link k body db after o found late cancels e =
    let (o', found', _, _, made) =
      update_order_status-written now user true link k body db after e in
    let same : o' ≡ o = done_inj (sym found' ∙ found) in
    let late' : pre_preparation o'.status ≡ false = rw same late in
    let id : o'.id ≡ k = (get_order_mine user.business_id k o' db found').0 in
    (rw (made, cancels, late') refl, rw (made, cancels, late', id) refl)
