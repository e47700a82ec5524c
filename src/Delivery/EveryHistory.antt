-- ===== src/Delivery/EveryHistory.antt =====
-- The invariant of the platform orders in every history, and the sales that a history can hold.
use nextgen_backend.Prelude.{
  ℕ, ◌≡◌, refl, ap, inl, inr, Bool, true, none, some, List, [], ◌∷◌, arith, find, All-append,
  Bool-cases, Option-cases,
}
use nextgen_backend.Delivery.{
  World, DeliveryDb, DeliveryOrder, DenyReason, OrderKey, is_row, load_locked_row,
  delivery_received, get_business, Reply, module_refusal, awaits_staff, is_open, issue_deny,
  accept_order, deny_order, insert_delivery_order, watchdog, watchdog_batch_limit, find_row,
  new_row,
}
use nextgen_backend.Delivery.Shape.{issue_deny-Shape}
use nextgen_backend.Delivery.Counts.{bit, count, count-append, load_locked_row-All}
use nextgen_backend.Delivery.Soundness.{
  IsSound, Unsold, holds_sale, moved-IsSound, handle_cancellation-IsSound,
  process_delivery_order-IsSound,
}
use nextgen_backend.Delivery.Deadline.{deny_batch-All, deny_batch-count}
use nextgen_backend.Delivery.History.{
  Event, webhook_order, order_job, cancellation_job, staff_accept, staff_deny, watchdog_tick, act,
  history, no_orders,
}

watchdog-IsSound :
    (w : World) (grace : ℕ) (db : DeliveryDb) → IsSound db → IsSound (watchdog w grace db)
unfolding watchdog
watchdog-IsSound w grace db sound = record {
  one_row = λ k.
      rw (deny_batch-count (is_row k) w.now (λ row. refl) watchdog_batch_limit grace db.rows)
        (sound.one_row k);
  unsold =
      deny_batch-All Unsold w.now (λ row h e. cc) watchdog_batch_limit grace db.rows sound.unsold;
  balanced = λ n.
      rw (deny_batch-count (holds_sale n) w.now (λ row. refl) watchdog_batch_limit grace db.rows)
        (sound.balanced n);
}

-- No row has the key that is looked for in vain.
not_found-count :
    (k : OrderKey) (rows : List DeliveryOrder)
    → find (is_row k) rows ≡ none
    → count (is_row k) rows ≡ 0
not_found-count k [] e = refl
not_found-count k (r ∷ rs) e = ground (arith, not_found-count k rs)

same_key :
    (w : World) (seconds : ℕ) (j k : OrderKey) (connection event : ℕ)
    → is_row j (new_row w seconds k connection event) ≡ true
    → j ≡ k
same_key w seconds j k connection event e = ground arith

insert-IsSound :
    (w : World) (seconds : ℕ) (k : OrderKey) (connection event : ℕ) (db : DeliveryDb)
    → IsSound db
    → IsSound (insert_delivery_order w seconds k connection event db)
unfolding insert_delivery_order load_locked_row
insert-IsSound w seconds k connection event db sound =
    let new = new_row w seconds k connection event in
    elim (Option-cases (find (is_row k) db.rows)) [
      | inr (row, found) ↦ rw (insert_delivery_order, found) sound
      | inl missing ↦
          rw (insert_delivery_order, missing)
            (record {
              one_row = λ j.
                  let counted = count-append (is_row j) db.rows (new ∷ []) in
                  elim (Bool-cases (is_row j new)) [
                    | inl mine ↦
                        let empty : count (is_row j) db.rows ≡ 0 =
                          rw (same_key w seconds j k connection event mine)
                            (not_found-count k db.rows missing) in
                        omega (arith, counted, empty, ap bit mine)
                    | inr other ↦ omega (arith, counted, sound.one_row j, ap bit other)
                  ];
              unsold = All-append Unsold db.rows (new ∷ []) sound.unsold ((λ h. refl), tt);
              balanced = λ n.
                  omega (arith, count-append (holds_sale n) db.rows (new ∷ []), sound.balanced n);
            })
    ]

-- A refusal changes nothing, and the route goes on with a row of the table.
find_row-IsSound :
    (w : World) (k : OrderKey) (db : DeliveryDb) (f : DeliveryOrder → DeliveryDb × Reply)
    → IsSound db
    → ((row : DeliveryOrder) → find (is_row k) db.rows ≡ some row → IsSound (f row).0)
    → IsSound (find_row w k db f).0
unfolding find_row load_locked_row
find_row-IsSound w k db f sound goes_on =
    elim (Option-cases (module_refusal (get_business k.business w.businesses))) [
      | inr (refusal, off) ↦ rw (find_row, off) sound
      | inl on ↦ elim (Option-cases (find (is_row k) db.rows)) [
        | inl missing ↦ rw (find_row, on, missing) sound
        | inr (old, found) ↦ rw (find_row, on, found) (goes_on old found)
      ]
    ]

accept_order-IsSound :
    (w : World) (has_pool enqueues : Bool) (k : OrderKey) (db : DeliveryDb)
    → IsSound db
    → IsSound (accept_order w has_pool enqueues k db).0
unfolding accept_order
accept_order-IsSound w has_pool enqueues k db sound = find_row-IsSound w k db _ sound λ old found.
    elim (Bool-cases (awaits_staff old.status)) [
      | inr past ↦ rw past sound
      | inl waits ↦ elim (Bool-cases has_pool) [
        | inr gone ↦ rw (waits, gone) sound
        | inl there ↦
            let (_, before) = load_locked_row-All Unsold k db.rows found sound.unsold in
            let unsold : old.order_id ≡ none = before (ground arith) in
            rw (waits, there)
              (moved-IsSound k old (record old { status = delivery_received }) db sound found
                (refl, refl, refl) refl (λ _. unsold))
      ]
    ]

deny_order-IsSound :
    (w : World) (reason : DenyReason) (k : OrderKey) (db : DeliveryDb)
    → IsSound db
    → IsSound (deny_order w reason k db).0
unfolding deny_order
deny_order-IsSound w reason k db sound = find_row-IsSound w k db _ sound λ old found.
    elim (Bool-cases (is_open old.status)) [
      | inr past ↦ rw past sound
      | inl waits ↦ elim (Option-cases (issue_deny w reason old)) [
        | inl crash ↦ rw (waits, crash) sound
        | inr (new, made) ↦
            let (shape, closed) = issue_deny-Shape w reason old made in
            rw (waits, made)
              (moved-IsSound k old new db sound found (shape.0, shape.1, shape.2) shape.3
                (λ h. ground arith))
      ]
    ]

act-IsSound : (e : Event) (db : DeliveryDb) → IsSound db → IsSound (act e db)
unfolding act
act-IsSound (webhook_order w seconds k connection event) db sound =
    insert-IsSound w seconds k connection event db sound
act-IsSound (order_job w k event force) db sound =
    process_delivery_order-IsSound w k event force db sound
act-IsSound (cancellation_job w k) db sound = handle_cancellation-IsSound w k db sound
act-IsSound (staff_accept w has_pool enqueues k) db sound =
    accept_order-IsSound w has_pool enqueues k db sound
act-IsSound (staff_deny w reason k) db sound = deny_order-IsSound w reason k db sound
act-IsSound (watchdog_tick w grace) db sound = watchdog-IsSound w grace db sound

history_from : (es : List Event) (db : DeliveryDb) → IsSound db → IsSound (history es db)
unfolding history
history_from [] db sound = sound
history_from (e ∷ es) db sound = history_from es (act e db) (act-IsSound e db sound)

-- After any sequence of webhooks, worker jobs, staff answers and watchdog runs, however repeated or
-- reordered, a platform order has at most one row, a row that still waits for its sale has no order
-- id, and each order id stands on as many rows as there are sales with it.
pub history-IsSound : (es : List Event) → IsSound (history es no_orders)
history-IsSound es =
    history_from es no_orders
      (record { one_row = λ k. omega arith; unsold = tt; balanced = λ n. refl })
