-- ===== src/Schema.antt =====
-- The database: one record for a row of each table that the order and stock services read or
-- write, and the record of all tables. A `uuid` is a number; a nullable column is an Option.
-- Columns that nothing in the model reads or that repeat the key are left out: `created_at`,
-- `updated_at`, the codes and names of customers and warehouses.
use b2b_stm.Prelude.{ℕ, Bool, Option, String, nat_eq, string_eq, pair_eq}
use b2b_stm.Prelude.Int.{ℤ}
use b2b_stm.Text.{Text}
use b2b_stm.Table.{Table}

-- (warehouse_id, product_id), the key of a balance.
abbrev pub Sku : Type 0
Sku = ℕ × ℕ

pub data OrderStatus : Type 0 where
  submitted confirmed rejected cancelled : OrderStatus

pub data ReservationStatus : Type 0 where
  active released shipped : ReservationStatus

pub data RequestStatus : Type 0 where
  pending approved declined : RequestStatus

pub data DeliveryStatus : Type 0 where
  ready scheduled in_transit delivered failed : DeliveryStatus

pub data CountStatus : Type 0 where
  counting finalized count_cancelled : CountStatus

pub data TaxCategory : Type 0 where
  taxable exempt : TaxCategory

pub data AccountType : Type 0 where
  customer_account internal : AccountType

pub record Customer : Type 0 where
  pub active : Bool

pub record Warehouse : Type 0 where
  pub active : Bool

pub record Product : Type 0 where
  pub sku : Text
  pub name : Text
  pub sale_unit : Text
  pub active : Bool

pub record CustomerPrice : Type 0 where
  pub unit_price : ℕ
  pub tax_category : TaxCategory
  pub tax_rate_bps : ℕ
  pub active : Bool

pub record User : Type 0 where
  pub email : Text
  pub active : Bool
  pub account_type : AccountType
  pub customer_id : Option ℕ
  pub is_operations : Bool
  pub is_system : Bool

pub record Balance : Type 0 where
  pub on_hand_quantity : ℕ
  pub reserved_quantity : ℕ
  pub version : ℕ

pub record Order : Type 0 where
  pub customer_id : ℕ
  pub warehouse_id : ℕ
  pub status : OrderStatus
  pub requested_by : ℕ
  pub confirmed_by : Option ℕ
  pub version : ℕ

pub record OrderLine : Type 0 where
  pub order_id : ℕ
  pub product_id : ℕ
  pub sku : Text
  pub product_name : Text
  pub sale_unit : Text
  pub requested_quantity : ℕ
  pub reserved_quantity : ℕ
  pub unit_price : Option ℕ
  pub tax_category : TaxCategory
  pub tax_rate_bps : ℕ

pub record Reservation : Type 0 where
  pub order_line_id : ℕ
  pub warehouse_id : ℕ
  pub product_id : ℕ
  pub quantity : ℕ
  pub shipped_quantity : ℕ
  pub status : ReservationStatus
  pub created_by : ℕ

pub record ReservationEvent : Type 0 where
  pub reservation_id : ℕ
  pub event_type : String
  pub quantity : ℕ
  pub created_by : ℕ

pub record Shipment : Type 0 where
  pub order_id : ℕ
  pub warehouse_id : ℕ
  pub shipped_by : ℕ

pub record ShipmentLine : Type 0 where
  pub shipment_id : ℕ
  pub reservation_id : ℕ
  pub quantity : ℕ

pub record Movement : Type 0 where
  pub sku : Sku
  pub movement_type : String
  pub quantity_delta : ℤ
  pub reference : ℕ
  pub created_by : ℕ

pub record ReceivableEntry : Type 0 where
  pub customer_id : ℕ
  pub shipment_line_id : Option ℕ
  pub return_credit_id : Option ℕ
  pub refund_id : Option ℕ
  pub entry_type : String
  pub quantity : ℕ
  pub unit_price : ℕ
  pub supply_amount : ℤ
  pub tax_amount : ℤ
  pub amount : ℤ
  pub tax_category : TaxCategory
  pub tax_rate_bps : ℕ

pub record Delivery : Type 0 where
  pub status : DeliveryStatus
  pub scheduled_date : Option Text
  pub carrier_name : Option Text
  pub tracking_number : Option Text
  pub dispatched_at : Option ℕ
  pub delivered_at : Option ℕ
  pub recipient_name : Option Text
  pub proof_method : Option Text
  pub proof_note : Option Text
  pub failure_reason : Option Text
  pub updated_by : ℕ
  pub version : ℕ

pub record DeliveryEvent : Type 0 where
  pub shipment_id : ℕ
  pub event_type : String
  pub actor_id : ℕ
  pub from_status : Option DeliveryStatus
  pub to_status : DeliveryStatus

pub record AssignmentEvent : Type 0 where
  pub order_id : ℕ
  pub event_type : String
  pub actor_id : ℕ
  pub assignee_id : ℕ
  pub reason : Option Text

pub record WorkLine : Type 0 where
  pub picked_quantity : ℕ
  pub inspected_quantity : ℕ
  pub updated_by : ℕ
  pub picked_at : Option ℕ
  pub inspected_at : Option ℕ
  pub version : ℕ

pub record WorkLineEvent : Type 0 where
  pub reservation_id : ℕ
  pub event_type : String
  pub actor_id : ℕ
  pub previous_picked_quantity : ℕ
  pub picked_quantity : ℕ
  pub previous_inspected_quantity : ℕ
  pub inspected_quantity : ℕ
  pub reason : Option Text

pub record CancellationRequest : Type 0 where
  pub order_id : ℕ
  pub reason : Text
  pub status : RequestStatus
  pub requested_by : ℕ
  pub reviewed_by : Option ℕ
  pub review_note : Option Text

pub record Cancellation : Type 0 where
  pub reason : Text
  pub cancelled_by : ℕ

pub record StockCount : Type 0 where
  pub warehouse_id : ℕ
  pub product_id : ℕ
  pub status : CountStatus
  pub snapshot_on_hand_quantity : ℕ
  pub snapshot_reserved_quantity : ℕ
  pub counted_quantity : Option ℕ
  pub released_reservation_quantity : ℕ
  pub reason : Text
  pub started_by : ℕ
  pub closed_by : Option ℕ
  pub adjustment_id : Option ℕ

pub record CountAdjustment : Type 0 where
  pub stock_count_id : ℕ
  pub reservation_id : ℕ
  pub released_quantity : ℕ

pub record Adjustment : Type 0 where
  pub sku : Sku
  pub quantity_delta : ℤ
  pub reason : Text
  pub adjusted_by : ℕ

pub record Notification : Type 0 where
  pub event_type : String
  pub aggregate_id : ℕ
  pub recipient_user_id : ℕ
  pub recipient_email : Text

-- The JSON that a command answers with, and that `command_results` keeps.
pub data Response : Type 0 where
  order_submitted : ℕ → Response
  order_confirmed : (id reserved unreserved : ℕ) → Response
  order_allocated : (id allocated unallocated : ℕ) → Response
  order_cancelled : (id released : ℕ) (reason : Text) → Response
  cancellation_requested : (id order_id : ℕ) (reason : Text) → Response
  cancellation_rejected : (id order_id : ℕ) (review_note : Text) → Response
  cancellation_approved : (id order_id released reviewed_by : ℕ) → Response
  shipment_created : (id shipped_quantity : ℕ) → Response
  work_claimed : (order_id assigned_to : ℕ) → Response
  work_released : (order_id released_by : ℕ) → Response
  work_recorded : (order_id : ℕ) (stage : String) → Table ℕ (ℕ × ℕ) → Response
  delivery_updated : (shipment_id : ℕ) → DeliveryStatus → Response
  inventory_adjusted : (id : ℕ) (quantity_delta : ℤ) (on_hand reserved : ℕ) → Response
  receipt_confirmed : ℕ → Response
  count_started : (id on_hand reserved : ℕ) → Response
  count_finalized : (id counted released : ℕ) (adjustment : ℤ) → Response
  count_stopped : ℕ → Response

-- (actor_id, command_type, request_id)
abbrev pub CommandKey : Type 0
CommandKey = ℕ × (String × ℕ)

pub record Db : Type 0 where
  -- `randomUUID()` gives this number, and adds one: every id that it gives is new.
  pub next_id : ℕ
  -- `now()`, the time of the transaction.
  pub now : ℕ
  pub customers : Table ℕ Customer
  pub warehouses : Table ℕ Warehouse
  pub suppliers : Table ℕ Warehouse
  pub products : Table ℕ Product
  pub customer_prices : Table (ℕ × ℕ) CustomerPrice
  pub users : Table ℕ User
  pub balances : Table Sku Balance
  pub orders : Table ℕ Order
  pub order_lines : Table ℕ OrderLine
  pub reservations : Table ℕ Reservation
  pub reservation_events : Table ℕ ReservationEvent
  pub movements : Table ℕ Movement
  pub shipments : Table ℕ Shipment
  pub shipment_lines : Table ℕ ShipmentLine
  pub deliveries : Table ℕ Delivery
  pub delivery_events : Table ℕ DeliveryEvent
  pub assignments : Table ℕ ℕ
  pub assignment_events : Table ℕ AssignmentEvent
  pub work_lines : Table ℕ WorkLine
  pub work_line_events : Table ℕ WorkLineEvent
  pub cancellation_requests : Table ℕ CancellationRequest
  pub cancellations : Table ℕ Cancellation
  pub receivable_entries : Table ℕ ReceivableEntry
  pub stock_counts : Table ℕ StockCount
  pub count_adjustments : Table ℕ CountAdjustment
  pub adjustments : Table ℕ Adjustment
  pub outbox : Table (ℕ × ℕ) Notification
  pub command_results : Table CommandKey Response
