-- ===== src/Audit.antt =====
-- The filters of the audit list: `list` of apps/api/src/audit/audit.service.ts up to the query, on the
-- tests of dates that apps/api/src/orders/order-filters.ts has in the same words.
use b2b_stm.Prelude.{
  true, false, not, Option, none, some, List, [], ◌∷◌, any, length, ltb, ◌==◌, nat_eq,
  if◌then◌else◌,
}
use b2b_stm.Text.{Text, text_eq, codes}
use b2b_stm.Tx.{Result, ok, err, bad_request}
use b2b_stm.Listing.{bad_date, reversed_dates, normalized, selected_status}

-- `types`
abbrev pub audit_types : List Text
audit_types =
    codes "inventory_adjustment"
    ∷ codes "order_cancellation"
    ∷ codes "return_inspection"
    ∷ codes "settlement_finalized"
    ∷ codes "account_status"
    ∷ codes "mfa_reset"
    ∷ codes "shipment_work"
    ∷ codes "shipment_delivery"
    ∷ codes "stock_count"
    ∷ codes "defect_resolution"
    ∷ codes "refund"
    ∷ codes "data_export"
    ∷ codes "attachment"
    ∷ []

-- A value that is tested by `from&&...`: an empty text counts as none.
abbrev pub truthy : Option Text → Option Text
truthy none = none
truthy (some s) = if length s == 0 then none else some s

-- The conditions of the query, none where a filter is not set.
pub record AuditFilters : Type 0 where
  pub type : Option Text
  pub query : Option Text
  pub from : Option Text
  pub to : Option Text

abbrev pub type_filter : Text → Option Text
type_filter s = if s == codes "all" then none else some s

-- The tests stand in the order of the code, which stops at the first that holds or throws.
unfoldable pub audit_filters :
    Option Text → Option Text → Option Text → Option Text → Result AuditFilters
audit_filters type query from to =
    let bad = bad_request "Invalid audit filters" in
    let t = selected_status type in
    let q = normalized query in
    if not (any (λ a. a == t) (codes "all" ∷ audit_types))
    then err bad
    else if ltb 100 (length q)
    then err bad
    else (elim (bad_date (truthy from)) [
      | err e ↦ err e
      | ok true ↦ err bad
      | ok false ↦ (elim (bad_date (truthy to)) [
        | err e ↦ err e
        | ok true ↦ err bad
        | ok false ↦
            if reversed_dates (truthy from) (truthy to)
            then err bad
            else ok (record {
              type = type_filter t;
              query = truthy (some q);
              from = truthy from;
              to = truthy to;
            })
      ])
    ])
