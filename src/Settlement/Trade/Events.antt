-- ===== src/Settlement/Trade/Events.antt =====
-- The events that a settlement leaves in the outbox, in the transaction that writes the rows.
use sim_trade.Prelude.{◌≡◌, ◌≢◌, ◌⊎◌, inl, inr, some, [], ◌∷◌, ◌++◌}
use sim_trade.Prelude.Int.{pos}
use sim_trade.Settlement.Rows.{OrderRow, PositionRow}
use sim_trade.Settlement.Funds.{AccountRow}
use sim_trade.Settlement.Trade.Records.{
  SettlementCommand, SettlementResult, settled, TradeRows, TradeEvent, trade_created, order_filled,
  order_partially_filled, position_updated, account_updated,
}
use sim_trade.Settlement.Trade.Statuses.{HasStatus}

-- The event of an order says whether anything is left of it.
abbrev pub IsOrderEvent : OrderRow → TradeEvent → Type 0
IsOrderEvent o event =
    ((o.remaining_volume ≡ pos 0) × (event ≡ order_filled o))
    ⊎ ((o.remaining_volume ≢ pos 0) × (event ≡ order_partially_filled o))

-- The events of a fill tell of the rows as it has written them, and follow those that were there.
pub record IsAnnounced (cmd : SettlementCommand) (rows written : TradeRows) : Type 0 where
  pub order : OrderRow
  pub account : AccountRow
  pub position : PositionRow
  pub order_written : written.order ≡ some order
  pub account_written : written.account ≡ some account
  pub position_written : written.position ≡ some position
  pub event : TradeEvent
  pub order_event : IsOrderEvent order event
  pub events :
      written.events
      ≡ rows.events
        ++ (trade_created cmd.trade_id
            ∷ event
            ∷ position_updated position
            ∷ account_updated account
            ∷ [])

-- `_create_outbox_events` on an order that a fill leaves.
event_of : (o : OrderRow) → HasStatus o → TradeEvent
event_of o (inl h) = order_filled o
event_of o (inr h) = order_partially_filled o

abbrev Announced : SettlementCommand → TradeRows → SettlementResult × TradeRows → Type 0
Announced cmd rows (result, written) = result.action ≡ settled → IsAnnounced cmd rows written
