-- ===== src/Settlement/Trade/Again.antt =====
-- A message that is delivered again finds the trade and changes nothing.
use sim_trade.Prelude.{ℕ, ◌≡◌, refl, Bool, true, Option, none, some}
use sim_trade.Errors.{Result, ok, ◌>>◌, Ensures, >>-Ensures}
use sim_trade.Settlement.Rows.{OrderRow}
use sim_trade.Settlement.Trade.Records.{
  SettlementCommand, settled, idempotent, SettlementResult, TradeRows, Surroundings,
}
use sim_trade.Settlement.Trade.Laws.{KeepsVolumes}
use sim_trade.Settlement.Trade.Atomic.{settled_call, settle-IsRecorded}
use sim_trade.Settlement.Trade.{
  ensure_trading_open, settle_found, settle_rows, unless_traded, when_found, commit, when_written,
  settle,
}

-- The gate let the call through, twice.
abbrev IsOpen : Surroundings → TradeRows → Type 0
IsOpen e rows =
    (ensure_trading_open e.latest_batch none ≡ ok tt)
    × ((o : OrderRow)
        → rows.order ≡ some o
        → ensure_trading_open e.latest_batch (some o.trading_day) ≡ ok tt)

settle_found-gate :
    (e : Surroundings) (cmd : SettlementCommand) (o : OrderRow) (rows : TradeRows)
    → Ensures
        (λ _. ensure_trading_open e.latest_batch (some o.trading_day) ≡ ok tt)
        (settle_found e cmd o rows)
unfolding settle_found
settle_found-gate e cmd o rows =
    >>-Ensures (ensure_trading_open e.latest_batch (some o.trading_day))
      (λ g. record { ensured = λ h. g })

found_gate :
    (e : Surroundings) (cmd : SettlementCommand) (order : Option OrderRow) (rows : TradeRows)
    → Ensures
        (λ _.
          (o : OrderRow)
          → order ≡ some o
          → ensure_trading_open e.latest_batch (some o.trading_day) ≡ ok tt)
        (when_found order rows (λ o. settle_found e cmd o rows))
found_gate e cmd none rows = record { ensured = λ h o found. absurd cc }
found_gate e cmd (some o) rows = record {
  ensured = λ h o' found.
      let same : o ≡ o' = cc in rw (← same) ((settle_found-gate e cmd o rows).ensured h);
}

settle_rows-IsOpen :
    (e : Surroundings) (cmd : SettlementCommand) (rows : TradeRows)
    → Ensures (λ _. IsOpen e rows) (settle_rows e cmd rows)
unfolding settle_rows
settle_rows-IsOpen e cmd rows =
    >>-Ensures (ensure_trading_open e.latest_batch none)
      (λ g. record { ensured = λ h. (g, (found_gate e cmd rows.order rows).ensured h) })

abbrev Outcome : Type 0
Outcome = SettlementResult × TradeRows

passes :
    (gate : Result (Unit {0})) (next y : Result Outcome)
    → gate ≡ ok tt
    → next ≡ y
    → (gate >> next) ≡ y
passes gate next y g h = rw g h

finds :
    (order : Option OrderRow) (o : OrderRow) (rows : TradeRows) (next : OrderRow → Result Outcome)
    → (y : Result Outcome) → order ≡ some o
    → next o ≡ y
    → when_found order rows next ≡ y
finds none o rows next y found h = absurd cc
finds (some o') o rows next y found h = let same : o' ≡ o = cc in rw same h

abbrev repeated : ℕ → TradeRows → Outcome
repeated trade_id rows = (record { trade_id = some trade_id; action = idempotent }, rows)

knows :
    (traded : Option ℕ) (trade_id : ℕ) (rows : TradeRows) (next : Result Outcome)
    → traded ≡ some trade_id
    → unless_traded traded rows next ≡ ok (repeated trade_id rows)
knows none trade_id rows next known = absurd cc
knows (some id) trade_id rows next known = let same : id ≡ trade_id = cc in rw same refl

finishes :
    (e : Surroundings) (test : Bool) (trade_id : ℕ) (other : SettlementResult) (rows : TradeRows)
    → (call : Result Outcome) → test ≡ true
    → call ≡ ok (repeated trade_id rows)
    → when_written test other rows (commit e rows call)
      ≡ (ok record { trade_id = some trade_id; action = idempotent }, rows)
unfolding commit
finishes e test trade_id other rows call t h = rw (t, h) refl

-- A match that was settled, and that comes again while the gate has the same latest batch, gets the
-- number of its trade as a repetition, and changes nothing, whatever else the second call meets.
pub settle_again :
    (e e' : Surroundings) (cmd : SettlementCommand) (rows written : TradeRows)
    → (result : SettlementResult) → KeepsVolumes e.ensure_locked
    → e'.latest_batch ≡ e.latest_batch
    → result.action ≡ settled
    → settle e cmd rows ≡ (ok result, written)
    → settle e' cmd written
      ≡ (ok record { trade_id = some cmd.trade_id; action = idempotent }, written)
unfolding settle settle_rows settle_found commit
settle_again e e' cmd rows written result keeps same done h =
    let (matched, call) = settled_call e cmd rows written result done h in
    let (first, second) = (settle_rows-IsOpen e cmd rows).ensured call in
    let (_, (o, was, q)) = settle-IsRecorded e cmd rows written result keeps done h in
    let gate : ensure_trading_open e'.latest_batch (some q.order.trading_day) ≡ ok tt =
      rw (same, q.reduced.day) (second o was) in
    finishes e' cmd.match_result.matched cmd.trade_id _ written _ matched (
      passes _ _ _ (rw same first) (
        finds written.order q.order written _ _ q.found
          (passes _ _ _ gate (knows written.traded cmd.trade_id written _ q.traded))))
