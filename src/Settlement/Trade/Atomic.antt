-- ===== src/Settlement/Trade/Atomic.antt =====
-- A match that is settled is recorded once, as the database has stored it.
use sim_trade.Prelude.{ℕ, ◌≡◌, ◌∙◌, refl, ap, Bool, true, false, Option, none, some}
use Prim.{⊥}
use sim_trade.Errors.{Result, ok, err}
use sim_trade.Settlement.Rows.{OrderRow}
use sim_trade.Settlement.Trade.Records.{
  SettlementCommand, settled, idempotent, not_matched, SettlementResult, TradeRows, StoreOutcome,
  stored, integrity_error, database_error, Surroundings,
}
use sim_trade.Settlement.Trade.Laws.{KeepsVolumes, IsRecorded, settle_rows-Found}
use sim_trade.Settlement.Trade.{settle_rows, after_store, is_written, when_written, commit, settle}

abbrev Outcome : Type 0
Outcome = SettlementResult × TradeRows

abbrev Same : Result Outcome → Result Outcome → Type 0
Same x y = x ≡ y

stored_result :
    (kept : StoreOutcome) (raced : Option ℕ) (rows after written : TradeRows)
    → (found result : SettlementResult) → result.action ≡ settled
    → after_store kept raced rows found after ≡ (ok result, written)
    → Same (ok (found, after)) (ok (result, written))
stored_result stored raced rows after written found result done h = cc
stored_result database_error raced rows after written found result done h = absurd cc
stored_result integrity_error none rows after written found result done h = absurd cc
stored_result integrity_error (some trade_id) rows after written found result done h =
    let same : record { trade_id = some trade_id; action = idempotent } ≡ result = cc in
    absurd (let e = ap (λ (x : SettlementResult). x.action) same ∙ done in cc)

-- The outcome of a fill is the one that was written.
written_result :
    (test : Bool) (found result : SettlementResult) (rows written : TradeRows)
    → (outcome : Result SettlementResult × TradeRows) → (test ≡ false → found.action ≡ settled → ⊥)
    → result.action ≡ settled
    → when_written test found rows outcome ≡ (ok result, written)
    → (test ≡ true) × (outcome ≡ (ok result, written))
written_result true found result rows written outcome never done h = (refl, h)
written_result false found result rows written outcome never done h =
    let same : found ≡ result = cc in
    absurd (never refl (ap (λ (x : SettlementResult). x.action) same ∙ done))

settled_rows :
    (e : Surroundings) (rows written : TradeRows) (result : SettlementResult)
    (call : Result Outcome)
    → result.action ≡ settled
    → commit e rows call ≡ (ok result, written)
    → call ≡ ok (result, written)
unfolding commit
settled_rows e rows written result (err code) done h = absurd cc
settled_rows e rows written result (ok (found, after)) done h =
    let (_, k) =
      written_result (is_written found.action) found result rows written
        (after_store e.store e.raced rows found after)
        (λ off now. absurd (let w = rw now at off in cc)) done h in
    stored_result e.store e.raced rows after written found result done k

pub settled_call :
    (e : Surroundings) (cmd : SettlementCommand) (rows written : TradeRows)
    → (result : SettlementResult) → result.action ≡ settled
    → settle e cmd rows ≡ (ok result, written)
    → (cmd.match_result.matched ≡ true) × (settle_rows e cmd rows ≡ ok (result, written))
unfolding settle
settled_call e cmd rows written result done h =
    let (matched, k) =
      written_result cmd.match_result.matched (record { trade_id = none; action = not_matched })
        result rows written (commit e rows (settle_rows e cmd rows)) (λ off now. absurd cc) done
        h in
    (matched, settled_rows e rows written result (settle_rows e cmd rows) done k)

-- A match that is settled is recorded as the trade of the order, and the volume that it takes is positive
-- and no more than the order had left; what is traded, left and cancelled adds up to what it was.
pub settle-IsRecorded :
    (e : Surroundings) (cmd : SettlementCommand) (rows written : TradeRows)
    → (result : SettlementResult) → KeepsVolumes e.ensure_locked
    → result.action ≡ settled
    → settle e cmd rows ≡ (ok result, written)
    → (result.trade_id ≡ some cmd.trade_id)
      × ((o : OrderRow) × (rows.order ≡ some o) × IsRecorded cmd o written)
settle-IsRecorded e cmd rows written result keeps done h =
    (settle_rows-Found e cmd rows keeps).ensured (settled_call e cmd rows written result done h).1
      done
