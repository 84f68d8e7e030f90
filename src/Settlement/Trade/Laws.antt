-- ===== src/Settlement/Trade/Laws.antt =====
-- A match is settled once, whole or not at all, and never for more than the order has left.
use sim_trade.Prelude.{ℕ, ◌≡◌, ◌∙◌, refl, ap, Bool, true, false, not, Option, none, some, arith}
use sim_trade.Prelude.Int.{ℤ, pos, ◌+ℤ◌, ◌-ℤ◌, ◌≤ℤ◌, ◌<ℤ◌, min_ℤ, int_laws}
use sim_trade.Errors.{Result, raise_if, Ensures, ok-Ensures, if-Ensures, >>=-Ensures, >>-Ensures}
use sim_trade.Enums.{
  ProductFamily, futures_family, options_family, stocks_family, convertible_bonds_family,
}
use sim_trade.Matching.Types.{MatchResult}
use sim_trade.Settlement.Rows.{OrderRow}
use sim_trade.Settlement.Funds.{AccountRow}
use sim_trade.Settlement.Funds.Orders.{IsReduced}
use sim_trade.Settlement.Close.{apply_close}
use sim_trade.Settlement.Close.Ready.{apply_close-IsReduced}
use sim_trade.Settlement.Open.{open_fill}
use sim_trade.Settlement.Open.Laws.{open_fill-IsReduced}
use sim_trade.Settlement.Trade.Records.{
  SettlementCommand, order_missing, idempotent, settled, SettlementResult, TradeRows, MarginCheck,
  Surroundings,
}
use sim_trade.Settlement.Trade.{
  ensure_trading_open, is_matchable_order, same_instrument, family_of, is_opening, found_or,
  fill_volume_of, close_request, close_rows, open_request, open_rows, settle_close, fill_open,
  fill_family, settle_open, settle_locked, unless_traded, when_found, settle_found, settle_rows,
}

-- The check of the margin, where it returns, changes frozen amounts and risk states, and not the volumes of
-- the order.
abbrev pub KeepsVolumes : (OrderRow → AccountRow → Result MarginCheck) → Type 0
KeepsVolumes check =
    (o : OrderRow) (a : AccountRow)
    → Ensures (λ (c : MarginCheck). IsReduced (pos 0) o c.order) (check o a)

-- What is recorded of an order that is settled.
pub record IsRecorded (cmd : SettlementCommand) (o : OrderRow) (rows : TradeRows) : Type 0 where
  pub traded : rows.traded ≡ some cmd.trade_id
  pub order : OrderRow
  pub found : rows.order ≡ some order
  pub volume : ℤ
  pub reduced : IsReduced volume o order
  pub within : (pos 0 <ℤ volume) × (volume ≤ℤ o.remaining_volume)

abbrev Recorded : SettlementCommand → OrderRow → SettlementResult × TradeRows → Type 0
Recorded cmd o (result, rows) =
    result.action ≡ settled → (result.trade_id ≡ some cmd.trade_id) × IsRecorded cmd o rows

min_within :
    (m left : ℤ) → pos 0 <ℤ m → pos 0 <ℤ left → (pos 0 <ℤ min_ℤ m left) × (min_ℤ m left ≤ℤ left)
min_within m left hm hl = ground arith

sub_nothing : (x : ℤ) → x -ℤ pos 0 ≡ x
sub_nothing x = omega int_laws

add_nothing : (x n : ℤ) → (x +ℤ pos 0) +ℤ n ≡ x +ℤ n
add_nothing x n = omega int_laws

IsReduced-after_check :
    (n : ℤ) (o o1 o2 : OrderRow) → IsReduced (pos 0) o o1 → IsReduced n o1 o2 → IsReduced n o o2
IsReduced-after_check n o o1 o2 k h = record {
  day = h.day ∙ k.day;
  traded = h.traded ∙ ap (λ (v : ℤ). v +ℤ n) k.traded ∙ add_nothing o.traded_volume n;
  remaining = h.remaining ∙ ap (λ (v : ℤ). v -ℤ n) (k.remaining ∙ sub_nothing o.remaining_volume);
  cancelled = h.cancelled ∙ k.cancelled;
}

module _ (cmd : SettlementCommand) (rows : TradeRows)
    (some_match : pos 0 <ℤ cmd.match_result.fill_volume) where
  settle_close-Recorded :
      (o : OrderRow) (a : AccountRow)
      → pos 0 <ℤ o.remaining_volume
      → Ensures (Recorded cmd o) (settle_close cmd o a rows)
  unfolding settle_close
  settle_close-Recorded o a held =
      >>=-Ensures (apply_close (close_request cmd o) (close_rows o a rows)) (λ c e.
        ok-Ensures (Recorded cmd o) _ (λ _. (
          refl,
          record {
            traded = refl;
            order = c.order;
            found = refl;
            volume = fill_volume_of cmd o;
            reduced = (apply_close-IsReduced (close_request cmd o) (close_rows o a rows)).ensured e;
            within = min_within cmd.match_result.fill_volume o.remaining_volume some_match held;
          },
        )))

  fill_open-Recorded :
      (is_option : Bool) (o : OrderRow) (a : AccountRow)
      → pos 0 <ℤ o.remaining_volume
      → Ensures (Recorded cmd o) (fill_open is_option cmd o a rows)
  unfolding fill_open
  fill_open-Recorded is_option o a held =
      >>=-Ensures (open_fill is_option (open_request cmd o) (open_rows o a rows)) (λ c e.
        ok-Ensures (Recorded cmd o) _ (λ _. (
          refl,
          record {
            traded = refl;
            order = c.order;
            found = refl;
            volume = fill_volume_of cmd o;
            reduced =
                (open_fill-IsReduced is_option (open_request cmd o) (open_rows o a rows)).ensured e;
            within = min_within cmd.match_result.fill_volume o.remaining_volume some_match held;
          },
        )))

  fill_family-Recorded :
      (family : ProductFamily) (o : OrderRow) (a : AccountRow)
      → pos 0 <ℤ o.remaining_volume
      → Ensures (Recorded cmd o) (fill_family family cmd o a rows)
  fill_family-Recorded options_family o a held = fill_open-Recorded true o a held
  fill_family-Recorded futures_family o a held = fill_open-Recorded false o a held
  fill_family-Recorded stocks_family o a held = record { ensured = λ e. absurd cc }
  fill_family-Recorded convertible_bonds_family o a held = record { ensured = λ e. absurd cc }

  -- The order that the check of the margin leaves has the volumes of the order before.
  settle_open-Recorded :
      (family : ProductFamily) (check : MarginCheck) (o : OrderRow)
      → IsReduced (pos 0) o check.order
      → pos 0 <ℤ o.remaining_volume
      → Ensures (Recorded cmd o) (settle_open family cmd check rows)
  settle_open-Recorded family check o kept held =
      if-Ensures {test = check.is_refused}
        (λ refused. ok-Ensures (Recorded cmd o) _ (λ e. absurd cc))
        (λ passed. record {
          ensured = λ e. λ done.
              let same = kept.remaining ∙ sub_nothing o.remaining_volume in
              let (id, q) =
                (fill_family-Recorded family check.order check.account (rw same held)).ensured e
                  done in
              (
                id,
                record {
                  traded = q.traded;
                  order = q.order;
                  found = q.found;
                  volume = q.volume;
                  reduced = IsReduced-after_check q.volume o check.order q.order kept q.reduced;
                  within = rw same at q.within;
                },
              );
        })

  pub settle_locked-Recorded :
      (e : Surroundings) (o : OrderRow)
      → KeepsVolumes e.ensure_locked
      → pos 0 <ℤ o.remaining_volume
      → Ensures (Recorded cmd o) (settle_locked e cmd o rows)
  unfolding settle_locked
  settle_locked-Recorded e o keeps held = >>=-Ensures (found_or _ rows.account) (λ a _.
      >>=-Ensures (found_or _ rows.instrument) (λ t _.
        >>-Ensures (raise_if (not (same_instrument t o.instrument_type)) _) (λ _.
          >>=-Ensures (family_of o.instrument_type) (λ family _.
            if-Ensures {test = is_opening o.offset_flag}
              (λ opening. >>=-Ensures (e.ensure_locked o a) (λ check checked.
                settle_open-Recorded family check o ((keeps o a).ensured checked) held))
              (λ closing. settle_close-Recorded o a held)))))

matchable_parts :
    (o : OrderRow) (m : MatchResult)
    → is_matchable_order o m ≡ true
    → (pos 0 <ℤ o.remaining_volume) × (pos 0 <ℤ m.fill_volume)
unfolding is_matchable_order
matchable_parts o m h = (ground arith, ground arith)

pub unless_traded-Ensures :
    (P : SettlementResult × TradeRows → Type 0) (traded : Option ℕ) (rows : TradeRows)
    → {next : Result (SettlementResult × TradeRows)}
    → ((trade_id : ℕ) → P (record { trade_id = some trade_id; action = idempotent }, rows))
    → Ensures P next
    → Ensures P (unless_traded traded rows next)
unless_traded-Ensures P (some trade_id) rows h k = ok-Ensures P _ (h trade_id)
unless_traded-Ensures P none rows h k = k

pub when_found-Ensures :
    (P : SettlementResult × TradeRows → Type 0) (order : Option OrderRow) (rows : TradeRows)
    → {next : OrderRow → Result (SettlementResult × TradeRows)}
    → P (record { trade_id = none; action = order_missing }, rows)
    → ((o : OrderRow) → order ≡ some o → Ensures P (next o))
    → Ensures P (when_found order rows next)
when_found-Ensures P none rows h k = ok-Ensures P _ h
when_found-Ensures P (some o) rows h k = k o refl

-- What the whole call leaves of rows that it settles.
abbrev pub Found : SettlementCommand → TradeRows → SettlementResult × TradeRows → Type 0
Found cmd rows (result, written) =
    result.action ≡ settled
    → (result.trade_id ≡ some cmd.trade_id)
      × ((o : OrderRow) × (rows.order ≡ some o) × IsRecorded cmd o written)

settle_found-Recorded :
    (e : Surroundings) (cmd : SettlementCommand) (o : OrderRow) (rows : TradeRows)
    → KeepsVolumes e.ensure_locked
    → Ensures (Recorded cmd o) (settle_found e cmd o rows)
unfolding settle_found
settle_found-Recorded e cmd o rows keeps =
    >>-Ensures (ensure_trading_open e.latest_batch (some o.trading_day)) (λ _.
      unless_traded-Ensures (Recorded cmd o) rows.traded rows (λ id settled_now. absurd cc)
        (if-Ensures {test = is_matchable_order o cmd.match_result}
          (λ matchable.
            let (held, some_match) = matchable_parts o cmd.match_result matchable in
            settle_locked-Recorded cmd rows some_match e o keeps held)
          (λ inactive. ok-Ensures (Recorded cmd o) _ (λ settled_now. absurd cc))))

pub settle_rows-Found :
    (e : Surroundings) (cmd : SettlementCommand) (rows : TradeRows)
    → KeepsVolumes e.ensure_locked
    → Ensures (Found cmd rows) (settle_rows e cmd rows)
unfolding settle_rows
settle_rows-Found e cmd rows keeps = >>-Ensures (ensure_trading_open e.latest_batch none) (λ _.
    when_found-Ensures (Found cmd rows) rows.order rows (λ settled_now. absurd cc)
      (λ o found. record {
        ensured = λ h done.
            let (id, q) = (settle_found-Recorded e cmd o rows keeps).ensured h done in
            (id, (o, found, q));
      }))
