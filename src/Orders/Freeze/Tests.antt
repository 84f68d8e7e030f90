-- ===== src/Orders/Freeze/Tests.antt =====
-- An account with 1000 of free cash, and calls that freeze and release some of it.
use sim_trade.Prelude.{◌≡◌, refl, none, some, List, [], ◌∷◌, arith}
use sim_trade.Prelude.Int.{pos, ◌+ℤ◌, ◌-ℤ◌}
use sim_trade.Errors.{ok, err, account_not_found, insufficient_available_cash}
use sim_trade.Enums
use sim_trade.Risk.State.{normal}
use sim_trade.Orders.Account.{Account, ◌>>◌}
use sim_trade.Orders.Freeze.{
  with_account, repair_risk_cash, freeze_open_order, freeze_close_order_commission,
  release_open_order_frozen_resources,
}
use sim_trade.Orders.Freeze.Outcome.{
  FreezeCall, open_order, close_commission, order_release, total_funds, IsSolvent, perform_all,
  perform_all_conserves, perform_all-IsSolvent,
}
use sim_trade.Orders.Freeze.Laws.{release-freeze_open}

abbrev rich : Account
rich = record {
  status = some Enums.normal;
  risk_state = normal;
  available_cash = pos 1000;
  risk_available_cash = pos 0;
  frozen_cash = pos 5;
  frozen_margin = pos 20;
  frozen_commission = pos 1;
  option_used_margin = pos 0;
  option_realtime_required_margin = pos 0;
  long_option_market_value = pos 0;
  short_option_market_value = pos 0;
}

abbrev frozen_rich : Account
frozen_rich = record rich {
  available_cash = pos 600;
  risk_available_cash = pos 600;
  frozen_margin = pos 410;
  frozen_commission = pos 11;
}

rich_frozen : freeze_open_order (pos 390) (pos 10) rich ≡ (ok tt, frozen_rich)
unfolding freeze_open_order ◌+ℤ◌ ◌-ℤ◌ repair_risk_cash
rich_frozen = refl

rich_short : (freeze_close_order_commission (pos 1001) rich).0 ≡ err insufficient_available_cash
unfolding freeze_close_order_commission
rich_short = refl

no_account : (with_account (freeze_open_order (pos 1) (pos 1)) none).0 ≡ err account_not_found
unfolding with_account
no_account = refl

rich-IsSolvent : IsSolvent rich
rich-IsSolvent = record {
  cash = omega arith;
  frozen_cash = omega arith;
  frozen_margin = omega arith;
  frozen_commission = omega arith;
}

-- The last call releases more margin than there is, and raises.
abbrev calls : List FreezeCall
calls =
    open_order (pos 390) (pos 10)
    ∷ close_commission (pos 2)
    ∷ order_release (pos 411) (pos 0) (pos 0)
    ∷ []

perform_all_conserves_example : total_funds (perform_all calls rich) ≡ total_funds rich
perform_all_conserves_example = perform_all_conserves calls rich

perform_all-IsSolvent_example : IsSolvent (perform_all calls rich)
perform_all-IsSolvent_example = perform_all-IsSolvent calls rich rich-IsSolvent

rich_frozen_ok : (freeze_open_order (pos 390) (pos 10) rich).0 ≡ ok tt
unfolding freeze_open_order ◌+ℤ◌ ◌-ℤ◌ repair_risk_cash
rich_frozen_ok = refl

release-freeze_open_example :
    (freeze_open_order (pos 390) (pos 10)
        >> release_open_order_frozen_resources (pos 390) (pos 10) (pos 0))
      rich
    ≡ (ok tt, repair_risk_cash rich)
release-freeze_open_example =
    release-freeze_open (pos 390) (pos 10) rich (omega arith) (omega arith) (omega arith)
      rich_frozen_ok
