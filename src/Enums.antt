-- ===== src/Enums.antt =====
-- The enumerations of app/enums. A column that holds one is a text: where the code meets a text
-- that names no member, the model has `none`.
use sim_trade.Prelude.{Bool, true, false}

pub data OrderDirection : Type 0 where
  buy sell : OrderDirection

pub data OffsetFlag : Type 0 where
  open_flag close_flag close_today close_yesterday : OffsetFlag

pub data OrderType : Type 0 where
  limit counterparty last market : OrderType

pub data OrderStatus : Type 0 where
  new accepted partially_filled partially_cancelled filled cancelled rejected : OrderStatus

pub data PositionDirection : Type 0 where
  long short : PositionDirection

pub data CommissionType : Type 0 where
  by_volume by_amount : CommissionType

pub data AccountStatus : Type 0 where
  normal disabled liquidation : AccountStatus

pub data InstrumentType : Type 0 where
  futures futures_option index index_option stock convertible_bond etf : InstrumentType

pub data ProductFamily : Type 0 where
  futures_family options_family stocks_family convertible_bonds_family : ProductFamily

abbrev pub same_offset : OffsetFlag → OffsetFlag → Bool
same_offset open_flag open_flag = true
same_offset close_flag close_flag = true
same_offset close_today close_today = true
same_offset close_yesterday close_yesterday = true
same_offset _ _ = false

abbrev pub same_commission : CommissionType → CommissionType → Bool
same_commission by_volume by_volume = true
same_commission by_amount by_amount = true
same_commission _ _ = false

abbrev pub same_position : PositionDirection → PositionDirection → Bool
same_position long long = true
same_position short short = true
same_position _ _ = false
