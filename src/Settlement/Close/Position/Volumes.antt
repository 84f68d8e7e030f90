-- ===== src/Settlement/Close/Position/Volumes.antt =====
-- The volumes of a position are the sums over its lots, before and after a closing fill.
use sim_trade.Prelude.{
  ℕ, ◌≤◌, ◌≡◌, ◌∙◌, refl, inl, inr, Bool, true, false, List, [], ◌∷◌, All, arith, Bool-cases, ◌==◌,
  ltb,
}
use sim_trade.Prelude.Int.{ℤ, pos, ◌+ℤ◌, ◌-ℤ◌, ◌≤ℤ◌, ltb_ℤ, eqb_ℤ, eq_of_parts, int_laws}
use sim_trade.Settlement.Rows.{LotRow, PositionRow}
use sim_trade.Settlement.Tables.{total}
use sim_trade.Settlement.Funds.{FillTotals}
use sim_trade.Settlement.Close.Position.{open_details, today_part, yesterday_part, settle_position}

-- A lot holds no negative volume and was not opened after the day.
abbrev pub IsHeld : ℕ → LotRow → Type 0
IsHeld day l = (pos 0 ≤ℤ l.remaining_volume) × (l.open_trading_day ≤ day)

part_of_day :
    (day : ℕ) (l : LotRow)
    → IsHeld day l
    → today_part day l +ℤ yesterday_part day l ≡ l.remaining_volume
part_of_day day l (low, opened) = elim (Bool-cases (l.open_trading_day == day)) [
  | inl today ↦
      let later : ltb l.open_trading_day day ≡ false = ground arith in
      rw (today, later) (omega int_laws)
  | inr before ↦
      let earlier : ltb l.open_trading_day day ≡ true = ground arith in
      rw (before, earlier) (omega int_laws)
]

shuffle : (a b c d : ℤ) → (a +ℤ c) +ℤ (b +ℤ d) ≡ (a +ℤ b) +ℤ (c +ℤ d)
shuffle a b c d = omega int_laws

zero_add : (a b : ℤ) → a ≡ pos 0 → b ≡ a +ℤ b
zero_add a b h = rw h (omega int_laws)

pub days-open_details :
    (day : ℕ) (lots : List LotRow)
    → All (IsHeld day) lots
    → total (today_part day) (open_details lots) +ℤ total (yesterday_part day) (open_details lots)
      ≡ total (λ l. l.remaining_volume) lots
unfolding open_details
days-open_details day [] h = omega int_laws
days-open_details day (l ∷ rest) (hl, h) =
    let others = days-open_details day rest h in
    let whole = part_of_day day l hl in
    elim (Bool-cases (ltb_ℤ (pos 0) l.remaining_volume)) [
      | inl held ↦ rw held (shuffle _ _ _ _ ∙ rw (whole, others) refl)
      | inr empty ↦
          rw empty (others ∙ zero_add l.remaining_volume _ (eq_of_parts _ _ (ground arith)))
    ]

-- What the fill makes of the volumes of the position.
pub settle_position_volumes :
    (is_option : Bool) (t : FillTotals) (day : ℕ) (n : ℤ) (lots : List LotRow)
    → (p : PositionRow)
    → let q = settle_position is_option t day n lots p in
      (q.total_volume ≡ p.total_volume -ℤ n)
      × (q.frozen_volume ≡ p.frozen_volume -ℤ n)
      × (q.today_volume ≡ total (today_part day) (open_details lots))
      × (q.yesterday_volume ≡ total (yesterday_part day) (open_details lots))
      × (q.available_volume ≡ q.total_volume -ℤ q.frozen_volume -ℤ q.settlement_locked_volume)
unfolding settle_position
settle_position_volumes is_option t day n lots p =
    elim (Bool-cases (eqb_ℤ (p.total_volume -ℤ n) (pos 0))) [
      | inl empty ↦ rw empty (refl, refl, refl, refl, refl)
      | inr held ↦ rw held (refl, refl, refl, refl, refl)
    ]
