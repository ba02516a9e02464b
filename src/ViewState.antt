-- ===== src/ViewState.antt =====
-- core/internal/viewstate/view-state.go: the current and the expected view. The lock that the methods
-- hold until `release` makes what follows in the caller one step.
use minbft.Base.{ℕ, Bool, true, false, ltb, if◌then◌else◌}

pub record ViewState : Type 0 where
  pub current_view : ℕ
  pub expected_view : ℕ

abbrev pub new_view_state : ViewState
new_view_state = record { current_view = 0; expected_view = 0 }

unfoldable pub advance_expected : ViewState → ℕ → ViewState × Bool
advance_expected s view =
    if ltb s.expected_view view then (record s { expected_view = view }, true) else (s, false)

unfoldable pub advance_current : ViewState → ℕ → ViewState × Bool
advance_current s view =
    if ltb s.current_view view then (record s { current_view = view }, true) else (s, false)
