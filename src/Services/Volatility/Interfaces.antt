-- ===== src/Services/Volatility/Interfaces.antt =====
-- The providers and the repository of internal/volatility/port.go. A provider that may be `nil` is an `Option`.
use marketengine.Prelude.{String, Option, List}
use marketengine.Time.{Time}
use marketengine.Errors.{Result}
use marketengine.Domain.{Asset}
use marketengine.Pipeline
use marketengine.Pipeline.{
  Action, Part, str, date, count, integer, truth, or_assets, key_string, if_present, with_last,
  on_success, if_found, if_some, on_found, for_each, compute_assets, compute_range, save_rows,
  announce, complete, clock_now, get_latest, save_feature, save_z_score, try_compute_std_dev,
  latest, latest_number,
}
use marketengine.Services.Volatility.Rows.{
  DvolPoint, OptionsSnapshot, CoinglassOptionsInfoPoint, CoinglassOptionsOiHistoryPoint,
  CoinglassOptionsMaxPainPoint, DeribitOptionsChainSnapshot, Row,
}

abbrev pub History : Type 0 → Type 0
History F = List (Action F (Row F))

pub record CoinglassOptionsProvider (F : Type 0) : Type 0 where
  pub fetch_options_info : String → History F → Result (List (CoinglassOptionsInfoPoint F))
  pub fetch_options_oi_history :
      String → History F → Result (List (CoinglassOptionsOiHistoryPoint F))
  pub fetch_options_max_pain :
      String → String → History F → Result (List (CoinglassOptionsMaxPainPoint F))

-- the interfaces of port.go; `base` has those that all services share
pub record Ports (F : Type 0) : Type 0 where
  pub base : Pipeline.Ports F (Row F)
  pub dvol : Option (Asset → Time → Time → History F → Result (List (DvolPoint F)))
  pub options : Option (Asset → History F → Result (OptionsSnapshot F))
  pub cg_options : Option (CoinglassOptionsProvider F)
  pub chain : Option (Asset → History F → Result (List (DeribitOptionsChainSnapshot F)))
  pub get_dvol_close_as_of : Asset → Time → Time → History F → Result F
  pub realized_vol_30d : Asset → Time → Time → History F → Result (Option F)
  pub get_coinglass_options_aggregated_oi_as_of :
      String → Time → Time → History F → Result (Option F)
  pub get_coinglass_options_put_call_ratio_as_of :
      String → Time → Time → History F → Result (Option F)
  pub get_coinglass_options_max_pain_nearest_as_of :
      String → String → Time → Time → History F → Result (Option F)
  pub spot_close_as_of : String → Time → Time → History F → Result (Option F)
  pub get_deribit_options_chain_as_of :
      Asset → Time → Time → History F → Result (List (DeribitOptionsChainSnapshot F))
