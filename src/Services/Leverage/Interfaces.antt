-- ===== src/Services/Leverage/Interfaces.antt =====
-- internal/leverage/port.go: the interfaces. A provider that may be `nil` is an `Option`.
use marketengine.Prelude.{ℕ, String, Option, List}
use marketengine.Time.{Time}
use marketengine.Errors.{Result}
use marketengine.Domain.{Asset}
use marketengine.Pipeline
use marketengine.Pipeline.{Action}
use marketengine.Services.Leverage.Rows.{
  OiPoint, FundingPoint, BasisSnapshotPoint, CoinglassOiPoint, CoinglassBasisPoint,
  CoinglassLiqPoint, CoinglassLsRatioPoint, CoinglassTakerVolumePoint, CoinglassBorrowRatePoint,
  LsRatioKind, Row,
}

abbrev pub History : Type 0 → Type 0
History F = List (Action F (Row F))

abbrev pub OiProvider : Type 0 → Type 0
OiProvider F = Asset → Time → Time → History F → Result (List (OiPoint F))

abbrev pub FundingProvider : Type 0 → Type 0
FundingProvider F = Asset → Time → Time → History F → Result (List (FundingPoint F))

pub record CoinglassOiProvider (F : Type 0) : Type 0 where
  pub fetch_oi_history : Asset → String → ℕ → History F → Result (List (CoinglassOiPoint F))
  pub fetch_aggregated_oi_history_range :
      Asset → Time → Time → ℕ → History F → Result (List (CoinglassOiPoint F))

pub record CoinglassCrowdProvider (F : Type 0) : Type 0 where
  pub fetch_ls_ratio :
      LsRatioKind → Asset → String → ℕ → History F → Result (List (CoinglassLsRatioPoint F))
  pub fetch_aggregated_taker_volume :
      Asset → List String → ℕ → History F → Result (List (CoinglassTakerVolumePoint F))
  pub fetch_borrow_rate :
      String → String → ℕ → History F → Result (List (CoinglassBorrowRatePoint F))

-- `base` has the interfaces that all services share
pub record Ports (F : Type 0) : Type 0 where
  pub base : Pipeline.Ports F (Row F)
  pub oi_providers : List (String × OiProvider F)
  pub funding_prov : List (String × FundingProvider F)
  pub basis_prov : Option (Asset → History F → Result (BasisSnapshotPoint F))
  pub cg_oi : Option (CoinglassOiProvider F)
  pub cg_basis : Option (Asset → String → ℕ → History F → Result (List (CoinglassBasisPoint F)))
  -- FetchAggregatedLiquidationHistoryRange
  pub cg_liq :
      Option
        (Asset → List String → Time → Time → ℕ → History F → Result (List (CoinglassLiqPoint F)))
  pub cg_crowd : Option (CoinglassCrowdProvider F)
  pub aggregated_oi_as_of : Asset → Time → Time → History F → Result (Option F)
  pub coinglass_aggregated_oi_as_of : Asset → Time → Time → History F → Result (Option F)
  pub daily_avg_funding_as_of : Asset → Time → Time → History F → Result (Option F)
  pub daily_total_liquidations_as_of : Asset → Time → Time → History F → Result (Option F)
  pub coinglass_aggregated_liquidations_as_of : Asset → Time → Time → History F → Result (Option F)
  pub get_coinglass_futures_basis_as_of :
      String → String → Time → Time → History F → Result (Option F)
  pub get_deribit_basis_as_of : Asset → Time → Time → History F → Result (Option F)
  pub get_market_cap_as_of : String → Time → Time → History F → Result F
  pub coinglass_ls_ratio_avg_as_of :
      LsRatioKind → String → Time → Time → History F → Result (Option F)
  pub coinglass_taker_volume_as_of : String → Time → Time → History F → Result (Option (F × F))
