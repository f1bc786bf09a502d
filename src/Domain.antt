-- ===== src/Domain.antt =====
-- internal/domain: assets, domain codes, labels, scores, regime states, features and their checks.
pub mod Validation
use marketengine.Prelude.{
  ℕ, String, Bool, true, false, ◌||◌, not, Option, none, some, List, [], ◌∷◌, ◌==◌, if◌then◌else◌,
}
use marketengine.Float.{Float, ◌<?◌}
use marketengine.Time.{Time, is_zero}
use marketengine.Errors.{Err, message, Result, ok, err, ◌>>=◌, ◌>>◌, context, check}
use marketengine.GoMap.{Map, lookup}

abbrev pub Asset : Type 0
Asset = String

abbrev pub asset_btc : Asset
asset_btc = "BTC"

abbrev pub asset_eth : Asset
asset_eth = "ETH"

abbrev pub asset_global : Asset
asset_global = "GLOBAL"

unfoldable pub validate_asset : Asset → Result (Unit {0})
validate_asset a =
    check (a == asset_btc || a == asset_eth || a == asset_global) (message "invalid asset")

unfoldable pub is_tradeable : Asset → Bool
is_tradeable a = a == asset_btc || a == asset_eth

abbrev pub assets_tradeable : List Asset
assets_tradeable = asset_btc ∷ asset_eth ∷ []

abbrev pub DomainCode : Type 0
DomainCode = String

abbrev pub liquidity : DomainCode
liquidity = "LIQUIDITY"

abbrev pub leverage : DomainCode
leverage = "LEVERAGE"

abbrev pub market_stress : DomainCode
market_stress = "MARKET_STRESS"

abbrev pub capital_flows : DomainCode
capital_flows = "CAPITAL_FLOWS"

abbrev pub volatility : DomainCode
volatility = "VOLATILITY_REGIME"

abbrev pub all_domains : List DomainCode
all_domains = liquidity ∷ leverage ∷ market_stress ∷ capital_flows ∷ volatility ∷ []

-- the loop of `DomainCode.Validate` over `xs`
validate_domain_in : List DomainCode → DomainCode → Result (Unit {0})
validate_domain_in [] d = err (message "invalid domain")
validate_domain_in (x ∷ xs) d = if x == d then ok tt else validate_domain_in xs d

unfoldable pub validate_domain : DomainCode → Result (Unit {0})
unfolding validate_domain_in
validate_domain d = validate_domain_in all_domains d

abbrev display_names : Map String
display_names =
    (liquidity, "Liquidity")
    ∷ (leverage, "Leverage")
    ∷ (market_stress, "Market Stress")
    ∷ (capital_flows, "Holder Conviction")
    ∷ (volatility, "Volatility Regime")
    ∷ []

abbrev or_code : String → Option String → String
or_code code none = code
or_code code (some n) = n

unfoldable pub display_name : String → String
unfolding lookup
display_name code = or_code code (lookup code display_names)

-- The three labels, of package domain and again of package backtest.
pub data Label : Type 0 where
  risk_on risk_off transition : Label

-- the values of a `map[string]any` of data quality marks
pub data Mark (F : Type 0) : Type 0 where
  flag : Bool → Mark F
  number : F → Mark F
  text : String → Mark F

pub record DomainScore (F : Type 0) : Type 0 where
  pub asset : Asset
  pub domain : DomainCode
  pub value_date : Time
  pub score : F
  pub components : Map F
  pub feature_codes_used : List String
  pub model_version : String
  pub config_version : String
  pub code_sha : String
  pub source_raw_versions : Map String
  pub data_quality : Map (Mark F)

pub record TopDriver (F : Type 0) : Type 0 where
  pub domain : DomainCode
  pub contribution : F
  pub share : F

pub record IndicatorPoint (F : Type 0) : Type 0 where
  pub value_date : Time
  pub regime_indicator : F

pub record RegimeState (F : Type 0) : Type 0 where
  pub asset : Asset
  pub value_date : Time
  pub regime_indicator : F
  pub regime_indicator_raw : F
  pub risk_on_probability : F
  pub risk_off_probability : F
  pub transition_risk : F
  pub model_version : String
  pub config_version : String
  pub code_sha : String
  pub domain_contributions : Map F
  pub top_drivers : List (TopDriver F)
  pub effective_weights : Map F
  pub feature_coverage_flag : Map Bool
  pub interaction_flags : List String

pub record FeatureKey : Type 0 where
  pub name : String
  pub version : String

pub record Feature (F : Type 0) : Type 0 where
  pub key : FeatureKey
  pub asset : Asset
  pub value_date : Time
  pub timeframe : String
  pub value : F
  pub source_raw_versions : Map String
  pub code_sha : String

module _ {F : Type 0} ⦃f : Float F⦄ where
  -- `s.Score < -1.0001 || s.Score > 1.0001`, and the same of an indicator
  abbrev pub score_out_of_range : F → Bool
  score_out_of_range x = x <? f.minus (f.decimal 10_001 4) || f.decimal 10_001 4 <? x

  -- `p < -0.0001 || p > 1.0001`
  abbrev pub probability_out_of_range : F → Bool
  probability_out_of_range p = p <? f.minus (f.decimal 1 4) || f.decimal 10_001 4 <? p

  unfoldable pub validate_score : DomainScore F → Result (Unit {0})
  validate_score s = do
    context "score asset" (validate_asset s.asset)
    context "score domain" (validate_domain s.domain)
    check (not (is_zero s.value_date)) (message "score value_date is zero")
    check (not (score_out_of_range s.score)) (message "score out of range")
    check (not (s.model_version == "")) (message "score missing model_version")

  -- the loop over the three probabilities
  unfoldable pub check_probabilities : List F → Result (Unit {0})
  check_probabilities [] = ok tt
  check_probabilities (p ∷ ps) =
      if probability_out_of_range p
      then err (message "probability out of range")
      else check_probabilities ps

  unfoldable pub validate_state : RegimeState F → Result (Unit {0})
  validate_state s = do
    context "regime asset" (validate_asset s.asset)
    check (not (is_zero s.value_date)) (message "regime value_date is zero")
    check (not (s.model_version == "")) (message "regime missing model_version")
    check (not (score_out_of_range s.regime_indicator)) (message "regime_indicator out of range")
    check_probabilities (s.risk_on_probability ∷ s.risk_off_probability ∷ s.transition_risk ∷ [])

  unfoldable pub validate_feature : Feature F → Result (Unit {0})
  validate_feature x = do
    check (not (x.key.name == "" || x.key.version == "")) (message "feature missing key")
    context "feature asset" (validate_asset x.asset)
    check (not (is_zero x.value_date)) (message "feature value_date is zero")
    check (not (x.timeframe == "")) (message "feature missing timeframe")
