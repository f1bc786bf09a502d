-- ===== src/Examples/Flows.antt =====
-- Concrete inputs: the score of the capital flows.
use marketengine.Prelude.{◌*◌, ◌≡◌, refl, true, false, []}
use marketengine.Float.Fixed.{Fixed, fixed, fixed_float}
use marketengine.Time.{day}
use marketengine.Domain.{asset_btc}
use marketengine.Scoring.{Reading}
use marketengine.Scoring.CapitalFlows.{Config, ScoreInputs, compute_score, post_etf}
use marketengine.Scoring.Missing.{flows_replaced, unavailable_ignored, pre_etf_score}

abbrev at_hand : Reading Fixed
at_hand = record { value = fixed 12000; available = true }

abbrev missing : Reading Fixed
missing = record { value = fixed 0; available = false }

abbrev pub config : Config Fixed
config = record {
  model_version = "flows_v1";
  config_version = "c1";
  code_sha = "abc";
  intermediate_version = "v1";
  final_version = "v1";
  weight_etf = fixed 0;
  weight_lth = fixed 0;
  weight_miner = fixed 0;
  weight_liquidity_flow = fixed 0;
  weight_lth_pre = fixed 0;
  weight_miner_pre = fixed 0;
  tanh_scale = fixed 0;
}

-- the day before the launch of the ETFs
abbrev inputs : ScoreInputs Fixed
inputs = record {
  asset = asset_btc;
  value_date = 738_894 * day;
  z_etf = missing;
  z_lth = at_hand;
  z_miner = missing;
  z_stablecoin_velocity = at_hand;
  z_exchange_balance = at_hand;
  z_bitfinex_margin = missing;
  z_dry_powder_7d = missing;
  z_dry_powder_30d = missing;
  z_etf_aum_velocity = missing;
  z_etf_concentration_hhi = missing;
  z_options_dealer_skew = missing;
  feature_codes_used = [];
}

unavailable_ignored_example :
    compute_score (flows_replaced (fixed 9) inputs) config ≡ compute_score inputs config
unavailable_ignored_example = unavailable_ignored (fixed 9) inputs config

pre_etf_score_example :
    (compute_score (record inputs { z_etf = at_hand }) config).score
    ≡ (compute_score inputs config).score
unfolding post_etf
pre_etf_score_example =
    pre_etf_score inputs (record inputs { z_etf = at_hand }) config refl refl refl refl
