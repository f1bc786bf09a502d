-- ===== src/Scoring/CapitalFlows.antt =====
-- internal/capitalflows/pipeline.go and config.go: the score of the capital flows domain. A field of
-- `ScoreInputs` and the `Available` field beside it are one `Reading`.
use marketengine.Prelude.{◌*◌, String, Bool, ◌||◌, not, List, [], ◌∷◌, ltb, if◌then◌else◌}
use marketengine.Float.{Float, ◌⊕◌, ◌⊗◌, of_ℕ}
use marketengine.Time.{Time, day}
use marketengine.Domain.{Asset, DomainScore, flag, number, text, capital_flows}
use marketengine.Scoring.{
  Reading, or_default, signal, add_signal, add_opposed, nothing_yet, average, clamp_score,
}

-- 2024-01-11, the days since the start of the year 1
abbrev pub etf_launch_date : Time
etf_launch_date = 738_895 * day

-- !in.ValueDate.Before(ETFLaunchDate)
unfoldable pub post_etf : Time → Bool
post_etf value_date = not (ltb value_date etf_launch_date)

pub record ScoreInputs (F : Type 0) : Type 0 where
  pub asset : Asset
  pub value_date : Time
  pub z_etf : Reading F
  pub z_lth : Reading F
  pub z_miner : Reading F
  pub z_stablecoin_velocity : Reading F
  pub z_exchange_balance : Reading F
  pub z_bitfinex_margin : Reading F
  pub z_dry_powder_7d : Reading F
  pub z_dry_powder_30d : Reading F
  pub z_etf_aum_velocity : Reading F
  pub z_etf_concentration_hhi : Reading F
  pub z_options_dealer_skew : Reading F
  pub feature_codes_used : List String

pub record Config (F : Type 0) : Type 0 where
  pub model_version : String
  pub config_version : String
  pub code_sha : String
  pub intermediate_version : String
  pub final_version : String
  pub weight_etf : F
  pub weight_lth : F
  pub weight_miner : F
  pub weight_liquidity_flow : F
  pub weight_lth_pre : F
  pub weight_miner_pre : F
  pub tanh_scale : F

module _ {F : Type 0} ⦃f : Float F⦄ where
  unfoldable pub defaults : Config F → Config F
  defaults c = record c {
    weight_etf = or_default c.weight_etf (f.decimal 416 3);
    weight_lth = or_default c.weight_lth (f.decimal 384 3);
    weight_liquidity_flow = or_default c.weight_liquidity_flow (f.decimal 20 2);
    weight_lth_pre = or_default c.weight_lth_pre (f.decimal 100 2);
    tanh_scale = or_default c.tanh_scale (of_ℕ 2);
  }

  -- `componentLiquidity` before the division, and `liquidityN`
  unfoldable pub liquidity_sum : Config F → ScoreInputs F → F × F
  liquidity_sum cfg inp =
      let acc1 = add_signal cfg.tanh_scale inp.z_stablecoin_velocity nothing_yet in
      let acc2 = add_opposed cfg.tanh_scale inp.z_exchange_balance acc1 in
      let acc3 = add_signal cfg.tanh_scale inp.z_bitfinex_margin acc2 in
      let acc4 = add_signal cfg.tanh_scale inp.z_dry_powder_7d acc3 in
      let acc5 = add_signal cfg.tanh_scale inp.z_dry_powder_30d acc4 in
      let acc6 = add_signal cfg.tanh_scale inp.z_etf_aum_velocity acc5 in
      let acc7 = add_opposed cfg.tanh_scale inp.z_etf_concentration_hhi acc6 in
      add_signal cfg.tanh_scale inp.z_options_dealer_skew acc7

  unfoldable pub liquidity_flow : Config F → ScoreInputs F → F
  liquidity_flow cfg inp = average (liquidity_sum cfg inp)

  unfoldable pub weighted : Config F → ScoreInputs F → F
  weighted cfg inp =
      let lth = signal cfg.tanh_scale inp.z_lth in
      let miner = signal cfg.tanh_scale inp.z_miner in
      if post_etf inp.value_date
      then cfg.weight_etf ⊗ signal cfg.tanh_scale inp.z_etf
        ⊕ cfg.weight_lth ⊗ lth
        ⊕ cfg.weight_miner ⊗ miner
        ⊕ cfg.weight_liquidity_flow ⊗ liquidity_flow cfg inp
      else cfg.weight_lth_pre ⊗ lth ⊕ cfg.weight_miner_pre ⊗ miner

  unfoldable pub partial_coverage : ScoreInputs F → Bool
  unfolding post_etf
  partial_coverage inp =
      if post_etf inp.value_date
      then not inp.z_etf.available || not inp.z_lth.available || not inp.z_miner.available
      else not inp.z_lth.available || not inp.z_miner.available

  unfoldable pub components : Config F → ScoreInputs F → List (String × F)
  components cfg inp =
      ("component_etf", signal cfg.tanh_scale inp.z_etf)
      ∷ ("component_lth", signal cfg.tanh_scale inp.z_lth)
      ∷ ("component_miner", signal cfg.tanh_scale inp.z_miner)
      ∷ ("component_liquidity_flow", liquidity_flow cfg inp)
      ∷ []

  -- `computeScore` after `cfg.Defaults()`
  unfoldable pub score_with : ScoreInputs F → Config F → DomainScore F
  unfolding components weighted liquidity_sum partial_coverage post_etf
  score_with inp cfg = record {
    asset = inp.asset;
    domain = capital_flows;
    value_date = inp.value_date;
    score = clamp_score (weighted cfg inp);
    components = components cfg inp;
    feature_codes_used = inp.feature_codes_used;
    model_version = cfg.model_version;
    config_version = cfg.config_version;
    code_sha = cfg.code_sha;
    source_raw_versions =
        ("coinglass_etf_flows", "coinglass_v4") ∷ ("lth_supply", "coinglass_v4") ∷ [];
    data_quality =
        ("post_etf", flag (post_etf inp.value_date))
        ∷ ("etf_available", flag inp.z_etf.available)
        ∷ ("lth_available", flag inp.z_lth.available)
        ∷ ("miner_available", flag inp.z_miner.available)
        ∷ ("stablecoin_velocity_available", flag inp.z_stablecoin_velocity.available)
        ∷ ("exchange_balance_available", flag inp.z_exchange_balance.available)
        ∷ ("bitfinex_margin_available", flag inp.z_bitfinex_margin.available)
        ∷ ("stablecoin_dry_powder_7d_available", flag inp.z_dry_powder_7d.available)
        ∷ ("stablecoin_dry_powder_30d_available", flag inp.z_dry_powder_30d.available)
        ∷ ("etf_aum_velocity_available", flag inp.z_etf_aum_velocity.available)
        ∷ ("etf_concentration_hhi_available", flag inp.z_etf_concentration_hhi.available)
        ∷ ("options_dealer_skew_available", flag inp.z_options_dealer_skew.available)
        ∷ ("liquidity_flow_n", number (liquidity_sum cfg inp).1)
        ∷ ("partial_coverage", flag (partial_coverage inp))
        ∷ ("display_name", text "Holder Conviction")
        ∷ (
          "rename_note",
          text
              "domain_code=CAPITAL_FLOWS retained for DB schema stability; semantics since engine_v1.1.0 = Holder Conviction (ETF flows + LTH supply changes)",
        )
        ∷ [];
  }

  unfoldable pub compute_score : ScoreInputs F → Config F → DomainScore F
  unfolding defaults score_with
  compute_score inp cfg = score_with inp (defaults cfg)
