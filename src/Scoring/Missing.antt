-- ===== src/Scoring/Missing.antt =====
-- Readings that the source did not deliver.
use marketengine.Prelude.{true, false, ◌≡◌, arith, if◌then◌else◌}
use marketengine.Float.{Float}
use marketengine.Scoring.{Reading, usable, signal, opposed, add_signal, add_opposed}
use marketengine.Scoring.Volatility
use marketengine.Scoring.CapitalFlows

module _ {F : Type 0} ⦃f : Float F⦄ where
  -- The reading with its value replaced, if it is not available.
  unfoldable pub replaced : F → Reading F → Reading F
  replaced x r = if r.available then r else record r { value = x }

  replaced-available : (x : F) (r : Reading F) → (replaced x r).available ≡ r.available
  unfolding replaced
  replaced-available x r = ground arith

  usable-replaced : (x : F) (r : Reading F) → usable (replaced x r) ≡ usable r
  unfolding replaced
  usable-replaced x r = ground arith

  signal-replaced : (scale x : F) (r : Reading F) → signal scale (replaced x r) ≡ signal scale r
  unfolding replaced signal
  signal-replaced scale x r = ground arith

  opposed-replaced : (scale x : F) (r : Reading F) → opposed scale (replaced x r) ≡ opposed scale r
  unfolding replaced opposed
  opposed-replaced scale x r = ground arith

  add_signal-replaced :
      (scale x : F) (r : Reading F) (acc : F × F)
      → add_signal scale (replaced x r) acc ≡ add_signal scale r acc
  unfolding replaced add_signal
  add_signal-replaced scale x r acc = ground arith

  add_opposed-replaced :
      (scale x : F) (r : Reading F) (acc : F × F)
      → add_opposed scale (replaced x r) acc ≡ add_opposed scale r acc
  unfolding replaced add_opposed
  add_opposed-replaced scale x r acc = ground arith

  module _ (x : F) (inp : CapitalFlows.ScoreInputs F) where
    -- The inputs with every value that is not available replaced by `x`.
    unfoldable pub flows_replaced : CapitalFlows.ScoreInputs F
    flows_replaced = record inp {
      z_etf = replaced x inp.z_etf;
      z_lth = replaced x inp.z_lth;
      z_miner = replaced x inp.z_miner;
      z_stablecoin_velocity = replaced x inp.z_stablecoin_velocity;
      z_exchange_balance = replaced x inp.z_exchange_balance;
      z_bitfinex_margin = replaced x inp.z_bitfinex_margin;
      z_dry_powder_7d = replaced x inp.z_dry_powder_7d;
      z_dry_powder_30d = replaced x inp.z_dry_powder_30d;
      z_etf_aum_velocity = replaced x inp.z_etf_aum_velocity;
      z_etf_concentration_hhi = replaced x inp.z_etf_concentration_hhi;
      z_options_dealer_skew = replaced x inp.z_options_dealer_skew;
    }

    -- A value that its source marks as not available has no effect: the whole capital flows score,
    -- with its components and its quality marks, is the one of the inputs in which every such value
    -- is replaced.
    pub unavailable_ignored :
        (cfg : CapitalFlows.Config F)
        → CapitalFlows.compute_score flows_replaced cfg ≡ CapitalFlows.compute_score inp cfg
    unfolding flows_replaced CapitalFlows.compute_score CapitalFlows.score_with
        CapitalFlows.weighted CapitalFlows.components CapitalFlows.liquidity_flow
        CapitalFlows.liquidity_sum CapitalFlows.partial_coverage
    unavailable_ignored cfg =
        simp (replaced-available, signal-replaced, add_signal-replaced, add_opposed-replaced)

  -- Before the launch of the ETFs the score depends on the date, the long-term holders and the
  -- miners only.
  pub pre_etf_score :
      (inp other : CapitalFlows.ScoreInputs F) (cfg : CapitalFlows.Config F)
      → CapitalFlows.post_etf inp.value_date ≡ false
      → other.value_date ≡ inp.value_date
      → other.z_lth ≡ inp.z_lth
      → other.z_miner ≡ inp.z_miner
      → (CapitalFlows.compute_score other cfg).score ≡ (CapitalFlows.compute_score inp cfg).score
  unfolding CapitalFlows.compute_score CapitalFlows.score_with CapitalFlows.weighted
  pre_etf_score inp other cfg early date lth miner = rw (date, early, lth, miner)

  -- While the skew of options is usable, its proxy changes nothing in the score and its components.
  pub proxy_unused :
      (inp : Volatility.ScoreInputs F) (proxy : Reading F) (cfg : Volatility.Config F)
      → usable inp.z_skew_real ≡ true
      → let s = Volatility.compute_score inp cfg in
        let t = Volatility.compute_score (record inp { z_skew_proxy = proxy }) cfg in
        (t.score ≡ s.score) × (t.components ≡ s.components)
  unfolding Volatility.compute_score Volatility.score_with Volatility.weighted Volatility.components
      Volatility.base_score Volatility.tail_risk Volatility.options_cross Volatility.options_sum
  proxy_unused inp proxy cfg real = ground arith
