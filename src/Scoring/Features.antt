-- ===== src/Scoring/Features.antt =====
-- The feature formulas of internal/{liquidity,leverage,volatility,marketstress,capitalflows}/
-- features/features.go. A pair `(value, ok bool)` is an `Option`. Where packages
-- repeat a function word for word (`PctChange`, `Ratio`, `ZScoreLatest`, `PercentileRank`), it stands
-- here once.
pub mod Laws
use marketengine.Prelude.{
  ℕ, zero, suc, ◌-◌, String, Bool, ◌||◌, ◌==◌, Option, none, some, List, [], ◌∷◌, ltb, eqb, length,
  get_or, if◌then◌else◌,
}
use marketengine.Float.{Float, ◌⊕◌, ◌⊖◌, ◌⊗◌, ◌⊘◌, ◌<?◌, ◌≤?◌, ◌=?◌, of_ℕ}
use marketengine.Scoring.Stats.{std_dev, z_score, correlation}

unfoldable pub coin_id_for_asset : String → String
coin_id_for_asset a = if a == "BTC" then "bitcoin" else if a == "ETH" then "ethereum" else ""

unfoldable pub perp_symbol_for_asset : String → String
perp_symbol_for_asset a = if a == "BTC" then "BTCUSDT" else if a == "ETH" then "ETHUSDT" else ""

-- xs[n:]
drop : {A : Type 0} → ℕ → List A → List A
drop zero xs = xs
drop (suc n) [] = []
drop (suc n) (x ∷ xs) = drop n xs

pub record CrowdPositioningInputs (F : Type 0) : Type 0 where
  pub global_account_ratio : F
  pub top_account_ratio : F
  pub top_position_ratio : F
  pub taker_buy_usd : F
  pub taker_sell_usd : F

module _ {F : Type 0} ⦃f : Float F⦄ where
  abbrev pub unusable : F → Bool
  unusable x = f.is_nan x || f.is_inf x

  unfoldable pub pct_change : F → F → Option F
  pct_change now past =
      if (past =? of_ℕ 0) || unusable now || unusable past then none else some ((now ⊖ past) ⊘ past)

  unfoldable pub ratio : F → F → Option F
  ratio numer denom =
      if (denom =? of_ℕ 0) || unusable numer || unusable denom then none else some (numer ⊘ denom)

  -- `series[len(series)-1]` panics on no series; the callers ask for at least one observation
  unfoldable pub z_score_latest : List F → ℕ → Option F
  unfolding z_score
  z_score_latest series min_obs =
      let z = z_score (get_or series (length series - 1) f.nan) series in
      if ltb (length series) min_obs || unusable z then none else some z

  -- the counter of the loop over the values
  unfoldable pub count_below : F → List F → ℕ
  count_below x [] = 0
  count_below x (v ∷ vs) = let below = count_below x vs in if v ≤? x then suc below else below

  unfoldable pub percentile_rank : F → List F → Option F
  unfolding count_below
  percentile_rank x [] = none
  percentile_rank x (v ∷ vs) = some (of_ℕ (count_below x (v ∷ vs)) ⊘ of_ℕ (length (v ∷ vs)))

  unfoldable pub top_traders_position_skew : CrowdPositioningInputs F → Option F
  top_traders_position_skew inp =
      if inp.top_position_ratio ≤? of_ℕ 0
      then none
      else some (f.abs (inp.top_position_ratio ⊖ of_ℕ 1))

  unfoldable pub crowd_vs_smart_divergence : CrowdPositioningInputs F → Option F
  crowd_vs_smart_divergence inp =
      if inp.top_account_ratio ≤? of_ℕ 0 || inp.global_account_ratio ≤? of_ℕ 0
      then none
      else some (f.log (inp.top_account_ratio ⊘ inp.global_account_ratio))

  unfoldable pub taker_aggression : CrowdPositioningInputs F → Option F
  taker_aggression inp =
      let denom = inp.taker_buy_usd ⊕ inp.taker_sell_usd in
      if denom ≤? of_ℕ 0 then none else some ((inp.taker_buy_usd ⊖ inp.taker_sell_usd) ⊘ denom)

  unfoldable pub annualized_basis_from_funding : F → F
  annualized_basis_from_funding rate = rate ⊗ of_ℕ 3 ⊗ of_ℕ 365 ⊗ of_ℕ 100

  -- `CGOptionsOIVelocity30d` and `StablecoinMcapVelocity30d`
  unfoldable pub velocity_30d : F → F → Option F
  velocity_30d now past =
      if (past =? of_ℕ 0) || unusable now || unusable past
      then none
      else some ((now ⊖ past) ⊘ of_ℕ 30)

  unfoldable pub etf_aum_velocity_30d : F → F → Option F
  etf_aum_velocity_30d now past =
      if past ≤? of_ℕ 0 || unusable now || unusable past
      then none
      else some ((now ⊖ past) ⊘ of_ℕ 30)

  unfoldable pub max_pain_distance : F → F → Option F
  max_pain_distance spot max_pain =
      if spot ≤? of_ℕ 0 || f.is_nan spot || f.is_nan max_pain
      then none
      else some (f.abs (spot ⊖ max_pain) ⊘ spot)

  unfoldable pub diff : F → F → Option F
  diff now past = if unusable now || unusable past then none else some (now ⊖ past)

  unfoldable pub std_dev_of : List F → ℕ → Option F
  unfolding std_dev
  std_dev_of xs min_obs =
      let sd = std_dev xs in if ltb (length xs) min_obs || unusable sd then none else some sd

  unfoldable pub options_dealer_skew : F → F → Option F
  options_dealer_skew call put =
      let denom = call ⊕ put in
      if denom ≤? of_ℕ 0 || f.is_nan call || f.is_nan put then none else some ((call ⊖ put) ⊘ denom)

  unfoldable pub bitfinex_margin_skew : F → F → Option F
  bitfinex_margin_skew long short =
      if f.is_nan long || f.is_nan short || long <? of_ℕ 0 || short <? of_ℕ 0
      then none
      else some (f.log ((long ⊕ of_ℕ 1) ⊘ (short ⊕ of_ℕ 1)))

  unfoldable pub log_returns : List F → List F
  log_returns [] = []
  log_returns (p ∷ []) = []
  log_returns (p ∷ q ∷ ps) =
      let rest = log_returns (q ∷ ps) in if p ≤? of_ℕ 0 then rest else f.log (q ⊘ p) ∷ rest

  tail_correlation : List F → List F → Option F
  unfolding drop correlation
  tail_correlation btc alt =
      let n = if ltb (length alt) (length btc) then length alt else length btc in
      let c = correlation (drop (length btc - n) btc) (drop (length alt - n) alt) in
      if ltb n 10 || f.is_nan c then none else some c

  abbrev add_found : Option F → F × ℕ → F × ℕ
  add_found none acc = acc
  add_found (some c) (total, count) = (total ⊕ c, suc count)

  correlations_from : List F → F × ℕ → List (List F) → F × ℕ
  unfolding tail_correlation
  correlations_from btc acc [] = acc
  correlations_from btc acc (alt ∷ alts) =
      correlations_from btc (add_found (tail_correlation btc alt) acc) alts

  abbrev average_found : F × ℕ → Option F
  average_found (total, count) = if eqb count 0 then none else some (total ⊘ of_ℕ count)

  unfoldable pub avg_btc_alt_correlation : List F → List (List F) → Option F
  unfolding correlations_from
  avg_btc_alt_correlation btc alts = average_found (correlations_from btc (of_ℕ 0, 0) alts)

  unfoldable pub coinbase_premium_abs : F → F → Option F
  coinbase_premium_abs coinbase binance =
      if binance ≤? of_ℕ 0 then none else some (f.abs (coinbase ⊖ binance) ⊘ binance)

  unfoldable pub log_1p : F → F
  log_1p x = if unusable x then f.nan else f.log1p x

  -- if d := math.Abs(x - 1.0); d > maxDev { maxDev = d }
  abbrev widen : Option F → F → F
  widen none max_dev = max_dev
  widen (some x) max_dev = if max_dev <? f.abs (x ⊖ of_ℕ 1) then f.abs (x ⊖ of_ℕ 1) else max_dev

  -- a price `x float64` with its `xOk bool` is an `Option`
  unfoldable pub peg_deviation_scaled : Option F → Option F → Option F
  peg_deviation_scaled none none = none
  peg_deviation_scaled usdt usdc = some (f.log1p (widen usdc (widen usdt (of_ℕ 0)) ⊗ of_ℕ 10_000))

  unfoldable pub basis_inversion_depth : F → F
  basis_inversion_depth basis = f.max (of_ℕ 0) (f.minus basis)
