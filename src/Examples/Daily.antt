-- ===== src/Examples/Daily.antt =====
-- Concrete inputs: the steps and the daemon of the orchestrator.
use mathlib.Core.Path.{subst}
use marketengine.Prelude.{◌*◌, ◌+◌, ◌≡◌, refl, String, List, [], ◌∷◌, ◌==◌, if◌then◌else◌, map}
use marketengine.Float.Fixed.{Fixed, fixed_float, Fixed-IsOrdered}
use marketengine.Time.{Time, day, utc_day}
use marketengine.Errors.{Result, ok, err, not_found, message, steps_failed}
use marketengine.Effects.Rules.{ok_injective}
use marketengine.Domain.{asset_global}
use marketengine.Pipeline.Schedule.{Emits}
use marketengine.Services.Liquidity.Run.{IsVersioned}
use marketengine.GoMap.{Map, lookup, insert}
use marketengine.Orchestrator.{Step, run_once, daemon}
use marketengine.Orchestrator.Laws.{run_once_lem, daemon_lem, malformed}
use marketengine.Orchestrator.Settings.{
  OrchDomainFeats, OrchDomainStress, FeatureConfig, feature_versions,
  load_liquidity_feature_versions, liquidity_config,
}
use marketengine.Orchestrator.Domains.{
  default_assets, run_liquidity, run_leverage, run_capital_flows, run_market_stress, run_volatility,
}
use marketengine.Orchestrator.Domains.Promise.{scheduled, domain_steps-Emit}
use marketengine.Examples.Ports.{
  liquidity_ports, leverage_ports, flows_ports, stress_ports, volatility_ports,
}

-- every feature has the version "v1"
abbrev feature_names : List String
feature_names =
    "stablecoin_supply_total" ∷ "stablecoin_growth_30d" ∷ "stablecoin_growth_zscore_90d"
    ∷ "exchange_netflow_7d" ∷ "exchange_netflow_zscore_180d" ∷ "defi_tvl_usd"
    ∷ "defi_tvl_growth_30d" ∷ "defi_tvl_growth_zscore_180d" ∷ "stablecoin_supply_usdt_usdc_dai"
    ∷ "ssr" ∷ "ssr_percentile_rank_365d" ∷ []

abbrev load : String → Result (List FeatureConfig)
load path = ok (map (λ n. record { name = n; version = "v1" }) feature_names)

abbrev feats : OrchDomainFeats
feats = record { model_version = "m1"; intermediate_version = "v1"; final_version = "v2" }

abbrev stress_feats : OrchDomainStress
stress_feats = record {
  model_version = "m1";
  intermediate_version = "v1";
  final_version = "v2";
  leverage_basis_version = "v1";
}

loaded_versions :
    (fv : Map String)
    → load_liquidity_feature_versions load "" ≡ ok fv
    → IsVersioned (liquidity_config {F = Fixed} "c1" "abc" "m1" fv)
unfolding load_liquidity_feature_versions feature_versions liquidity_config insert lookup
loaded_versions fv e =
    subst (λ t. IsVersioned (liquidity_config {F = Fixed} "c1" "abc" "m1" t)) (ok_injective e)
      (record {
        model = refl;
        supply = refl;
        growth = refl;
        z_score = refl;
        netflow_7d = refl;
        netflow_z = refl;
        tvl = refl;
        tvl_growth = refl;
        tvl_z = refl;
        major = refl;
        ssr = refl;
        ssr_percentile = refl;
      })

domain_steps-Emit_example :
    Emits
      (scheduled (90 * day) (98 * day) default_assets)
      (run_liquidity "c1" "abc" load liquidity_ports "" "m1" (90 * day) (98 * day))
    × Emits
        (scheduled (90 * day) (98 * day) default_assets)
        (run_leverage "c1" "abc" leverage_ports feats (90 * day) (98 * day))
    × Emits
        (scheduled (90 * day) (98 * day) (asset_global ∷ []))
        (run_capital_flows "c1" "abc" flows_ports feats (90 * day) (98 * day))
    × Emits
        (scheduled (90 * day) (98 * day) default_assets)
        (run_market_stress "c1" "abc" stress_ports stress_feats (90 * day) (98 * day))
    × Emits
        (scheduled (90 * day) (98 * day) default_assets)
        (run_volatility "c1" "abc" volatility_ports feats (90 * day) (98 * day))
unfolding utc_day
domain_steps-Emit_example =
    domain_steps-Emit Fixed-IsOrdered "c1" "abc" (90 * day) (98 * day) refl load liquidity_ports ""
      "m1" leverage_ports feats flows_ports feats stress_ports stress_feats volatility_ports feats
      loaded_versions (record { model = refl; intermediate = refl; final = refl })
      (record { model = refl; intermediate = refl; final = refl })
      (record { model = refl; intermediate = refl; final = refl })
      (record { model = refl; intermediate = refl; final = refl })

-- three steps, of which the second fails; each writes its name and its day
abbrev steps : List (Step (String × Time))
steps =
    record { name = "liquidity"; fn = λ from to h. (ok tt, ("liquidity", from) ∷ h) }
    ∷ record { name = "leverage"; fn = λ from to h. (err not_found, ("half", from) ∷ h) }
    ∷ record { name = "volatility"; fn = λ from to h. (ok tt, ("volatility", to) ∷ h) }
    ∷ []

run_once_lem_example :
    ((run_once steps (90 * day) (98 * day) []).0 ≡ err (steps_failed ("leverage" ∷ [])))
    × ((run_once steps (90 * day) (98 * day) []).1
        ≡ ("volatility", 98 * day) ∷ ("half", 90 * day) ∷ ("liquidity", 90 * day) ∷ [])
run_once_lem_example = run_once_lem steps (90 * day) (98 * day) []

abbrev parse : String → Result Time
parse text = if text == "1970-04-09" then ok (98 * day) else err (message "no date")

daemon_lem_example : daemon steps parse "tomorrow" (100 * day) ((101 * day + 5) ∷ []) [] ≡ (
  ok tt,
  ("volatility", 101 * day)
      ∷ ("half", 101 * day)
      ∷ ("liquidity", 101 * day)
      ∷ ("volatility", 0)
      ∷ ("half", 0)
      ∷ ("liquidity", 0)
      ∷ [],
)
daemon_lem_example =
    daemon_lem steps parse {now = 100 * day} ((101 * day + 5) ∷ []) [] (malformed (λ e. cc) refl)
