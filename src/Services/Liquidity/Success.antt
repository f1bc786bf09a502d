-- ===== src/Services/Liquidity/Success.antt =====
-- When the runs of the liquidity service succeed.
use marketengine.Prelude.{◌≡◌, false, String, Option, none, some, List, All, ◌==◌}
use marketengine.Float.{Float}
use marketengine.Time.{Time, utc_day, after}
use marketengine.Effects.Rules.{Succeeds, Succeeds-context, Succeeds-bind_known, Returns-context}
use marketengine.Float.Laws.{IsOrdered}
use marketengine.Scoring.Validity.{liquidity_score_valid}
use marketengine.Pipeline.Schedule.{IsDay, IsKnown}
use marketengine.Services.Liquidity.Run.{IsFor, gather_score_inputs-Returns}
use marketengine.Domain.{Asset}
use marketengine.Scoring.Liquidity.{Config}
use marketengine.Pipeline.Success.{
  IsTame, IfPresent, Answers, IsHelpful, sure_steps, succeed_then, if_present-Succeeds,
  complete-Succeeds, clock_now-Succeeds, compute_range-Succeeds, compute_assets-Succeeds,
}
use marketengine.Services.Liquidity.{
  store, compute_global_features, compute_asset_features, gather_score_inputs, compute_asset_day,
  compute_day, run_once, run_backfill,
}
use marketengine.Services.Liquidity.Interfaces.{Ports, StablecoinProvider, History}
use marketengine.Services.Liquidity.Ingest.{
  ingest_stablecoin_supply, ingest_per_stablecoin_supply, ingest_chain_tvl, ingest_market_cap,
  ingest_exchange_netflow, ingest_all,
}

-- The writes succeed but for scores that the check refuses (`base`), the providers that are there
-- answer (the one of market capitalisations may fail), and so do the queries, or they say that there is
-- nothing.
pub record IsServed {F : Type 0} ⦃f : Float F⦄ (ports : Ports F) : Type 0 where
  pub base : IsHelpful ports.base
  pub supply :
      IfPresent (λ s. Answers (StablecoinProvider.fetch_all_stablecoins_chart s)) ports.stable
  pub per_coin :
      IfPresent (λ s. Answers (StablecoinProvider.fetch_per_stablecoin_supply s)) ports.stable
  pub tvl : IfPresent (λ fetch. (chain : String) → Answers (fetch chain)) ports.tvl
  pub netflow :
      IfPresent
        (λ fetch. (assets : List Asset) (start end : Time) → Answers (fetch assets start end))
        ports.netflow
  pub stored_supply :
      (s : String) (d c : Time) (h : History F) → IsTame (ports.get_stablecoin_supply_as_of s d c h)
  pub stored_major :
      (s : List String) (d c : Time) → Answers (ports.sum_stablecoin_supply_as_of s d c)
  pub stored_tvl :
      (s : String) (d c : Time) (h : History F) → IsTame (ports.get_chain_tvl_as_of s d c h)
  pub stored_netflow : (a : Asset) (d c : Time) → Answers (ports.sum_7d_netflow a d c)

module _ {F : Type 0} ⦃f : Float F⦄ (ports : Ports F) (cfg : Config F) (assets : List Asset)
    (served : IsServed ports) where
  ingest_stablecoin_supply-Succeeds : Succeeds (ingest_stablecoin_supply ports cfg assets)
  unfolding ingest_stablecoin_supply
  ingest_stablecoin_supply-Succeeds =
      if_present-Succeeds ports.stable served.supply
        (λ p answers. search (sure_steps, served.base, answers) depth 12)

  ingest_per_stablecoin_supply-Succeeds : Succeeds (ingest_per_stablecoin_supply ports cfg assets)
  unfolding ingest_per_stablecoin_supply
  ingest_per_stablecoin_supply-Succeeds =
      if_present-Succeeds ports.stable served.per_coin
        (λ p answers. search (sure_steps, served.base, answers) depth 12)

  ingest_chain_tvl-Succeeds : Succeeds (ingest_chain_tvl ports cfg assets)
  unfolding ingest_chain_tvl
  ingest_chain_tvl-Succeeds =
      if_present-Succeeds ports.tvl served.tvl
        (λ p answers. search (sure_steps, served.base, answers) depth 12)

  ingest_market_cap-Succeeds :
      (coin_ids : List String) → Succeeds (ingest_market_cap ports cfg assets coin_ids)
  unfolding ingest_market_cap
  ingest_market_cap-Succeeds coin_ids =
      if_present-Succeeds {R = λ fetch. Unit} ports.mcap (present ports.mcap)
        (λ p u. search (sure_steps, served.base) depth 12)
    where
      present : {P : Type 0} (p : Option P) → IfPresent (λ fetch. Unit) p
      present none = tt
      present (some p) = tt

  ingest_exchange_netflow-Succeeds :
      (start end : Time) → Succeeds (ingest_exchange_netflow ports cfg assets start end)
  unfolding ingest_exchange_netflow
  ingest_exchange_netflow-Succeeds start end =
      if_present-Succeeds ports.netflow served.netflow
        (λ p answers. search (sure_steps, served.base, answers) depth 12)

  ingest_all-Succeeds : (from to : Time) → Succeeds (ingest_all ports cfg assets from to)
  unfolding ingest_all
  ingest_all-Succeeds from to =
      search
        (
          succeed_then, Succeeds-context, ingest_stablecoin_supply-Succeeds,
          ingest_per_stablecoin_supply-Succeeds, ingest_chain_tvl-Succeeds,
          ingest_market_cap-Succeeds, ingest_exchange_netflow-Succeeds,
        )
        depth 12

  compute_global_features-Succeeds :
      (d cutoff : Time) → Succeeds (compute_global_features ports cfg assets d cutoff)
  unfolding compute_global_features store
  compute_global_features-Succeeds d cutoff =
      search (sure_steps, served.stored_supply, served.stored_major, served.stored_tvl) depth 24
        fits 4000

  compute_asset_features-Succeeds :
      (asset : Asset) (d cutoff : Time)
      → Succeeds (compute_asset_features ports cfg assets asset d cutoff)
  unfolding compute_asset_features store
  compute_asset_features-Succeeds asset d cutoff =
      search (sure_steps, served.stored_netflow) depth 24 fits 4000

  gather_score_inputs-Succeeds :
      (asset : Asset) (d cutoff : Time)
      → Succeeds (gather_score_inputs ports cfg assets asset d cutoff)
  unfolding gather_score_inputs
  gather_score_inputs-Succeeds asset d cutoff = search (sure_steps, served.base) depth 14

  module _ (laws : IsOrdered F) (named : (cfg.model_version == "") ≡ false)
      (known : All IsKnown assets) where
    compute_asset_day-Succeeds :
        (asset : Asset) (d cutoff : Time)
        → IsKnown asset
        → IsDay d
        → Succeeds (compute_asset_day ports cfg assets asset d cutoff)
    unfolding compute_asset_day
    compute_asset_day-Succeeds asset d cutoff k dated =
        succeed_then (compute_asset_features-Succeeds asset d cutoff) (λ _.
          Succeeds-bind_known (IsFor ports cfg assets asset d) _ _
            (Succeeds-context _ _ (gather_score_inputs-Succeeds asset d cutoff))
            (Returns-context _ _ _ (gather_score_inputs-Returns ports cfg assets asset d cutoff))
            (λ inp (a, t).
              complete-Succeeds ports.base served.base _ _
                (liquidity_score_valid laws inp cfg (rw a k) (rw t dated) named)))

    compute_day-Succeeds :
        (d cutoff : Time) → IsDay d → Succeeds (compute_day ports cfg assets d cutoff)
    unfolding compute_day
    compute_day-Succeeds d cutoff dated =
        succeed_then (Succeeds-context _ _ (compute_global_features-Succeeds d cutoff)) (λ _.
          compute_assets-Succeeds ports.base (compute_asset_day ports cfg assets) assets d cutoff
            known (λ a k. compute_asset_day-Succeeds a d cutoff k dated))

    -- The liquidity service does not fail by itself. The assets are known, the settings name the model,
    -- the days are dated, every score that passes `DomainScore.Validate` is saved, every other write
    -- succeeds, the providers that are there answer (the one of market capitalisations need not), and
    -- the queries answer or say that there is nothing: then a run for one day succeeds, and so does a
    -- backfill whose period is not reversed.
    pub liquidity_runs-Succeed :
        (value_date from to : Time)
        → IsDay (utc_day value_date)
        → IsDay (utc_day from)
        → after (utc_day from) (utc_day to) ≡ false
        → Succeeds (run_once ports cfg assets value_date)
          × Succeeds (run_backfill ports cfg assets from to)
    unfolding run_once run_backfill
    liquidity_runs-Succeed value_date from to dated started ordered = (
      succeed_then (ingest_all-Succeeds _ _) (λ _.
          succeed_then (clock_now-Succeeds ports.base) (λ cutoff.
            compute_range-Succeeds ports.base (compute_day ports cfg assets) _ _ cutoff dated
              compute_day-Succeeds)),
      rw ordered (
          succeed_then (ingest_all-Succeeds _ _) (λ _.
            succeed_then (clock_now-Succeeds ports.base) (λ now.
              compute_range-Succeeds ports.base (compute_day ports cfg assets) _ _ _ started
                compute_day-Succeeds))),
    )
