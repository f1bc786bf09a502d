-- ===== src/Backtest/Service/Replay.antt =====
-- What a replay computes, and its independence of the smoothing span.
use marketengine.Prelude.{◌≡◌, refl, String, Option, List, [], ◌∷◌, arith}
use marketengine.Prelude.Int.{ℤ}
use marketengine.Float.{Float}
use marketengine.Time.{Time}
use marketengine.Domain.{Asset}
use marketengine.Regime.Config as Engine
use marketengine.Regime.Smoothing.{ema_smooth}
use marketengine.Regime.Risk.{compute_transition_risk, raw_risk}
use marketengine.Backtest.Ports.{Config, Ports}
use marketengine.Backtest.State.{smoothed, make_state, compute_one}
use marketengine.Backtest.Service.{replay_one, replay_day, replay_days, replay}

module _ {F : Type 0} ⦃f : Float F⦄ where
  -- Without a trail there is nothing to smooth with.
  smoothed_lem : (engine : Engine.Config F) (x : F) → smoothed engine x ≡ x
  unfolding smoothed ema_smooth
  smoothed_lem engine x = ground arith

  abbrev with_span : Engine.Config F → ℤ → Engine.Config F
  with_span engine n = record engine { smoothing_span_days = n }

  module _ (ports : Ports F) (cfg : Config) (engine : Engine.Config F) (n : ℤ) where
    compute_one-with_span :
        (asset : Asset) (d : Time)
        → compute_one ports cfg (with_span engine n) asset d ≡ compute_one ports cfg engine asset d
    unfolding compute_one make_state compute_transition_risk raw_risk
    compute_one-with_span asset d = simp (smoothed_lem)

    replay_one-with_span :
        (id : String) (a : Asset) (d : Time)
        → replay_one ports cfg (with_span engine n) id a d ≡ replay_one ports cfg engine id a d
    unfolding replay_one
    replay_one-with_span id a d = simp (compute_one-with_span a d)

    replay_day-with_span :
        (id : String) (assets : List Asset) (d : Time)
        → replay_day ports cfg (with_span engine n) id assets d
          ≡ replay_day ports cfg engine id assets d
    unfolding replay_day
    replay_day-with_span id [] d = refl
    replay_day-with_span id (a ∷ as') d =
        simp (replay_one-with_span id a d, replay_day-with_span id as' d)

    replay_days-with_span :
        (id : String) (assets : List Asset) (ds : List Time)
        → replay_days ports cfg (with_span engine n) id assets ds
          ≡ replay_days ports cfg engine id assets ds
    unfolding replay_days
    replay_days-with_span id assets [] = refl
    replay_days-with_span id assets (d ∷ ds) =
        simp (replay_day-with_span id assets d, replay_days-with_span id assets ds)

    -- A replay under another smoothing span asks the same, writes the same runs and states, and
    -- returns the same, whatever the ports answer: the span of the engine's settings has no effect.
    pub replay-with_span :
        (yaml : String) (assets : List Asset) (from to : Time) (parent : Option String)
        (mode : String)
        → replay ports cfg (with_span engine n) yaml assets from to parent mode
          ≡ replay ports cfg engine yaml assets from to parent mode
    unfolding replay
    replay-with_span yaml assets from to parent mode = simp (replay_days-with_span)
