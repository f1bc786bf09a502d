-- ===== src/Scoring.antt =====
-- What the five domain packages share (internal/{liquidity,leverage,volatility,marketstress,
-- capitalflows}/pipeline.go): readings that may be missing, the squashing of pkg/math, averages of
-- the readings at hand, and the clamp of a score.
pub mod Stats
pub mod Features
pub mod Validity
pub mod Missing
pub mod Liquidity
pub mod Leverage
pub mod Volatility
pub mod MarketStress
pub mod CapitalFlows
use marketengine.Prelude.{Bool, ◌&&◌, not, if◌then◌else◌}
use marketengine.Float.{Float, ◌⊕◌, ◌⊘◌, ◌<?◌, ◌=?◌, of_ℕ}

-- a field `X float64` of `ScoreInputs` with its `XAvailable bool`
pub record Reading (F : Type 0) : Type 0 where
  pub value : F
  pub available : Bool

module _ {F : Type 0} ⦃f : Float F⦄ where
  -- in.XAvailable && !math.IsNaN(in.X)
  abbrev pub usable : Reading F → Bool
  usable r = r.available && not (f.is_nan r.value)

  -- if c.W == 0 { c.W = d }
  abbrev pub or_default : F → F → F
  or_default x d = if x =? of_ℕ 0 then d else x

  unfoldable pub tanh_squash : F → F → F
  tanh_squash z scale = if f.is_nan z then f.nan else f.tanh (z ⊘ scale)

  -- a component that stays 0 without a usable reading
  unfoldable pub signal : F → Reading F → F
  signal scale r = if usable r then tanh_squash r.value scale else of_ℕ 0

  unfoldable pub opposed : F → Reading F → F
  opposed scale r = if usable r then f.minus (tanh_squash r.value scale) else of_ℕ 0

  -- `comp += x; n++` under the test of the reading
  unfoldable pub add_signal : F → Reading F → F × F → F × F
  add_signal scale r (comp, n) =
      if usable r then (comp ⊕ tanh_squash r.value scale, n ⊕ of_ℕ 1) else (comp, n)

  unfoldable pub add_opposed : F → Reading F → F × F → F × F
  add_opposed scale r (comp, n) =
      if usable r then (comp ⊕ f.minus (tanh_squash r.value scale), n ⊕ of_ℕ 1) else (comp, n)

  -- `var comp, n float64`, and `if n > 0 { comp /= n }`
  abbrev pub nothing_yet : F × F
  nothing_yet = (of_ℕ 0, of_ℕ 0)

  unfoldable pub average : F × F → F
  average (comp, n) = if of_ℕ 0 <? n then comp ⊘ n else comp

  unfoldable pub clamp_score : F → F
  clamp_score score =
      if of_ℕ 1 <? score
      then of_ℕ 1
      else if score <? f.minus (of_ℕ 1)
      then f.minus (of_ℕ 1)
      else score
