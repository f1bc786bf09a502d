-- ===== src/Pipeline.antt =====
-- What the five domain services share (internal/{liquidity,volatility,marketstress,capitalflows,
-- leverage}/service.go and port.go). The packages repeat `saveFeature`, `tryComputeZScore`,
-- `computeRange` and the branches on an error word for word; each stands here once. `Row` is the type
-- of the raw rows that a service writes.
pub mod Traces
pub mod Schedule
pub mod Steps
pub mod Success
use Prim.Native.String.{◌++◌ as concat}
use marketengine.Prelude.{
  ℕ, ◌-◌, String, Bool, true, false, not, Option, none, some, List, [], ◌∷◌, ltb, length, last,
  if◌then◌else◌,
}
use marketengine.Prelude.Int.{ℤ}
use marketengine.Float.{Float, of_ℕ}
use marketengine.Time.{Time, days_between, sub_days}
use marketengine.Errors.{Err, not_found, wrap, Result, ok, err}
use marketengine.Effects.{
  Eff, pure, raise, query, context, ◌>>=◌, ◌>>◌, perform, skip_error, attempt,
}
use marketengine.Domain.{Asset, asset_global, assets_tradeable, DomainScore, Feature, FeatureKey}
use marketengine.Scoring.{Reading}
use marketengine.Scoring.Features.{
  unusable, pct_change, z_score_latest, percentile_rank, std_dev_of,
}

-- What `fmt.Sprintf` puts into an aggregate id, and a value of a payload.
pub data Part (F : Type 0) : Type 0 where
  str : String → Part F
  date : Time → Part F
  count : ℕ → Part F
  integer : ℤ → Part F
  truth : Bool → Part F

-- the event after a batch of raw rows
pub record IngestEvent (F : Type 0) : Type 0 where
  pub topic : List (Part F)
  pub aggregate_id : List (Part F)
  pub payload : List (String × Part F)

-- the event "scores.….completed.v1" of an asset and a day; capital flows add `post_etf`
pub record ScoreEvent (F : Type 0) : Type 0 where
  pub topic : String
  pub asset : Asset
  pub value_date : Time
  pub score : F
  pub post_etf : Option Bool
  pub model_version : String
  pub config_version : String

pub data Event (F : Type 0) : Type 0 where
  ingest_event : IngestEvent F → Event F
  score_event : ScoreEvent F → Event F

-- What a service writes.
pub data Action (F Row : Type 0) : Type 0 where
  rows_saved : Row → Action F Row
  feature_saved : Feature F → Action F Row
  score_saved : DomainScore F → Action F Row
  published : Event F → Action F Row

-- FeatureRepo, ScoreRepo, Publisher, Clock and the `Save…` methods of RawRepo, one for each
-- constructor of `Row`; each answer may depend on what was written before.
pub record Ports (F Row : Type 0) : Type 0 where
  pub save_rows : Row → List (Action F Row) → Result (Unit {0})
  pub save_feature : Feature F → List (Action F Row) → Result (Unit {0})
  pub get_latest : FeatureKey → Asset → Time → Time → List (Action F Row) → Result F
  pub get_series : FeatureKey → Asset → Time → Time → Time → List (Action F Row) → Result (List F)
  pub save_score : DomainScore F → List (Action F Row) → Result (Unit {0})
  pub publish : Event F → List (Action F Row) → Result (Unit {0})
  pub now : List (Action F Row) → Time

-- `FeatureKey.String`
unfoldable pub key_string : FeatureKey → String
key_string k = concat k.name (concat ":" k.version)

-- errors.Is(err, domain.ErrNotFound)
unfoldable pub is_not_found : Err → Bool
is_not_found not_found = true
is_not_found (wrap text e) = is_not_found e
is_not_found _ = false

-- if len(assets) == 0 { assets = domain.AssetsTradeable() }
abbrev pub or_assets : List Asset → List Asset → List Asset
or_assets [] d = d
or_assets (a ∷ as') d = a ∷ as'

module _ {Act : Type 0} where
  -- if provider == nil { return nil }
  unfoldable pub if_present :
      {P : Type 0} → Option P → (P → Eff Act (Unit {0})) → Eff Act (Unit {0})
  if_present none k = pure tt
  if_present (some p) k = k p

  -- if len(pts) == 0 { return nil }, where what follows may read pts[len(pts)-1]
  unfoldable pub with_last : {P : Type 0} → List P → (P → Eff Act (Unit {0})) → Eff Act (Unit {0})
  with_last [] k = pure tt
  with_last (p ∷ ps) k = k (last p ps)

  -- if v, err := …; err == nil { … }
  unfoldable pub on_success :
      {A : Type 0} → Result A → (A → Eff Act (Unit {0})) → Eff Act (Unit {0})
  on_success (ok a) k = k a
  on_success (err e) k = pure tt

  -- if v, err := …; err == nil { … } else if !errors.Is(err, domain.ErrNotFound) { return err }
  unfoldable pub if_found : {A : Type 0} → Result A → (A → Eff Act (Unit {0})) → Eff Act (Unit {0})
  if_found (ok a) k = k a
  if_found (err e) k = if is_not_found e then pure tt else raise e

  -- if errors.Is(err, domain.ErrNotFound) { return 0, false, nil }
  abbrev pub none_if_missing : {A : Type 0} → Result A → Eff Act (Option A)
  none_if_missing (ok a) = pure (some a)
  none_if_missing (err e) = if is_not_found e then pure none else raise e

  -- if v, ok := …; ok { … }
  unfoldable pub if_some : {A : Type 0} → Option A → (A → Eff Act (Unit {0})) → Eff Act (Unit {0})
  if_some none k = pure tt
  if_some (some a) k = k a

  -- if v, ok, err := …; err == nil && ok { … }
  unfoldable pub on_found :
      {A : Type 0} → Result (Option A) → (A → Eff Act (Unit {0})) → Eff Act (Unit {0})
  on_found (ok (some a)) k = k a
  on_found (ok none) k = pure tt
  on_found (err e) k = pure tt

  -- for _, x := range xs { if err := …; err != nil { return err } }
  unfoldable pub for_each : {A : Type 0} → List A → (A → Eff Act (Unit {0})) → Eff Act (Unit {0})
  for_each [] k = pure tt
  for_each (x ∷ xs) k = do k x; for_each xs k

  -- the loop over the assets of a day, and `computeRange`
  unfoldable pub compute_assets :
      (Asset → Time → Time → Eff Act (Unit {0})) → List Asset → Time → Time → Eff Act (Unit {0})
  unfolding for_each
  compute_assets asset_day assets value_date cutoff =
      for_each assets (λ a. context "asset" (asset_day a value_date cutoff))

  unfoldable pub compute_range :
      (Time → Time → Eff Act (Unit {0})) → Time → Time → Time → Eff Act (Unit {0})
  unfolding for_each
  compute_range compute_day from to cutoff =
      for_each (days_between from to) (λ d. context "day" (compute_day d cutoff))

module _ {F Row : Type 0} ⦃f : Float F⦄ (ports : Ports F Row) where
  -- raws.Save…(rows) and then publisher.Publish(event); `text` wraps the error of the first
  unfoldable pub save_rows : Row → Eff (Action F Row) (Unit {0})
  save_rows rows = perform (ports.save_rows rows) (rows_saved rows)

  unfoldable pub publish : Event F → Eff (Action F Row) (Unit {0})
  publish e = perform (ports.publish e) (published e)

  unfoldable pub announce :
      List (Part F) → List (Part F) → List (String × Part F) → Eff (Action F Row) (Unit {0})
  unfolding publish
  announce topic aggregate_id payload =
      publish
        (ingest_event (record { topic = topic; aggregate_id = aggregate_id; payload = payload }))

  -- the end of `computeAssetDay`: the score is saved, and then announced
  unfoldable pub complete : DomainScore F → ScoreEvent F → Eff (Action F Row) (Unit {0})
  unfolding publish
  complete score e = do
    context "save score" (perform (ports.save_score score) (score_saved score))
    publish (score_event e)

  unfoldable pub clock_now : Eff (Action F Row) Time
  clock_now = query (λ h. ok (ports.now h))

  unfoldable pub get_latest : FeatureKey → Asset → Time → Time → Eff (Action F Row) F
  get_latest key asset value_date cutoff = query (ports.get_latest key asset value_date cutoff)

  -- the literal `domain.Feature{…}` of `saveFeature`
  abbrev pub new_feature : String → FeatureKey → Asset → Time → F → String → String → Feature F
  new_feature code_sha key asset value_date v src_name src_ver = record {
    key = key;
    asset = asset;
    value_date = value_date;
    timeframe = "1d";
    value = v;
    source_raw_versions = (src_name, src_ver) ∷ [];
    code_sha = code_sha;
  }

  -- `saveFeature`: a value that is not finite is not written, and an error of `Save` is logged only
  unfoldable pub save_feature :
      String → FeatureKey → Asset → Time → F → String → String → Eff (Action F Row) (Unit {0})
  save_feature code_sha key asset value_date v src_name src_ver =
      let x = new_feature code_sha key asset value_date v src_name src_ver in
      if unusable v then pure tt else skip_error (perform (ports.save_feature x) (feature_saved x))

  -- if err != nil { return 0, false }
  unfoldable pub or_none :
      {A : Type 0} → Result A → (A → Eff (Action F Row) (Option F)) → Eff (Action F Row) (Option F)
  or_none (ok a) k = k a
  or_none (err e) k = pure none

  -- `GetSeries` over the window that ends on the day
  unfoldable pub series_of :
      FeatureKey → Asset → Time → Time → ℕ → Eff (Action F Row) (Result (List F))
  series_of key asset value_date cutoff days =
      attempt (query (ports.get_series key asset (sub_days value_date days) value_date cutoff))

  unfoldable pub try_compute_z_score :
      FeatureKey → Asset → Time → Time → ℕ → ℕ → Eff (Action F Row) (Option F)
  unfolding series_of or_none
  try_compute_z_score key asset value_date cutoff window min_obs = do
    series ← series_of key asset value_date cutoff (window - 1)
    or_none series (λ xs. pure (z_score_latest xs min_obs))

  -- if z, ok := s.tryComputeZScore(from …); ok { s.saveFeature(to …) }
  unfoldable pub save_z_score :
      String
      → FeatureKey
      → FeatureKey
      → Asset
      → Time
      → Time
      → ℕ
      → ℕ
      → String
      → String
      → Eff (Action F Row) (Unit {0})
  unfolding try_compute_z_score if_some save_feature
  save_z_score code_sha from to asset value_date cutoff window min_obs src_name src_ver = do
    z ← try_compute_z_score from asset value_date cutoff window min_obs
    if_some z (λ v. save_feature code_sha to asset value_date v src_name src_ver)

  unfoldable pub try_compute_std_dev :
      FeatureKey → Asset → Time → Time → ℕ → ℕ → Eff (Action F Row) (Option F)
  unfolding series_of or_none
  try_compute_std_dev key asset value_date cutoff window min_obs = do
    series ← series_of key asset value_date cutoff (window - 1)
    or_none series (λ xs. pure (std_dev_of xs min_obs))

  -- `tryComputeGrowth` (of the global asset) and `tryComputeLTHChange` (of bitcoin)
  unfoldable pub try_compute_growth :
      FeatureKey → Asset → Time → Time → ℕ → Eff (Action F Row) (Option F)
  unfolding get_latest or_none
  try_compute_growth key asset value_date cutoff window = do
    now ← attempt (get_latest key asset value_date cutoff)
    or_none now (λ x. do
      earlier ← attempt (get_latest key asset (sub_days value_date window) cutoff)
      or_none earlier (λ y. pure (pct_change x y)))

  unfoldable pub try_compute_percentile_rank :
      FeatureKey → Asset → Time → Time → ℕ → ℕ → Eff (Action F Row) (Option F)
  unfolding get_latest series_of or_none
  try_compute_percentile_rank key asset value_date cutoff window min_obs = do
    current ← attempt (get_latest key asset value_date cutoff)
    or_none current (λ x. do
      series ← series_of key asset value_date cutoff window
      or_none series (λ xs. pure (if ltb (length xs) min_obs then none else percentile_rank x xs)))

  abbrev pub missing_reading : Reading F
  missing_reading = record { value = of_ℕ 0; available = false }

  abbrev pub reading : Result F → Eff (Action F Row) (Reading F)
  reading (ok v) = pure (record { value = v; available = true })
  reading (err e) = if is_not_found e then pure missing_reading else raise e

  -- `err == nil && !math.IsNaN(v)`
  abbrev pub number_reading : Result F → Eff (Action F Row) (Reading F)
  number_reading (ok v) =
      if f.is_nan v then pure missing_reading else pure (record { value = v; available = true })
  number_reading (err e) = if is_not_found e then pure missing_reading else raise e

  -- the two ways in which `gatherScoreInputs` fills a field and its `Available` mark
  unfoldable pub latest : FeatureKey → Asset → Time → Time → Eff (Action F Row) (Reading F)
  unfolding get_latest
  latest key asset value_date cutoff = do
    r ← attempt (get_latest key asset value_date cutoff)
    reading r

  unfoldable pub latest_number : FeatureKey → Asset → Time → Time → Eff (Action F Row) (Reading F)
  unfolding get_latest
  latest_number key asset value_date cutoff = do
    r ← attempt (get_latest key asset value_date cutoff)
    number_reading r
