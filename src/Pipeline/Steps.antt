-- ===== src/Pipeline/Steps.antt =====
-- The shared steps of the services keep the promise of `Pipeline.Schedule`.
use mathlib.Core.Path.{subst}
use marketengine.Prelude.{
  ℕ, ◌≡◌, refl, String, Bool, true, false, ◌==◌, Option, none, some, List, [], ◌∷◌, arith, last,
  Bool-cases, inl, inr, if◌then◌else◌,
}
use marketengine.Float.{Float}
use marketengine.Time.{Time}
use marketengine.Errors.{Result, ok, err}
use marketengine.Effects.{Eff, ◌>>=◌}
use marketengine.Domain.{Asset, DomainScore, FeatureKey, validate_feature, validate_score}
use marketengine.Scoring.Features.{unusable}
use marketengine.Pipeline.{
  IngestEvent, ScoreEvent, ingest_event, score_event, Action, Ports, is_not_found, if_present,
  with_last, on_success, if_found, if_some, on_found, save_rows, publish, complete, announce,
  save_z_score, Part, clock_now, get_latest, none_if_missing, new_feature, save_feature, or_none,
  series_of, try_compute_z_score, try_compute_std_dev, try_compute_growth,
  try_compute_percentile_rank, latest, latest_number, reading, number_reading,
}
use marketengine.Pipeline.Traces.{
  Traces-pure, Traces-raise, Traces-query, Traces-perform, Traces-if, Traces-unless, Traces-bind,
  Traces-skip_error, Traces-attempt, Traces-context,
}
use marketengine.Pipeline.Schedule.{
  IsDay, IsKnown, event_of, asset_outputs, Emits, Emits-for_each_nil, Output,
}

-- A key with a name and a version.
pub record IsKey (k : FeatureKey) : Type 0 where
  pub named : (k.name == "") ≡ false
  pub versioned : (k.version == "") ≡ false

pub IsKey-of : (k : FeatureKey) → (k.name == "") ≡ false → (k.version == "") ≡ false → IsKey k
IsKey-of k n v = record { named = n; versioned = v }

module _ {F Row : Type 0} ⦃f : Float F⦄ where
  -- A step that writes no output.
  abbrev pub IsQuiet : {A : Type 0} → Eff (Action F Row) A → Type 0
  IsQuiet m = Emits [] m

  pub and_then :
      {A B : Type 0} {ks : List Output} {m : Eff (Action F Row) A} {k : A → Eff (Action F Row) B}
      → IsQuiet m
      → ((a : A) → Emits ks (k a))
      → Emits ks (m >>= k)
  and_then r s = Traces-bind r s

  infixr 20 ◌⨾◌
  pub ◌⨾◌ :
      {A B : Type 0} {ks : List Output} {m : Eff (Action F Row) A} {n : Eff (Action F Row) B}
      → IsQuiet m
      → Emits ks n
      → Emits ks (m >>= λ _. n)
  r ⨾ s = and_then r (λ _. s)

  module _ {A : Type 0} {k : A → Eff (Action F Row) (Unit {0})} (r : (a : A) → IsQuiet (k a)) where
    pub if_present-Quiet : (p : Option A) → IsQuiet (if_present p k)
    unfolding if_present
    if_present-Quiet none = Traces-pure tt
    if_present-Quiet (some p) = r p

    pub with_last-Quiet : (ps : List A) → IsQuiet (with_last ps k)
    unfolding with_last
    with_last-Quiet [] = Traces-pure tt
    with_last-Quiet (p ∷ ps) = r (last p ps)

    pub on_success-Quiet : (x : Result A) → IsQuiet (on_success x k)
    unfolding on_success
    on_success-Quiet (ok a) = r a
    on_success-Quiet (err e) = Traces-pure tt

    pub if_found-Quiet : (x : Result A) → IsQuiet (if_found x k)
    unfolding if_found
    if_found-Quiet (ok a) = r a
    if_found-Quiet (err e) = Traces-if (is_not_found e) (Traces-pure tt) (Traces-raise [] e)

    pub if_some-Quiet : (x : Option A) → IsQuiet (if_some x k)
    unfolding if_some
    if_some-Quiet none = Traces-pure tt
    if_some-Quiet (some a) = r a

    pub on_found-Quiet : (x : Result (Option A)) → IsQuiet (on_found x k)
    unfolding on_found
    on_found-Quiet (ok none) = Traces-pure tt
    on_found-Quiet (ok (some a)) = r a
    on_found-Quiet (err e) = Traces-pure tt

module _ {F Row : Type 0} ⦃f : Float F⦄ (ports : Ports F Row) where
  pub save_rows-Quiet : (rows : Row) → IsQuiet (save_rows ports rows)
  unfolding save_rows
  save_rows-Quiet rows = Traces-perform _ _ tt

  pub publish-Quiet : (e : IngestEvent F) → IsQuiet (publish ports (ingest_event e))
  unfolding publish
  publish-Quiet e = Traces-perform _ _ tt

  pub announce-Quiet :
      (topic aggregate_id : List (Part F)) (payload : List (String × Part F))
      → IsQuiet (announce ports topic aggregate_id payload)
  unfolding announce
  announce-Quiet topic aggregate_id payload = publish-Quiet _

  pub publish-Emits :
      (e : ScoreEvent F)
      → Emits (event_of e.asset e.value_date ∷ []) (publish ports (score_event e))
  unfolding publish
  publish-Emits e = Traces-perform _ _ tt

  pub complete-Emits :
      (score : DomainScore F) (e : ScoreEvent F) (asset : Asset) (d : Time)
      → score.asset ≡ asset
      → score.value_date ≡ d
      → e.asset ≡ asset
      → e.value_date ≡ d
      → validate_score score ≡ ok tt
      → Emits (asset_outputs d asset) (complete ports score e)
  unfolding complete
  complete-Emits score e asset d sa sd ea ed valid =
      subst (λ ks. Emits ks (complete ports score e)) (ground (arith, sa, sd, ea, ed))
        (Traces-bind (Traces-context _ (Traces-perform _ _ valid)) (λ _. publish-Emits e))

  pub clock_now-Quiet : IsQuiet (clock_now ports)
  unfolding clock_now
  clock_now-Quiet = Traces-query _

  -- A feature of a known asset on a dated day, with a name and a version, passes `Feature.Validate`.
  new_feature-Valid :
      (code_sha : String) (key : FeatureKey) (asset : Asset) (d : Time) (v : F)
      (src_name src_ver : String)
      → IsKey key
      → IsKnown asset
      → IsDay d
      → validate_feature (new_feature ports code_sha key asset d v src_name src_ver) ≡ ok tt
  unfolding validate_feature
  new_feature-Valid code_sha key asset d v src_name src_ver k known dated =
      ground (arith, k.named, k.versioned)

  pub save_feature-Quiet :
      (code_sha : String) (key : FeatureKey) (asset : Asset) (d : Time) (src_name src_ver : String)
      → IsKey key
      → IsKnown asset
      → IsDay d
      → (v : F) → IsQuiet (save_feature ports code_sha key asset d v src_name src_ver)
  unfolding save_feature
  save_feature-Quiet code_sha key asset d src_name src_ver named known dated v =
      Traces-unless (unusable v) (Traces-pure tt) (λ finite. Traces-skip_error (
        Traces-perform _ _
          (new_feature-Valid code_sha key asset d v _ _ named known dated, finite)))

  pub get_latest-Quiet :
      (key : FeatureKey) (asset : Asset) (d cutoff : Time)
      → IsQuiet (get_latest ports key asset d cutoff)
  unfolding get_latest
  get_latest-Quiet key asset d cutoff = Traces-query _

  pub series_of-Quiet :
      (key : FeatureKey) (asset : Asset) (d cutoff : Time) (days : ℕ)
      → IsQuiet (series_of ports key asset d cutoff days)
  unfolding series_of
  series_of-Quiet key asset d cutoff days = Traces-attempt (Traces-query _)

  module _ {A : Type 0} {k : A → Eff (Action F Row) (Option F)} (r : (a : A) → IsQuiet (k a)) where
    or_none-Quiet : (x : Result A) → IsQuiet (or_none ports x k)
    unfolding or_none
    or_none-Quiet (ok a) = r a
    or_none-Quiet (err e) = Traces-pure none

  pub try_compute_z_score-Quiet :
      (key : FeatureKey) (asset : Asset) (d cutoff : Time) (window min_obs : ℕ)
      → IsQuiet (try_compute_z_score ports key asset d cutoff window min_obs)
  unfolding try_compute_z_score
  try_compute_z_score-Quiet key asset d cutoff window min_obs =
      and_then (series_of-Quiet key asset d cutoff _) (or_none-Quiet (λ xs. Traces-pure _))

  pub save_z_score-Quiet :
      (code_sha : String) (from to : FeatureKey) (asset : Asset) (d cutoff : Time)
      (window min_obs : ℕ) (src_name src_ver : String)
      → IsKey to
      → IsKnown asset
      → IsDay d
      → IsQuiet (save_z_score ports code_sha from to asset d cutoff window min_obs src_name src_ver)
  unfolding save_z_score
  save_z_score-Quiet code_sha from to asset d cutoff window min_obs src_name src_ver k a t =
      and_then (try_compute_z_score-Quiet from asset d cutoff window min_obs)
        (if_some-Quiet (save_feature-Quiet code_sha to asset d src_name src_ver k a t))

  pub try_compute_std_dev-Quiet :
      (key : FeatureKey) (asset : Asset) (d cutoff : Time) (window min_obs : ℕ)
      → IsQuiet (try_compute_std_dev ports key asset d cutoff window min_obs)
  unfolding try_compute_std_dev
  try_compute_std_dev-Quiet key asset d cutoff window min_obs =
      and_then (series_of-Quiet key asset d cutoff _) (or_none-Quiet (λ xs. Traces-pure _))

  pub try_compute_growth-Quiet :
      (key : FeatureKey) (asset : Asset) (d cutoff : Time) (window : ℕ)
      → IsQuiet (try_compute_growth ports key asset d cutoff window)
  unfolding try_compute_growth
  try_compute_growth-Quiet key asset d cutoff window =
      and_then (Traces-attempt (get_latest-Quiet key asset d cutoff)) (
        or_none-Quiet (λ x.
          and_then (Traces-attempt (get_latest-Quiet key asset _ cutoff))
            (or_none-Quiet (λ y. Traces-pure _))))

  pub try_compute_percentile_rank-Quiet :
      (key : FeatureKey) (asset : Asset) (d cutoff : Time) (window min_obs : ℕ)
      → IsQuiet (try_compute_percentile_rank ports key asset d cutoff window min_obs)
  unfolding try_compute_percentile_rank
  try_compute_percentile_rank-Quiet key asset d cutoff window min_obs =
      and_then (Traces-attempt (get_latest-Quiet key asset d cutoff)) (
        or_none-Quiet (λ x.
          and_then (series_of-Quiet key asset d cutoff _) (or_none-Quiet (λ xs. Traces-pure _))))

  pub none_if_missing-Quiet :
      {A : Type 0} (r : Result A) → IsQuiet {F = F} {Row = Row} (none_if_missing r)
  none_if_missing-Quiet (ok a) = Traces-pure _
  none_if_missing-Quiet (err e) = Traces-if (is_not_found e) (Traces-pure _) (Traces-raise [] e)

  reading-Quiet : (r : Result F) → IsQuiet (reading ports r)
  reading-Quiet (ok v) = Traces-pure _
  reading-Quiet (err e) = Traces-if (is_not_found e) (Traces-pure _) (Traces-raise [] e)

  number_reading-Quiet : (r : Result F) → IsQuiet (number_reading ports r)
  number_reading-Quiet (ok v) = Traces-if (f.is_nan v) (Traces-pure _) (Traces-pure _)
  number_reading-Quiet (err e) = Traces-if (is_not_found e) (Traces-pure _) (Traces-raise [] e)

  pub latest-Quiet :
      (key : FeatureKey) (asset : Asset) (d cutoff : Time)
      → IsQuiet (latest ports key asset d cutoff)
  unfolding latest
  latest-Quiet key asset d cutoff =
      and_then (Traces-attempt (get_latest-Quiet key asset d cutoff)) reading-Quiet

  pub latest_number-Quiet :
      (key : FeatureKey) (asset : Asset) (d cutoff : Time)
      → IsQuiet (latest_number ports key asset d cutoff)
  unfolding latest_number
  latest_number-Quiet key asset d cutoff =
      and_then (Traces-attempt (get_latest-Quiet key asset d cutoff)) number_reading-Quiet

-- The rules for steps that write no output.
pub ruleset quiet_steps = (
  and_then, Traces-pure, Traces-raise, Traces-query, Traces-attempt, Traces-context, Traces-if,
  if_present-Quiet, with_last-Quiet, on_success-Quiet, if_found-Quiet, if_some-Quiet,
  on_found-Quiet, Emits-for_each_nil, save_rows-Quiet, announce-Quiet, clock_now-Quiet,
  get_latest-Quiet, save_feature-Quiet, save_z_score-Quiet, try_compute_z_score-Quiet,
  try_compute_std_dev-Quiet, try_compute_growth-Quiet, try_compute_percentile_rank-Quiet,
  latest-Quiet, latest_number-Quiet, IsKey-of, refl,
)
