-- ===== src/Pipeline/Success.antt =====
-- When the shared steps of the services cannot fail.
use marketengine.Prelude.{ℕ, ◌≡◌, refl, String, true, Option, none, some, List, [], ◌∷◌, last, All}
use marketengine.Float.{Float}
use marketengine.Time.{Time, days_between}
use marketengine.Time.Days.{days_between-All}
use marketengine.Pipeline.Schedule.{IsDay, IsKnown}
use marketengine.Errors.{Result, ok, err}
use marketengine.Effects.{Eff, query, perform, skip_error, attempt, ◌>>=◌}
use marketengine.Effects.Rules.{
  Succeeds, Succeeds-pure, Succeeds-query, Succeeds-context, Succeeds-if, Succeeds-bind,
}
use marketengine.Domain.{Asset, DomainScore, FeatureKey, validate_score}
use marketengine.Pipeline.{
  Action, Event, Ports, ScoreEvent, Part, is_not_found, if_present, with_last, on_success, if_found,
  if_some, for_each, compute_assets, compute_range, save_rows, publish, announce, complete,
  clock_now, get_latest, save_feature, or_none, series_of, try_compute_z_score, save_z_score,
  try_compute_growth, try_compute_percentile_rank, reading, number_reading, latest, latest_number,
}

-- An answer that is a value, or says that there is none.
abbrev pub IsTame : {A : Type 0} → Result A → Type 0
IsTame (ok a) = Unit
IsTame (err e) = is_not_found e ≡ true

-- A provider that is there satisfies `R`.
abbrev pub IfPresent : {P : Type 0} → (P → Type 0) → Option P → Type 0
IfPresent R none = Unit
IfPresent R (some p) = R p

-- every answer is a value
abbrev pub Answers : {Act A : Type 0} → (List Act → Result A) → Type 0
Answers {Act} {A} answer = (h : List Act) → (a : A) × (answer h ≡ ok a)

module _ {Act : Type 0} where
  pub succeed_then :
      {A B : Type 0} {m : Eff Act A} {k : A → Eff Act B}
      → Succeeds m
      → ((a : A) → Succeeds (k a))
      → Succeeds (m >>= k)
  succeed_then r s = Succeeds-bind _ _ r s

  pub attempt-Succeeds : {A : Type 0} (m : Eff Act A) → Succeeds (attempt m)
  unfolding attempt
  attempt-Succeeds m = record { value = λ h. (_, refl) }

  -- the answer to a question that is asked and looked at
  pub attempt_then :
      {A B : Type 0} (answer : List Act → Result A) (k : Result A → Eff Act B)
      → ((h : List Act) → IsTame (answer h))
      → ((r : Result A) → IsTame r → Succeeds (k r))
      → Succeeds (attempt (query answer) >>= k)
  unfolding attempt query ◌>>=◌
  attempt_then answer k t s = record { value = λ h. (s (answer h) (t h)).value h }

  pub perform-Succeeds :
      (answer : List Act → Result (Unit {0})) (a : Act)
      → ((h : List Act) → answer h ≡ ok tt)
      → Succeeds (perform answer a)
  unfolding perform
  perform-Succeeds answer a s = record { value = λ h. (tt, rw (s h) refl) }

  pub skip_error-Succeeds : (m : Eff Act (Unit {0})) → Succeeds (skip_error m)
  unfolding skip_error
  skip_error-Succeeds m = record { value = λ h. (tt, refl) }

  module _ {A : Type 0} {k : A → Eff Act (Unit {0})} where
    pub if_present-Succeeds :
        {R : A → Type 0} (p : Option A)
        → IfPresent R p
        → ((a : A) → R a → Succeeds (k a))
        → Succeeds (if_present p k)
    unfolding if_present
    if_present-Succeeds none r s = Succeeds-pure tt
    if_present-Succeeds (some a) r s = s a r

    pub if_found-Succeeds :
        (x : Result A) → IsTame x → ((a : A) → Succeeds (k a)) → Succeeds (if_found x k)
    unfolding if_found
    if_found-Succeeds (ok a) t s = s a
    if_found-Succeeds (err e) t s = rw t (Succeeds-pure tt)

    module _ (s : (a : A) → Succeeds (k a)) where
      pub with_last-Succeeds : (ps : List A) → Succeeds (with_last ps k)
      unfolding with_last
      with_last-Succeeds [] = Succeeds-pure tt
      with_last-Succeeds (p ∷ ps) = s (last p ps)

      pub on_success-Succeeds : (x : Result A) → Succeeds (on_success x k)
      unfolding on_success
      on_success-Succeeds (ok a) = s a
      on_success-Succeeds (err e) = Succeeds-pure tt

      pub if_some-Succeeds : (x : Option A) → Succeeds (if_some x k)
      unfolding if_some
      if_some-Succeeds none = Succeeds-pure tt
      if_some-Succeeds (some a) = s a

      pub for_each-Succeeds : (xs : List A) → Succeeds (for_each xs k)
      unfolding for_each
      for_each-Succeeds [] = Succeeds-pure tt
      for_each-Succeeds (x ∷ xs) = succeed_then (s x) (λ _. for_each-Succeeds xs)

-- Every row and every event is written, and every score that passes `DomainScore.Validate`, the check of
-- the repository; a feature that is asked for is there or not found.
pub record IsHelpful {F Row : Type 0} ⦃f : Float F⦄ (ports : Ports F Row) : Type 0 where
  pub rows : (r : Row) (h : List (Action F Row)) → ports.save_rows r h ≡ ok tt
  pub scores :
      (s : DomainScore F) (h : List (Action F Row))
      → validate_score s ≡ ok tt
      → ports.save_score s h ≡ ok tt
  pub events : (e : Event F) (h : List (Action F Row)) → ports.publish e h ≡ ok tt
  pub features :
      (k : FeatureKey) (a : Asset) (d c : Time) (h : List (Action F Row))
      → IsTame (ports.get_latest k a d c h)

module _ {F Row : Type 0} ⦃f : Float F⦄ (ports : Ports F Row) where
  pub save_feature-Succeeds :
      (code_sha : String) (key : FeatureKey) (asset : Asset) (d : Time) (src_name src_ver : String)
      (v : F)
      → Succeeds (save_feature ports code_sha key asset d v src_name src_ver)
  unfolding save_feature
  save_feature-Succeeds code_sha key asset d src_name src_ver v =
      Succeeds-if _ _ _ (Succeeds-pure tt) (skip_error-Succeeds _)

  pub clock_now-Succeeds : Succeeds (clock_now ports)
  unfolding clock_now
  clock_now-Succeeds = Succeeds-query _ (λ h. (_, refl))

  or_none-Succeeds :
      {A : Type 0} {k : A → Eff (Action F Row) (Option F)} (r : Result A)
      → ((a : A) → Succeeds (k a))
      → Succeeds (or_none ports r k)
  unfolding or_none
  or_none-Succeeds (ok a) s = s a
  or_none-Succeeds (err e) s = Succeeds-pure none

  series_of-Succeeds :
      (key : FeatureKey) (asset : Asset) (d cutoff : Time) (days : ℕ)
      → Succeeds (series_of ports key asset d cutoff days)
  unfolding series_of
  series_of-Succeeds key asset d cutoff days = attempt-Succeeds _

  pub save_z_score-Succeeds :
      (code_sha : String) (from to : FeatureKey) (asset : Asset) (d cutoff : Time)
      (window min_obs : ℕ) (src_name src_ver : String)
      → Succeeds
          (save_z_score ports code_sha from to asset d cutoff window min_obs src_name src_ver)
  unfolding save_z_score try_compute_z_score
  save_z_score-Succeeds code_sha from to asset d cutoff window min_obs src_name src_ver =
      succeed_then
        (succeed_then (series_of-Succeeds from asset d cutoff _)
          (λ r. or_none-Succeeds r (λ xs. Succeeds-pure _)))
        (λ z.
          if_some-Succeeds (λ v. save_feature-Succeeds code_sha to asset d src_name src_ver v) z)

  pub try_compute_growth-Succeeds :
      (key : FeatureKey) (asset : Asset) (d cutoff : Time) (window : ℕ)
      → Succeeds (try_compute_growth ports key asset d cutoff window)
  unfolding try_compute_growth
  try_compute_growth-Succeeds key asset d cutoff window = succeed_then (attempt-Succeeds _) (λ r.
      or_none-Succeeds r
        (λ x. succeed_then (attempt-Succeeds _) (λ q. or_none-Succeeds q (λ y. Succeeds-pure _))))

  pub try_compute_percentile_rank-Succeeds :
      (key : FeatureKey) (asset : Asset) (d cutoff : Time) (window min_obs : ℕ)
      → Succeeds (try_compute_percentile_rank ports key asset d cutoff window min_obs)
  unfolding try_compute_percentile_rank
  try_compute_percentile_rank-Succeeds key asset d cutoff window min_obs =
      succeed_then (attempt-Succeeds _) (λ r. or_none-Succeeds r (λ x.
        succeed_then (series_of-Succeeds key asset d cutoff window)
          (λ q. or_none-Succeeds q (λ xs. Succeeds-pure _))))

  module _ (good : IsHelpful ports) where
    pub save_rows-Succeeds : (rows : Row) → Succeeds (save_rows ports rows)
    unfolding save_rows
    save_rows-Succeeds rows = perform-Succeeds _ _ (good.rows rows)

    pub announce-Succeeds :
        (topic aggregate_id : List (Part F)) (payload : List (String × Part F))
        → Succeeds (announce ports topic aggregate_id payload)
    unfolding announce publish
    announce-Succeeds topic aggregate_id payload = perform-Succeeds _ _ (good.events _)

    pub complete-Succeeds :
        (score : DomainScore F) (e : ScoreEvent F)
        → validate_score score ≡ ok tt
        → Succeeds (complete ports score e)
    unfolding complete publish
    complete-Succeeds score e valid =
        succeed_then (Succeeds-context _ _ (perform-Succeeds _ _ (λ h. good.scores score h valid)))
          (λ _. perform-Succeeds _ _ (good.events _))

    reading-Succeeds : (r : Result F) → IsTame r → Succeeds (reading ports r)
    reading-Succeeds (ok v) t = Succeeds-pure _
    reading-Succeeds (err e) t = rw t (Succeeds-pure _)

    number_reading-Succeeds : (r : Result F) → IsTame r → Succeeds (number_reading ports r)
    number_reading-Succeeds (ok v) t = Succeeds-if _ _ _ (Succeeds-pure _) (Succeeds-pure _)
    number_reading-Succeeds (err e) t = rw t (Succeeds-pure _)

    pub latest-Succeeds :
        (key : FeatureKey) (asset : Asset) (d cutoff : Time)
        → Succeeds (latest ports key asset d cutoff)
    unfolding latest get_latest
    latest-Succeeds key asset d cutoff =
        attempt_then _ _ (good.features key asset d cutoff) reading-Succeeds

    pub latest_number-Succeeds :
        (key : FeatureKey) (asset : Asset) (d cutoff : Time)
        → Succeeds (latest_number ports key asset d cutoff)
    unfolding latest_number get_latest
    latest_number-Succeeds key asset d cutoff =
        attempt_then _ _ (good.features key asset d cutoff) number_reading-Succeeds

  for_each_known-Succeeds :
      {A : Type 0} {Q : A → Type 0} {k : A → Eff (Action F Row) (Unit {0})} (xs : List A)
      → All Q xs
      → ((x : A) → Q x → Succeeds (k x))
      → Succeeds (for_each xs k)
  unfolding for_each
  for_each_known-Succeeds [] q s = Succeeds-pure tt
  for_each_known-Succeeds (x ∷ xs) (q, qs) s =
      succeed_then (s x q) (λ _. for_each_known-Succeeds xs qs s)

  pub compute_range-Succeeds :
      (compute_day : Time → Time → Eff (Action F Row) (Unit {0})) (from to cutoff : Time)
      → IsDay from
      → ((d c : Time) → IsDay d → Succeeds (compute_day d c))
      → Succeeds (compute_range compute_day from to cutoff)
  unfolding compute_range
  compute_range-Succeeds compute_day from to cutoff dated s =
      for_each_known-Succeeds (days_between from to) (days_between-All from to dated)
        (λ d q. Succeeds-context _ _ (s d cutoff q))

  pub compute_assets-Succeeds :
      (asset_day : Asset → Time → Time → Eff (Action F Row) (Unit {0})) (assets : List Asset)
      (d cutoff : Time)
      → All IsKnown assets
      → ((a : Asset) → IsKnown a → Succeeds (asset_day a d cutoff))
      → Succeeds (compute_assets asset_day assets d cutoff)
  unfolding compute_assets
  compute_assets-Succeeds asset_day assets d cutoff known s =
      for_each_known-Succeeds assets known (λ a q. Succeeds-context _ _ (s a q))

-- the rules for the steps of a service
pub ruleset sure_steps = (
  succeed_then, attempt_then, attempt-Succeeds, Succeeds-pure, Succeeds-query, Succeeds-context,
  Succeeds-if, if_present-Succeeds, with_last-Succeeds, on_success-Succeeds, if_found-Succeeds,
  if_some-Succeeds, for_each-Succeeds, save_rows-Succeeds, announce-Succeeds, clock_now-Succeeds,
  save_feature-Succeeds, save_z_score-Succeeds, try_compute_growth-Succeeds,
  try_compute_percentile_rank-Succeeds, latest-Succeeds, latest_number-Succeeds,
)
