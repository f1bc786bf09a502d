-- ===== src/Orchestrator.antt =====
-- cmd/orchestrator/main.go: the steps of a run, and the three ways to start one. Each step is a
-- method over the two dates; what it does is a parameter here, and `Orchestrator.Domains` has those of
-- the five domains. `parse` is `time.Parse("2006-01-02", _)`.

pub mod Settings
pub mod Domains
pub mod Laws
use marketengine.Prelude.{String, Bool, true, false, ◌==◌, List, [], ◌∷◌, if◌then◌else◌}
use marketengine.Time.{Time, utc_day}
use marketengine.Errors.{message, wrap, steps_failed, Result, ok, err}
use marketengine.Effects.{Eff, pure, raise, query, context, attempt, ◌>>=◌, ◌>>◌}

-- a step has a name and its method from one date to another
pub record Step (Act : Type 0) : Type 0 where
  pub name : String
  pub fn : Time → Time → Eff Act (Unit {0})

abbrev pub parse_context : {A : Type 0} → String → Result A → Result A
parse_context text (ok a) = ok a
parse_context text (err e) = err (wrap text e)

unfoldable pub resolve_value_date : (String → Result Time) → String → Time → Result Time
resolve_value_date parse override now =
    if override == "" then ok (utc_day now) else parse_context "parse value-date" (parse override)

module _ {Act : Type 0} (steps : List (Step Act)) where
  abbrev pub add_failed : String → Result (Unit {0}) → List String → List String
  add_failed name (ok _) names = names
  add_failed name (err e) names = name ∷ names

  -- the loop of `runOnce`: a step that fails is noted, and the next one runs
  unfoldable pub run_steps : List (Step Act) → Time → Time → Eff Act (List String)
  run_steps [] from to = pure []
  run_steps (s ∷ ss) from to = do
    r ← attempt (s.fn from to)
    names ← run_steps ss from to
    pure (add_failed s.name r names)

  abbrev pub verdict : List String → Result (Unit {0})
  verdict [] = ok tt
  verdict (n ∷ ns) = err (steps_failed (n ∷ ns))

  unfoldable pub run_once : Time → Time → Eff Act (Unit {0})
  unfolding run_steps
  run_once from to = do failed ← run_steps steps from to; query (λ h. verdict failed)

  module _ (parse : String → Result Time) where
    -- `vd, _ := resolveValueDate(…)`: after an error the date is the zero time
    abbrev pub date_or_zero : Result Time → Time
    date_or_zero (ok d) = d
    date_or_zero (err e) = 0

    -- a tick of the daemon: an error of the run is logged only
    unfoldable pub tick : String → Time → Eff Act (Unit {0})
    unfolding run_once resolve_value_date
    tick override now = do
      let d = date_or_zero (resolve_value_date parse override now)
      _ ← attempt (run_once d d)
      pure tt

    -- the loop of the daemon: `nows` are the times of its ticks until it is stopped
    unfoldable pub ticks : List Time → Eff Act (Unit {0})
    unfolding tick
    ticks [] = pure tt
    ticks (now ∷ nows) = do tick "" now; ticks nows

    unfoldable pub daemon : String → Time → List Time → Eff Act (Unit {0})
    unfolding tick ticks
    daemon override now nows = do tick override now; ticks nows

    unfoldable pub backfill : String → String → Eff Act (Unit {0})
    unfolding run_once
    backfill from to = if to == "" then raise (message "-to required when -from is set") else do
      start ← query (λ h. parse_context "parse -from" (parse from))
      end ← query (λ h. parse_context "parse -to" (parse to))
      run_once start end

    unfoldable pub one_shot : String → Time → Eff Act (Unit {0})
    unfolding run_once resolve_value_date
    one_shot override now = do d ← query (λ h. resolve_value_date parse override now); run_once d d

    -- `run` from its flags, after the configuration is loaded: `open_db` is `storage.Open` and
    -- `register` is `registerConfig`
    unfoldable pub run :
        Eff Act (Unit {0})
        → Eff Act (Unit {0})
        → String
        → String
        → String
        → Bool
        → Time
        → List Time
        → Eff Act (Unit {0})
    unfolding backfill daemon one_shot
    run open_db register override bf_from bf_to daemon_mode now nows = do
      context "open db" open_db
      context "register config" register
      if bf_from == ""
          then (if daemon_mode then daemon override now nows else one_shot override now)
          else backfill bf_from bf_to
