-- ===== src/Backtest/Service/Trace.antt =====
-- What a replay writes.
use mathlib.Core.Path.{subst}
use mathlib.Core.List.{append_assoc}
use marketengine.Prelude.{
  ◌≡◌, refl, ◌∙◌, ◌⊎◌, inl, inr, String, Option, List, [], ◌∷◌, ◌++◌, All, Bool-cases,
  if◌then◌else◌,
}
use marketengine.Float.{Float}
use marketengine.Time.{Time, utc_day, after, days_between}
use marketengine.Errors.{Err, Result, ok, err, message}
use marketengine.Effects.{
  Eff, pure, raise, query, context, wrapped, continue, ◌>>=◌, ◌>>◌, perform, skip_error,
}
use marketengine.Effects.Rules.{
  ReadsOnly, ReadsOnly-bind, ReadsOnly-query, ReadsOnly-pure, ReadsOnly-context,
}
use marketengine.Domain.{Asset, RegimeState}
use marketengine.Regime.Config as Engine
use marketengine.Backtest.Ports.{
  Config, Action, run_saved, state_saved, status_updated, BacktestRun, Snapshot, Ports,
}
use marketengine.Backtest.State.{compute_one}
use marketengine.Backtest.State.Reads.{compute_one-ReadsOnly}
use marketengine.Backtest.Service.{
  save_run, run_recorded, snapshot_day, collect_snapshot, replay_one, replay_day, replay_days,
  replay,
}
use marketengine.Backtest.Service.Writes.{
  IsOf, Extends, Completes, Extends-refl, Extends-trans, Completes-pure, Completes-then,
  skip_error-Completes, perform-Extends,
}

module _ {F : Type 0} ⦃f : Float F⦄ (ports : Ports F) where
  replay_one-Extends :
      (cfg : Config) (engine : Engine.Config F) (id : String) (a : Asset) (d : Time)
      (h : List (Action F))
      → Extends id h (replay_one ports cfg engine id a d h).1
  unfolding replay_one ◌>>=◌
  replay_one-Extends cfg engine id a d h =
      saving (compute_one ports cfg engine a d h)
        ((compute_one-ReadsOnly ports cfg engine a d).keeps h)
    where
      saving :
          (x : Result (RegimeState F) × List (Action F))
          → x.1 ≡ h
          → Extends id h (continue x (λ s. perform (ports.save_state id s) (state_saved id s))).1
      saving (ok s, h') e =
          subst (λ l. Extends id l (perform (ports.save_state id s) (state_saved id s) h').1) e
            (perform-Extends id (ports.save_state id s) (state_saved id s) refl h')
      saving (err x, h') e = subst (λ l. Extends id l h') e (Extends-refl id h')

  replay_day-Completes :
      (cfg : Config) (engine : Engine.Config F) (id : String) (assets : List Asset) (d : Time)
      → Completes id (replay_day ports cfg engine id assets d)
  unfolding replay_day
  replay_day-Completes cfg engine id [] d = Completes-pure id
  replay_day-Completes cfg engine id (a ∷ as') d =
      Completes-then id _ _ (skip_error-Completes id _ (replay_one-Extends cfg engine id a d))
        (replay_day-Completes cfg engine id as' d)

  replay_days-Completes :
      (cfg : Config) (engine : Engine.Config F) (id : String) (assets : List Asset) (ds : List Time)
      → Completes id (replay_days ports cfg engine id assets ds)
  unfolding replay_days
  replay_days-Completes cfg engine id assets [] = Completes-pure id
  replay_days-Completes cfg engine id assets (d ∷ ds) =
      Completes-then id _ _ (replay_day-Completes cfg engine id assets d)
        (replay_days-Completes cfg engine id assets ds)

  snapshot_day-ReadsOnly :
      (cfg : Config) (assets : List Asset) (d : Time) (out : Snapshot F)
      → ReadsOnly (snapshot_day ports cfg assets d out)
  unfolding snapshot_day
  snapshot_day-ReadsOnly cfg [] d out = ReadsOnly-pure out
  snapshot_day-ReadsOnly cfg (a ∷ as') d out =
      ReadsOnly-bind _ _ (ReadsOnly-query _) (λ scores. snapshot_day-ReadsOnly cfg as' d _)

  collect_snapshot-ReadsOnly :
      (cfg : Config) (assets : List Asset) (ds : List Time) (out : Snapshot F)
      → ReadsOnly (collect_snapshot ports cfg assets ds out)
  unfolding collect_snapshot
  collect_snapshot-ReadsOnly cfg assets [] out = ReadsOnly-pure out
  collect_snapshot-ReadsOnly cfg assets (d ∷ ds) out =
      ReadsOnly-bind _ _ (snapshot_day-ReadsOnly cfg assets d out)
        (λ more. collect_snapshot-ReadsOnly cfg assets ds more)

  -- A replay of the days from `start` to `end` after the history `h`: it fails and writes nothing, or it
  -- returns the id of the run that it saved first, and all that it wrote after that belongs to that run.
  abbrev pub Replayed : Time → Time → List (Action F) → Result String × List (Action F) → Type 0
  Replayed start end h (r, h') =
      ((e : Err) × (r ≡ err e) × (h' ≡ h))
      ⊎ ((id : String) × (run : BacktestRun) × (acts : List (Action F)) × (r ≡ ok id)
          × (h' ≡ h ++ run_saved id run ∷ acts)
          × All (IsOf id) acts
          × (run.period_start ≡ start)
          × (run.period_end ≡ end))

  abbrev finish : String → Eff (Action F) String
  finish id = do
    done ← query (λ h. ok (ports.now h))
    skip_error
        (perform (ports.update_status id "completed" done) (status_updated id "completed" done))
    pure id

  finish_lem :
      (id : String) (h : List (Action F)) → ((finish id h).0 ≡ ok id) × Extends id h (finish id h).1
  unfolding ◌>>=◌ query skip_error pure
  finish_lem id h = (
    refl,
    perform-Extends id (ports.update_status id "completed" (ports.now h))
        (status_updated id "completed" (ports.now h)) (refl, refl) h,
  )

  module _ (cfg : Config) (engine : Engine.Config F) (assets : List Asset) (ds : List Time) where
    abbrev rest : String → Eff (Action F) String
    rest id = do replay_days ports cfg engine id assets ds; finish id

    rest_lem :
        (id : String) (h : List (Action F)) → ((rest id h).0 ≡ ok id) × Extends id h (rest id h).1
    unfolding ◌>>=◌
    rest_lem id h =
        go (replay_days ports cfg engine id assets ds h)
          (replay_days-Completes cfg engine id assets ds h)
      where
        go :
            (x : Result (Unit {0}) × List (Action F))
            → (x.0 ≡ ok tt) × Extends id h x.1
            → ((continue x (λ _. finish id)).0 ≡ ok id)
              × Extends id h (continue x (λ _. finish id)).1
        go (ok _, h') (e, w) =
            ((finish_lem id h').0, Extends-trans id h h' _ w (finish_lem id h').1)
        go (err x, h') (e, w) = cc

    save-Replayed :
        (run : BacktestRun) (h : List (Action F))
        → Replayed run.period_start run.period_end h
            ((context "save run" (save_run ports run) >>= rest) h)
    unfolding ◌>>=◌ context save_run
    save-Replayed run h = go (ports.save_run run h)
      where
        go :
            (r : Result String)
            → Replayed run.period_start run.period_end h
                (continue (wrapped "save run" (run_recorded ports run r h)) rest)
        go (ok id) =
            let (e, (acts, w, p)) = rest_lem id (h ++ run_saved id run ∷ []) in
            inr (id, run, acts, e, w ∙ append_assoc h (run_saved id run ∷ []) acts, p, refl, refl)
        go (err x) = inl (_, refl, refl)

  read-Replayed :
      {A : Type 0} (start end : Time) (m : Eff (Action F) A) (k : A → Eff (Action F) String)
      → ReadsOnly m
      → ((a : A) (h : List (Action F)) → Replayed start end h (k a h))
      → (h : List (Action F)) → Replayed start end h ((m >>= k) h)
  unfolding ◌>>=◌
  read-Replayed {A} start end m k reads next h = go (m h) (reads.keeps h)
    where
      go : (x : Result A × List (Action F)) → x.1 ≡ h → Replayed start end h (continue x k)
      go (ok a, h') e = subst (λ l. Replayed start end l (k a h')) e (next a h')
      go (err x, h') e = inl (x, refl, e)

  -- A replay of a reversed period fails and writes nothing. Any other replay ends as `Replayed` says,
  -- on the UTC days of its period, whatever the ports answer: it fails without a trace, or it returns
  -- the id of the run row that it wrote first, and then wrote states and the completion of that run
  -- only, however many days failed.
  pub replay-Replayed :
      (cfg : Config) (engine : Engine.Config F) (yaml : String) (assets : List Asset)
      (from to : Time) (parent : Option String) (mode : String) (h : List (Action F))
      → let x = replay ports cfg engine yaml assets from to parent mode h in
        if after (utc_day from) (utc_day to)
        then (x.0 ≡ err (message "replay: periodStart after periodEnd")) × (x.1 ≡ h)
        else Replayed (utc_day from) (utc_day to) h x
  unfolding replay raise
  replay-Replayed cfg engine yaml assets from to parent mode h =
      let days = days_between (utc_day from) (utc_day to) in
      elim (Bool-cases (after (utc_day from) (utc_day to))) [
        | inl late ↦ rw late (refl, refl)
        | inr fine ↦ rw fine (
            read-Replayed _ _
              (context "replay snapshot" (collect_snapshot ports cfg assets days [])) _
              (ReadsOnly-context _ _ (collect_snapshot-ReadsOnly cfg assets days []))
              (λ snapshot.
                read-Replayed _ _ (query (λ l. ok (ports.now l))) _ (ReadsOnly-query _)
                  (λ started. save-Replayed cfg engine assets days _))
              h)
      ]
