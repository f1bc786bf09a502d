-- ===== src/Backtest/Events.antt =====
-- `EventLeadTimes` of internal/backtest/metrics.go: how many days before an event the replayed states
-- turned. The map by date is a function that is never ranged over.
pub mod First
use marketengine.Prelude.{
  String, Bool, true, false, ◌&&◌, Option, none, some, List, [], ◌∷◌, map, eqb, if◌then◌else◌,
}
use marketengine.Prelude.Int.{ℤ, pos, negsuc, neg}
use marketengine.Float.{Float, ◌<?◌, of_ℕ}
use marketengine.Time.{Time}
use marketengine.Regime.Risk.{shift}
use marketengine.Backtest.Service.{RegimeDay}

pub record Event : Type 0 where
  pub name : String
  pub peak_date : Time

pub record EventLead (F : Type 0) : Type 0 where
  pub event : Event
  pub first_risk_off_offset : ℤ
  pub first_trans_offset : ℤ
  pub regime_at_peak : F
  pub transition_at_peak : F
  pub data_present : Bool

-- -999, which marks that no day was found
abbrev pub unset : ℤ
unset = negsuc 998

abbrev pub is_unset : ℤ → Bool
is_unset (pos n) = false
is_unset (negsuc n) = eqb n 998

-- for offset := -14; offset <= 3; offset++
abbrev pub offsets : List ℤ
offsets =
    negsuc 13
    ∷ negsuc 12
    ∷ negsuc 11
    ∷ negsuc 10
    ∷ negsuc 9
    ∷ negsuc 8
    ∷ negsuc 7
    ∷ negsuc 6
    ∷ negsuc 5
    ∷ negsuc 4
    ∷ negsuc 3
    ∷ negsuc 2
    ∷ negsuc 1
    ∷ negsuc 0
    ∷ pos 0
    ∷ pos 1
    ∷ pos 2
    ∷ pos 3
    ∷ []

module _ {F : Type 0} ⦃f : Float F⦄ where
  abbrev pub turned_off : RegimeDay F → Bool
  turned_off d = d.regime_indicator <? of_ℕ 0

  abbrev pub in_transition : F → RegimeDay F → Bool
  in_transition threshold d = threshold <? d.transition_risk

module _ {F : Type 0} ⦃f : Float F⦄ (by_date : Time → Option (RegimeDay F)) (threshold : F) where
  -- one round of the inner loop
  abbrev pub visit : ℤ → Option (RegimeDay F) → EventLead F → EventLead F
  visit offset none lead = lead
  visit offset (some d) lead = record lead {
    data_present = true;
    first_risk_off_offset =
        if is_unset lead.first_risk_off_offset && turned_off d
        then neg offset
        else lead.first_risk_off_offset;
    first_trans_offset =
        if is_unset lead.first_trans_offset && in_transition threshold d
        then neg offset
        else lead.first_trans_offset;
  }

  unfoldable pub lead_from : Time → List ℤ → EventLead F → EventLead F
  lead_from peak [] lead = lead
  lead_from peak (o ∷ os) lead = lead_from peak os (visit o (by_date (shift peak o)) lead)

  -- the lead before the inner loop
  abbrev pub at_peak : Event → Option (RegimeDay F) → EventLead F
  at_peak ev none = record {
    event = ev;
    first_risk_off_offset = unset;
    first_trans_offset = unset;
    regime_at_peak = of_ℕ 0;
    transition_at_peak = of_ℕ 0;
    data_present = false;
  }
  at_peak ev (some d) = record {
    event = ev;
    first_risk_off_offset = unset;
    first_trans_offset = unset;
    regime_at_peak = d.regime_indicator;
    transition_at_peak = d.transition_risk;
    data_present = true;
  }

  unfoldable pub event_lead : Event → EventLead F
  unfolding lead_from
  event_lead ev = lead_from ev.peak_date offsets (at_peak ev (by_date ev.peak_date))

  unfoldable pub event_lead_times : List Event → List (EventLead F)
  unfolding event_lead
  event_lead_times [] = []
  event_lead_times (ev ∷ evs) = event_lead ev ∷ event_lead_times evs
