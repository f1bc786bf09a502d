-- ===== src/Examples/Leads.antt =====
-- Concrete inputs: the leads of events.
use marketengine.Prelude.{refl, ◌*◌, ◌≡◌, Option, none, some, eqb, if◌then◌else◌}
use marketengine.Prelude.Int.{pos}
use marketengine.Float.Fixed.{Fixed, fixed, fixed_neg, fixed_float}
use marketengine.Time.{Time, day}
use marketengine.Domain.{risk_off}
use marketengine.Backtest.Service.{RegimeDay}
use marketengine.Backtest.Events.{Event, offsets, turned_off, in_transition, event_lead}
use marketengine.Backtest.Events.First.{first_offset, event_lead-first_offset}

abbrev collapse : Event
collapse = record { name = "collapse"; peak_date = 100 * day }

-- the indicator is negative five days before the peak
abbrev by_date : Time → Option (RegimeDay Fixed)
by_date t =
    if eqb t (95 * day)
    then some (record {
      value_date = 95 * day;
      regime_indicator = fixed_neg 4000;
      risk_on_prob = fixed 1000;
      risk_off_prob = fixed 6000;
      transition_risk = fixed 3000;
      label = risk_off;
    })
    else none

event_lead-first_offset_example :
    let lead = event_lead by_date (fixed 6000) collapse in
    (lead.first_risk_off_offset ≡ first_offset by_date turned_off (100 * day) offsets)
    × (lead.first_trans_offset
        ≡ first_offset by_date (in_transition (fixed 6000)) (100 * day) offsets)
event_lead-first_offset_example = event_lead-first_offset by_date (fixed 6000) collapse

five_days_before : (event_lead by_date (fixed 6000) collapse).first_risk_off_offset ≡ pos 5
unfolding event_lead
five_days_before = refl
