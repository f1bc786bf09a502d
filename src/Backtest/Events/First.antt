-- ===== src/Backtest/Events/First.antt =====
-- The offsets that the loop reports are those of the first days in the window.
use marketengine.Prelude.{
  inl, inr, Bool-cases, ◌∙◌, ◌≡◌, refl, Bool, true, false, ◌&&◌, Option, none, some, List, [], ◌∷◌,
  All, arith, if◌then◌else◌,
}
use marketengine.Prelude.Int.{ℤ, pos, negsuc, neg}
use marketengine.Float.{Float}
use marketengine.Time.{Time}
use marketengine.Regime.Risk.{shift}
use marketengine.Backtest.Service.{RegimeDay}
use marketengine.Backtest.Events.{
  Event, EventLead, unset, is_unset, offsets, turned_off, in_transition, visit, at_peak, lead_from,
  event_lead,
}

-- No offset is reported as -999.
abbrev IsMarked : ℤ → Type 0
IsMarked o = is_unset (neg o) ≡ false

abbrev or_first : ℤ → ℤ → ℤ
or_first x later = if is_unset x then later else x

is_unset-unset : (x : ℤ) → is_unset x ≡ true → x ≡ unset
is_unset-unset (pos n) h = cc
is_unset-unset (negsuc n) h = ground arith

or_first-visit :
    (b : Bool) (x o later : ℤ)
    → IsMarked o
    → or_first (if is_unset x && b then neg o else x) later
      ≡ or_first x (if b then neg o else later)
or_first-visit true x o later m = elim (Bool-cases (is_unset x)) [
  | inl h ↦ rw (h, m) refl
  | inr h ↦ rw (h, h) refl
]
or_first-visit false x o later m = elim (Bool-cases (is_unset x)) [
  | inl h ↦ rw (h, h) refl
  | inr h ↦ rw (h, h) refl
]

module _ {F : Type 0} ⦃f : Float F⦄ where
  abbrev holds : (RegimeDay F → Bool) → Option (RegimeDay F) → Bool
  holds test none = false
  holds test (some d) = test d

  -- The days before the event, counted back, of the first day in `os` that passes the test; -999 if
  -- there is none.
  unfoldable pub first_offset :
      (Time → Option (RegimeDay F)) → (RegimeDay F → Bool) → Time → List ℤ → ℤ
  first_offset by_date test peak [] = unset
  first_offset by_date test peak (o ∷ os) =
      let later = first_offset by_date test peak os in
      if holds test (by_date (shift peak o)) then neg o else later

  module _ (by_date : Time → Option (RegimeDay F)) (threshold : F) (peak : Time) where
    lead_from-offsets :
        (os : List ℤ) (lead : EventLead F)
        → All IsMarked os
        → ((lead_from by_date threshold peak os lead).first_risk_off_offset
            ≡ or_first lead.first_risk_off_offset (first_offset by_date turned_off peak os))
          × ((lead_from by_date threshold peak os lead).first_trans_offset
              ≡ or_first lead.first_trans_offset
                  (first_offset by_date (in_transition threshold) peak os))
    unfolding lead_from first_offset
    lead_from-offsets [] lead h =
        ground
          (arith, is_unset-unset lead.first_risk_off_offset, is_unset-unset lead.first_trans_offset)
    lead_from-offsets (o ∷ os) lead (m, ms) =
        let day = by_date (shift peak o) in
        let rest = lead_from-offsets os (visit by_date threshold o day lead) ms in
        let (off, trans) = visited day o lead m in (rest.0 ∙ off _, rest.1 ∙ trans _)
      where
        visited :
            (day : Option (RegimeDay F)) (o : ℤ) (lead : EventLead F)
            → IsMarked o
            → ((later : ℤ)
                → or_first (visit by_date threshold o day lead).first_risk_off_offset later
                  ≡ or_first lead.first_risk_off_offset
                      (if holds turned_off day then neg o else later))
              × ((later : ℤ)
                  → or_first (visit by_date threshold o day lead).first_trans_offset later
                    ≡ or_first lead.first_trans_offset
                        (if holds (in_transition threshold) day then neg o else later))
        visited none o lead m = ((λ later. refl), (λ later. refl))
        visited (some d) o lead m = (
          (λ later. or_first-visit (turned_off d) lead.first_risk_off_offset o later m),
          (λ later. or_first-visit (in_transition threshold d) lead.first_trans_offset o later m),
        )

  -- For an event the loop reports, of the days from 14 before its peak to 3 after, the first day with a
  -- negative indicator and the first day whose transition risk exceeds the threshold, as the number of
  -- days before the peak; -999 where there is no such day.
  pub event_lead-first_offset :
      (by_date : Time → Option (RegimeDay F)) (threshold : F) (ev : Event)
      → let lead = event_lead by_date threshold ev in
        (lead.first_risk_off_offset ≡ first_offset by_date turned_off ev.peak_date offsets)
        × (lead.first_trans_offset
            ≡ first_offset by_date (in_transition threshold) ev.peak_date offsets)
  unfolding event_lead
  event_lead-first_offset by_date threshold ev = from_peak (by_date ev.peak_date)
    where
      marked : All IsMarked offsets
      marked = ground arith

      from_peak :
          (day : Option (RegimeDay F))
          → let lead =
              lead_from by_date threshold ev.peak_date offsets (at_peak by_date threshold ev day) in
            (lead.first_risk_off_offset ≡ first_offset by_date turned_off ev.peak_date offsets)
            × (lead.first_trans_offset
                ≡ first_offset by_date (in_transition threshold) ev.peak_date offsets)
      from_peak none = lead_from-offsets by_date threshold ev.peak_date offsets _ marked
      from_peak (some d) = lead_from-offsets by_date threshold ev.peak_date offsets _ marked
