-- ===== src/Config/Settings/Bounds.antt =====
-- What holds of settings once they are constructed.
use whatsapp_automatic_plann.Prelude.{ℕ, ◌≤◌, ◌<◌, ◌≡◌, false, Option, none, some, arith}
use whatsapp_automatic_plann.Errors.{ok, and_then-eq-ok}
use whatsapp_automatic_plann.Nlp.Classifier.{one, Float, at_least_zero, below_zero, not_a_number}
use whatsapp_automatic_plann.Config.Settings.{
  ℤ, ReadSettings, Settings, positive, positive_or_none, fraction, lacks_contact,
  validate_windows_and_contacts, settings_of,
}

abbrev pub IsPositive : Option ℕ → Type 0
IsPositive none = Unit
IsPositive (some c) = 0 < c

-- The windows are positive and in order, the threshold lies in [0, 1], caps and limits are positive,
-- and the contacts that the two configured channels need are given.
pub record IsInBounds (s : Settings) : Type 0 where
  pub inactivity : 0 < s.aggregation_inactivity_seconds
  pub windows : s.aggregation_inactivity_seconds ≤ s.aggregation_max_duration_seconds
  pub threshold : s.classification_confidence_threshold ≤ one
  pub per_request : IsPositive s.per_request_cost_cap_usd
  pub daily : IsPositive s.daily_cost_cap_usd
  pub media : 0 < s.max_media_bytes
  pub retention : 0 < s.retention_days
  pub notify : lacks_contact s s.notify_channel ≡ false
  pub deliver : lacks_contact s s.deliver_channel ≡ false

positive-ok : (z : ℤ) {n : ℕ} → positive z ≡ ok n → 0 < n
unfolding positive
positive-ok (ℤ.pos k) h = ground arith
positive-ok (ℤ.negsuc k) h = cc

positive_or_none-ok : (o : Option Float) {p : Option ℕ} → positive_or_none o ≡ ok p → IsPositive p
unfolding positive_or_none
positive_or_none-ok none {p} h = ground arith
positive_or_none-ok (some (at_least_zero c)) {p} h = ground arith
positive_or_none-ok (some below_zero) h = cc
positive_or_none-ok (some not_a_number) h = cc

fraction-ok : (f : Float) {c : ℕ} → fraction f ≡ ok c → c ≤ one
unfolding fraction
fraction-ok (at_least_zero c) h = ground arith
fraction-ok below_zero h = cc
fraction-ok not_a_number h = cc

-- What the validator of the model has checked.
validate-ok :
    (s : Settings) {t : Settings}
    → validate_windows_and_contacts s ≡ ok t
    → (t ≡ s)
      × (s.aggregation_inactivity_seconds ≤ s.aggregation_max_duration_seconds)
      × (lacks_contact s s.notify_channel ≡ false)
      × (lacks_contact s s.deliver_channel ≡ false)
unfolding validate_windows_and_contacts
validate-ok s {t} h =
    let same : t ≡ s = ground arith in (same, ground arith, ground arith, ground arith)

-- Settings that could be constructed are in bounds.
pub settings_of-IsInBounds : (r : ReadSettings) {s : Settings} → settings_of r ≡ ok s → IsInBounds s
unfolding settings_of
settings_of-IsInBounds r {s} h =
    let (inactivity, h₁, k₁) = and_then-eq-ok (positive r.aggregation_inactivity_seconds) _ h in
    let (max_duration, h₂, k₂) =
      and_then-eq-ok (positive r.aggregation_max_duration_seconds) _ k₁ in
    let (threshold, h₃, k₃) =
      and_then-eq-ok (fraction r.classification_confidence_threshold) _ k₂ in
    let (per_request, h₄, k₄) = and_then-eq-ok (positive_or_none r.per_request_cost_cap_usd) _ k₃ in
    let (daily, h₅, k₅) = and_then-eq-ok (positive_or_none r.daily_cost_cap_usd) _ k₄ in
    let (media, h₆, k₆) = and_then-eq-ok (positive r.max_media_bytes) _ k₅ in
    let (retention, h₇, k₇) = and_then-eq-ok (positive r.retention_days) _ k₆ in
    let (same, windows, notify, deliver) = validate-ok _ k₇ in
    rw same (record {
      inactivity = positive-ok r.aggregation_inactivity_seconds h₁;
      windows = windows;
      threshold = fraction-ok r.classification_confidence_threshold h₃;
      per_request = positive_or_none-ok r.per_request_cost_cap_usd h₄;
      daily = positive_or_none-ok r.daily_cost_cap_usd h₅;
      media = positive-ok r.max_media_bytes h₆;
      retention = positive-ok r.retention_days h₇;
      notify = notify;
      deliver = deliver;
    })
