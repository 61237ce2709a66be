-- ===== src/Rules/Evidence.antt =====
-- `BorrowerApplication.validate_evidence`, src/fundermatch/rules/schema.py: which applications it
-- accepts.
use funder_match.Base.{
  ==_iff, Bool-cases, Dict, IsDict, List, Option, [], any, arith, false, get, get-put,
  if◌then◌else◌, inl, inr, length, nat_eq, none, ok, put, put-IsDict, refl, some, string_eq, sym,
  true, ◌<◌, ◌==◌, ◌↔◌, ◌∙◌, ◌∷◌, ◌≡◌, ◌≤◌,
}
use funder_match.Rules.Schema.{
  MetricName, annual_revenue_metric, ebitda_margin_metric, dscr_metric, metric_eq, MetricValue,
  EvidenceMetric, BorrowerApplication, same_value, expected, metrics_into, contradicts,
  has_required, is_known, validate_evidence,
}

abbrev or_entry : Option MetricValue → Option MetricValue → Option MetricValue
or_entry none old = old
or_entry (some v) old = some v

-- The value of the last metric of that name.
abbrev pub last_value : MetricName → List EvidenceMetric → Option MetricValue
last_value name [] = none
last_value name (e ∷ es) =
    or_entry (last_value name es) (if e.name == name then some e.value else none)

get-metrics_into :
    (name : MetricName) (d : Dict MetricName MetricValue) (es : List EvidenceMetric)
    → get name (metrics_into d es) ≡ or_entry (last_value name es) (get name d)
unfolding metrics_into
get-metrics_into name d [] = refl
get-metrics_into name d (e ∷ es) =
    ground (arith, get-metrics_into name (put e.name e.value d) es, get-put name e.name e.value d)

metrics_into-IsDict :
    (d : Dict MetricName MetricValue) (es : List EvidenceMetric)
    → IsDict d
    → IsDict (metrics_into d es)
unfolding metrics_into
metrics_into-IsDict d [] h = h
metrics_into-IsDict d (e ∷ es) h =
    metrics_into-IsDict (put e.name e.value d) es (put-IsDict e.name e.value d h)

get-metrics :
    (name : MetricName) (es : List EvidenceMetric)
    → get name (metrics_into [] es) ≡ last_value name es
unfolding get
get-metrics name es = get-metrics_into name [] es ∙ or_none (last_value name es)
  where
    or_none : (o : Option MetricValue) → or_entry o none ≡ o
    or_none none = refl
    or_none (some v) = refl

-- No entry of a dictionary contradicts the application, once each value that is found agrees.
agrees-none :
    (a : BorrowerApplication) (d : Dict MetricName MetricValue)
    → IsDict d
    → ((name : MetricName) (v : MetricValue)
        → get name d ≡ some v
        → same_value (expected a name) v ≡ true)
    → any (contradicts a) d ≡ false
unfolding get
agrees-none a [] u h = refl
agrees-none a ((k, v) ∷ d) u h =
    let first : same_value (expected a k) v ≡ true = h k v (ground arith) in
    let later = agrees-none a d u.1 (λ name w found. h name w (ground (arith, u.0))) in ground arith

none-agrees :
    (a : BorrowerApplication) (d : Dict MetricName MetricValue) (name : MetricName)
    (v : MetricValue)
    → any (contradicts a) d ≡ false
    → get name d ≡ some v
    → same_value (expected a name) v ≡ true
unfolding get
none-agrees a [] name v h found = cc
none-agrees a ((k, w) ∷ d) name v h found = elim (Bool-cases (k == name)) [
  | inl same ↦ let key : k ≡ name = (==_iff k name).0 same in rw (← key) (ground arith)
  | inr other ↦ none-agrees a d name v (ground arith) (ground arith)
]

-- An application's evidence bears out its profile: between 3 and 20 metrics, among them revenue,
-- margin and debt service, and the last metric of each name agrees with the application.
pub record IsSupported (a : BorrowerApplication) : Type 0 where
  pub enough : 3 ≤ length a.evidence
  pub bounded : length a.evidence ≤ 20
  pub revenue : is_known (last_value annual_revenue_metric a.evidence) ≡ true
  pub margin : is_known (last_value ebitda_margin_metric a.evidence) ≡ true
  pub service : is_known (last_value dscr_metric a.evidence) ≡ true
  pub agrees :
      (name : MetricName) (v : MetricValue)
      → last_value name a.evidence ≡ some v
      → same_value (expected a name) v ≡ true

supported-known :
    (a : BorrowerApplication) → IsSupported a → has_required (metrics_into [] a.evidence) ≡ true
supported-known a h =
    rw
      (
        get-metrics annual_revenue_metric a.evidence,
        get-metrics ebitda_margin_metric a.evidence,
        get-metrics dscr_metric a.evidence,
        h.revenue,
        h.margin,
        h.service,
      )
      refl

-- The validator accepts exactly the applications that their evidence supports, where of several
-- metrics of one name only the last one counts.
pub validate_evidence-IsSupported :
    (a : BorrowerApplication) → (validate_evidence a ≡ ok a) ↔ IsSupported a
unfolding validate_evidence
validate_evidence-IsSupported a = (
  λ h.
      let required : has_required (metrics_into [] a.evidence) ≡ true = ground arith in
      let none_wrong : any (contradicts a) (metrics_into [] a.evidence) ≡ false = ground arith in
      record {
        enough = ground arith;
        bounded = ground arith;
        revenue = ground (arith, get-metrics annual_revenue_metric a.evidence);
        margin = ground (arith, get-metrics ebitda_margin_metric a.evidence);
        service = ground (arith, get-metrics dscr_metric a.evidence);
        agrees = λ name v found.
            none-agrees a (metrics_into [] a.evidence) name v none_wrong
              (get-metrics name a.evidence ∙ found);
      },
  λ h.
      let required = supported-known a h in
      let none_wrong : any (contradicts a) (metrics_into [] a.evidence) ≡ false =
        agrees-none a (metrics_into [] a.evidence) (metrics_into-IsDict [] a.evidence tt)
          (λ name v found. h.agrees name v (sym (get-metrics name a.evidence) ∙ found)) in
      ground (arith, h.enough, h.bounded),
)

last_value-shadowed :
    (e : EvidenceMetric) (es : List EvidenceMetric) (name : MetricName)
    → is_known (last_value e.name es) ≡ true
    → last_value name (e ∷ es) ≡ last_value name es
last_value-shadowed e es name known = elim (Bool-cases (e.name == name)) [
  | inl same ↦ let key : e.name ≡ name = (==_iff e.name name).0 same in ground arith
  | inr other ↦ ground arith
]

-- What is expected of a metric does not come from the evidence.
expected-evidence :
    (a : BorrowerApplication) (es : List EvidenceMetric) (name : MetricName)
    → expected (record a { evidence = es }) name ≡ expected a name
unfolding expected
expected-evidence a es name = ground arith

-- A metric in front of another one of its name is never compared with the profile: whatever its
-- value, an application that was accepted without it is accepted with it, up to 20 metrics.
pub validate_evidence_shadowed :
    (a : BorrowerApplication) (e : EvidenceMetric)
    → validate_evidence a ≡ ok a
    → is_known (last_value e.name a.evidence) ≡ true
    → length a.evidence < 20
    → let b = record a { evidence = e ∷ a.evidence } in validate_evidence b ≡ ok b
validate_evidence_shadowed a e accepted known room =
    let b = record a { evidence = e ∷ a.evidence } in
    let h = (validate_evidence-IsSupported a).0 accepted in
    let same : (name : MetricName) → last_value name (e ∷ a.evidence) ≡ last_value name a.evidence =
      λ name. last_value-shadowed e a.evidence name known in
    (validate_evidence-IsSupported b).1 (record {
      enough = omega (arith, h.enough);
      bounded = omega (arith, room);
      revenue = rw (same annual_revenue_metric) h.revenue;
      margin = rw (same ebitda_margin_metric) h.margin;
      service = rw (same dscr_metric) h.service;
      agrees = λ name v found.
          rw (expected-evidence a (e ∷ a.evidence) name)
            (h.agrees name v (sym (same name) ∙ found));
    })
