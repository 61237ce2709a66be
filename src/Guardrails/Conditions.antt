-- ===== src/Guardrails/Conditions.antt =====
-- The conditions under which a state may be handed to a reviewer, written out.
use funder_match.Base.{
  Bool-cases, List, String, [], any, arith, contains, inl, inr, nat_eq, refl, string_eq, true, ◌==◌,
  ◌↔◌, ◌∷◌, ◌≡◌, ◌⊎◌,
}
use funder_match.Number.{Decimal, at_most}
use funder_match.Orchestration.Schema.{DocumentReference, EvidenceReference, EligibilityReference}
use funder_match.Rules.Schema.{SourceCitation}
use funder_match.Suggest.Schema.{
  PrecedentMatch, Grounding, evidence_claim, calculation_claim, precedent_claim,
}
use funder_match.Guardrails.Worker.{document_ids, eligible_ids, case_ids, cites, is_grounded}

-- Some element satisfies the predicate.
abbrev pub Any : {A : Type 0} → (A → Type 0) → List A → Type 0
Any P [] = ⊥
Any P (x ∷ xs) = P x ⊎ Any P xs

abbrev pub IsEligible : List EligibilityReference → String → Type 0
IsEligible es funder = Any (λ e. (e.funder_id ≡ funder) × (e.eligible ≡ true)) es

abbrev pub IsSame : Decimal → Decimal → Type 0
IsSame a b = (at_most a b ≡ true) × (at_most b a ≡ true)

-- One place on one page of one document.
pub record Cites (c : SourceCitation) (e : EvidenceReference) : Type 0 where
  pub document : c.document_id ≡ e.document_id
  pub page : c.page_number ≡ e.page_number
  pub left : IsSame c.bbox.x0 e.bbox.x0
  pub top : IsSame c.bbox.y0 e.bbox.y0
  pub right : IsSame c.bbox.x1 e.bbox.x1
  pub bottom : IsSame c.bbox.y1 e.bbox.y1

-- What a claim has to rest on. A calculation carries its own digest and rests on nothing else.
abbrev pub Rests : List EvidenceReference → List PrecedentMatch → Grounding → Type 0
Rests evidence matches (evidence_claim m) = Any (Cites m.citation) evidence
Rests evidence matches (calculation_claim funder check) = Unit
Rests evidence matches (precedent_claim case_id score) =
    Any (λ m. m.precedent.case_id ≡ case_id) matches

pub contains-IsEligible :
    (es : List EligibilityReference) (funder : String)
    → (contains funder (eligible_ids es) ≡ true) ↔ IsEligible es funder
contains-IsEligible [] funder = (λ h. cc, λ h. absurd h)
contains-IsEligible (e ∷ es) funder =
    let ih = contains-IsEligible es funder in
    elim (Bool-cases e.eligible) [
      | inr out ↦ (
        λ h. inr (ih.0 (rw out at h)),
        λ h. elim h [ inl here ↦ ground arith | inr later ↦ rw out (ih.1 later) ],
      )
      | inl through ↦ (
        λ h. elim (Bool-cases (funder == e.funder_id)) [
          | inl same ↦ inl (ground arith, through)
          | inr other ↦ inr (ih.0 (ground arith))
        ],
        λ h. elim h [ inl here ↦ ground (arith, here.0) | inr later ↦ ground (arith, ih.1 later) ],
      )
    ]

pub contains-documents :
    (ds : List DocumentReference) (x : String)
    → (contains x (document_ids ds) ≡ true) ↔ Any (λ d. d.document_id ≡ x) ds
contains-documents [] x = (λ h. cc, λ h. absurd h)
contains-documents (d ∷ ds) x =
    let ih = contains-documents ds x in
    (
      λ h. elim (Bool-cases (x == d.document_id)) [
        | inl same ↦ inl (ground arith)
        | inr other ↦ inr (ih.0 (ground arith))
      ],
      λ h. elim h [ inl here ↦ ground (arith, here) | inr later ↦ ground (arith, ih.1 later) ],
    )

contains-cases :
    (ms : List PrecedentMatch) (x : String)
    → (contains x (case_ids ms) ≡ true) ↔ Any (λ m. m.precedent.case_id ≡ x) ms
contains-cases [] x = (λ h. cc, λ h. absurd h)
contains-cases (m ∷ ms) x =
    let ih = contains-cases ms x in
    (
      λ h. elim (Bool-cases (x == m.precedent.case_id)) [
        | inl same ↦ inl (ground arith)
        | inr other ↦ inr (ih.0 (ground arith))
      ],
      λ h. elim h [ inl here ↦ ground (arith, here) | inr later ↦ ground (arith, ih.1 later) ],
    )

cites-Cites : (c : SourceCitation) (e : EvidenceReference) → (cites c e ≡ true) ↔ Cites c e
unfolding cites
cites-Cites c e = (
  λ h. record {
    document = ground arith;
    page = ground arith;
    left = (ground arith, ground arith);
    top = (ground arith, ground arith);
    right = (ground arith, ground arith);
    bottom = (ground arith, ground arith);
  },
  λ h. ground (arith, h.document, h.page, h.left, h.top, h.right, h.bottom),
)

any-Cites :
    (c : SourceCitation) (es : List EvidenceReference)
    → (any (cites c) es ≡ true) ↔ Any (Cites c) es
any-Cites c [] = (λ h. cc, λ h. absurd h)
any-Cites c (e ∷ es) =
    let ih = any-Cites c es in
    let here = cites-Cites c e in
    (
      λ h. elim (Bool-cases (cites c e)) [
        | inl same ↦ inl (here.0 same)
        | inr other ↦ inr (ih.0 (ground arith))
      ],
      λ h. elim h [
        | inl this ↦ ground (arith, here.1 this)
        | inr later ↦ ground (arith, ih.1 later)
      ],
    )

pub grounded-Rests :
    (evidence : List EvidenceReference) (matches : List PrecedentMatch) (x : Grounding)
    → (is_grounded evidence (case_ids matches) x ≡ true) ↔ Rests evidence matches x
grounded-Rests evidence matches (evidence_claim m) = any-Cites m.citation evidence
grounded-Rests evidence matches (calculation_claim funder check) = (λ h. tt, λ h. refl)
grounded-Rests evidence matches (precedent_claim case_id score) = contains-cases matches case_id
