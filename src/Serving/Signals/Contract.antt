-- ===== src/Serving/Signals/Contract.antt =====
-- The validator of a duplicate signal, and labels that never make it fail.
use janasunani.Base.{
  ℕ, ◌≡◌, ◌⊎◌, ◌≢◌, ◌≤◌, ◌∷◌, refl, [], Bool, true, false, not, ◌&&◌, Option, none, some, Text,
  arith, ltb, ◌||◌, inl, inr,
}
use janasunani.Serving.Signals.{
  DuplicateRelationship, DuplicateKind, DuplicateEvidence, DuplicateSignal, candidate_relationship,
  pure_duplicate, follow_up, related, campaign, uncertain, resubmission, campaign_kind, kind_labels,
  contradicts, validate_signal, labelled, mock_labelled, relationship_rule_version, same_label,
  outside_campaign, is_campaign, is_campaign_kind, context_holds, fields_hold, optional, is_current,
  present,
}

same_label_refl : (l : DuplicateRelationship) → same_label l l ≡ true
same_label_refl pure_duplicate = refl
same_label_refl follow_up = refl
same_label_refl related = refl
same_label_refl campaign = refl
same_label_refl uncertain = refl

-- What the guards of the validator leave, the label set aside.
record Passed (s : DuplicateSignal) : Type 0 where
  fields : fields_hold s ≡ true
  context :
      context_holds s.duplicate_kind s.duplicate_ticket_no s.related_filings s.distinct_signatories
      ≡ true

validate_signal-Passed : (s : DuplicateSignal) → validate_signal s ≡ some s → Passed s
unfolding validate_signal
validate_signal-Passed s valid = record { fields = ground arith; context = ground arith }

labelled_fields :
    (s : DuplicateSignal) (e : DuplicateEvidence)
    → fields_hold s ≡ true
    → fields_hold (labelled s e) ≡ true
unfolding labelled
labelled_fields s e h = ground arith

and_false : (b : Bool) → (b && false) ≡ false
and_false true = refl
and_false false = refl

labelled_agrees : (s : DuplicateSignal) (e : DuplicateEvidence) → contradicts (labelled s e) ≡ false
unfolding contradicts labelled
labelled_agrees s e =
    rw (same_label_refl (candidate_relationship e (some s.duplicate_kind)))
      (and_false (is_current (some relationship_rule_version)))

allowed :
    (e : DuplicateEvidence) (kind : DuplicateKind)
    → ((is_campaign_kind kind && outside_campaign (some (candidate_relationship e (some kind))))
        ≡ false)
      × ((not (is_campaign_kind kind) && is_campaign (some (candidate_relationship e (some kind))))
          ≡ false)
unfolding candidate_relationship
allowed e resubmission = ground arith
allowed e campaign_kind = ground arith

-- If a duplicate signal validates, then it still validates once it carries the label that the
-- rules give any evidence under its kind of match, that evidence and the current rule version.
pub mock_labelled-total :
    (s : DuplicateSignal) (e : DuplicateEvidence)
    → validate_signal s ≡ some s
    → mock_labelled s e ≡ some (labelled s e)
unfolding mock_labelled validate_signal labelled
mock_labelled-total s e valid =
    let p = validate_signal-Passed s valid in
    rw
      (
        labelled_fields s e p.fields,
        labelled_agrees s e,
        (allowed e s.duplicate_kind).0,
        (allowed e s.duplicate_kind).1,
        p.context,
      )
      refl

-- What a signal may say.
pub record IsSignal (s : DuplicateSignal) : Type 0 where
  pub grouped : s.duplicate_group_id ≢ []
  pub together :
      ((s.relationship ≡ none) × (s.evidence ≡ none) × (s.rule_version ≡ none))
      ⊎ ((l : DuplicateRelationship) × (e : DuplicateEvidence) × (v : Text) × (s.relationship
            ≡ some l)
          × (s.evidence ≡ some e)
          × (s.rule_version ≡ some v))
  pub of_kind :
      (l : DuplicateRelationship) → s.relationship ≡ some l → kind_labels s.duplicate_kind l ≡ true
  pub from_rules :
      (l : DuplicateRelationship) (e : DuplicateEvidence)
      → s.relationship ≡ some l
      → s.evidence ≡ some e
      → s.rule_version ≡ some relationship_rule_version
      → l ≡ candidate_relationship e (some s.duplicate_kind)
  pub one_earlier :
      s.duplicate_kind ≡ resubmission
      → ((t : Text) × (s.duplicate_ticket_no ≡ some t) × (t ≢ []))
        × (s.related_filings ≡ none)
        × (s.distinct_signatories ≡ none)
  pub collective :
      s.duplicate_kind ≡ campaign_kind
      → (s.duplicate_ticket_no ≡ none)
        × ((n : ℕ) × (s.related_filings ≡ some n)
            × (2 ≤ n)
            × ((m : ℕ) → s.distinct_signatories ≡ some m → (1 ≤ m) × (m ≤ n)))

together_lem :
    (r : Option DuplicateRelationship) (e : Option DuplicateEvidence) (v : Option Text)
    → ((present r || present e || present v) && not (present r && present e && present v)) ≡ false
    → ((r ≡ none) × (e ≡ none) × (v ≡ none))
      ⊎ ((l : DuplicateRelationship) × (e' : DuplicateEvidence) × (v' : Text) × (r ≡ some l)
          × (e ≡ some e')
          × (v ≡ some v'))
together_lem none none none h = inl (refl, refl, refl)
together_lem none none (some v) h = cc
together_lem none (some e) none h = cc
together_lem none (some e) (some v) h = cc
together_lem (some r) none none h = cc
together_lem (some r) none (some v) h = cc
together_lem (some r) (some e) none h = cc
together_lem (some r) (some e) (some v) h = inr (r, e, v, refl, refl, refl)

single_lem :
    (ticket : Option Text) (filings signatories : Option ℕ)
    → context_holds resubmission ticket filings signatories ≡ true
    → ((t : Text) × (ticket ≡ some t) × (t ≢ [])) × (filings ≡ none) × (signatories ≡ none)
single_lem none f g h = cc
single_lem (some []) f g h = cc
single_lem (some (c ∷ t)) f g h = ((c ∷ t, refl, ground arith), ground arith, ground arith)

collective_lem :
    (ticket : Option Text) (filings signatories : Option ℕ)
    → context_holds campaign_kind ticket filings signatories ≡ true
    → optional (λ n. not (ltb n 2)) filings ≡ true
    → optional (λ n. not (ltb n 1)) signatories ≡ true
    → (ticket ≡ none)
      × ((n : ℕ) × (filings ≡ some n)
          × (2 ≤ n)
          × ((m : ℕ) → signatories ≡ some m → (1 ≤ m) × (m ≤ n)))
collective_lem (some t) f g h a b = cc
collective_lem none none g h a b = cc
collective_lem none (some n) g h a b = (refl, (n, refl, ground arith, λ m e. ground arith))

same_label_eq : (l k : DuplicateRelationship) → same_label l k ≡ true → l ≡ k
same_label_eq l k h = ground arith

from_rules_lem :
    (s : DuplicateSignal) (l : DuplicateRelationship) (e : DuplicateEvidence)
    → contradicts s ≡ false
    → s.relationship ≡ some l
    → s.evidence ≡ some e
    → s.rule_version ≡ some relationship_rule_version
    → l ≡ candidate_relationship e (some s.duplicate_kind)
unfolding contradicts
from_rules_lem s l e h hl he hv =
    same_label_eq l (candidate_relationship e (some s.duplicate_kind)) (ground arith)

-- What the validator lets through is the signal itself, with a group id; its label, evidence and
-- rule version are all present or all absent; the label is one that its kind of match allows and,
-- under the current rules, the one that its evidence gives; a resubmission names one earlier
-- ticket and no counts; a campaign names no ticket, has at least two filings, and no more
-- signatories than filings.
pub validate_signal-IsSignal :
    (s t : DuplicateSignal) → validate_signal s ≡ some t → (t ≡ s) × IsSignal s
unfolding validate_signal
validate_signal-IsSignal s t valid = (
  ground arith,
  record {
    grouped = ground arith;
    together = together_lem s.relationship s.evidence s.rule_version (ground arith);
    of_kind = ground arith;
    from_rules = λ l e. from_rules_lem s l e (ground arith);
    one_earlier = λ k.
        single_lem s.duplicate_ticket_no s.related_filings s.distinct_signatories (ground arith);
    collective = λ k.
        collective_lem s.duplicate_ticket_no s.related_filings s.distinct_signatories (ground arith)
          (ground arith) (ground arith);
  },
)
