-- ===== src/Serving/Signals.antt =====
-- The duplicate contract of janasunani/serving/schemas.py and the rule labeller of
-- janasunani/serving/triage.py. `none` of a validator is its `ValueError`.
pub mod Labels
pub mod Contract
pub mod Tests
use janasunani.Base.{
  ℕ, Bool, true, false, not, ◌&&◌, ◌||◌, Option, none, some, List, [], Text, codes, text_discrete,
  if◌then◌else◌, ltb,
}

pub data TextSimilarity : Type 0 where
  identical : TextSimilarity
  near : TextSimilarity
  similar : TextSimilarity
  different : TextSimilarity

pub data EarlierStatus : Type 0 where
  open_status : EarlierStatus
  closed_status : EarlierStatus

pub data DuplicateRelationship : Type 0 where
  pure_duplicate : DuplicateRelationship
  follow_up : DuplicateRelationship
  related : DuplicateRelationship
  campaign : DuplicateRelationship
  uncertain : DuplicateRelationship

-- `duplicate_kind`: the match is one earlier ticket, or a campaign.
pub data DuplicateKind : Type 0 where
  resubmission : DuplicateKind
  campaign_kind : DuplicateKind

-- `none` is "not assessed".
pub record DuplicateEvidence : Type 0 where
  pub identity_match : Option Bool
  pub text_similarity : Option TextSimilarity
  pub days_since_earlier : Option ℕ
  pub earlier_status : Option EarlierStatus
  pub explicit_reference : Option Bool
  pub follow_up_cue : Option Bool
  pub new_information : Option Bool

-- `x is True` and `x is False`
abbrev pub is_true : Option Bool → Bool
is_true none = false
is_true (some b) = b

abbrev pub is_false : Option Bool → Bool
is_false none = false
is_false (some b) = not b

abbrev pub same_text : Option TextSimilarity → Bool
same_text (some identical) = true
same_text (some near) = true
same_text (some similar) = false
same_text (some different) = false
same_text none = false

abbrev pub affirmative_text : Option TextSimilarity → Bool
affirmative_text (some identical) = true
affirmative_text (some near) = true
affirmative_text (some similar) = true
affirmative_text (some different) = false
affirmative_text none = false

abbrev pub is_different : Option TextSimilarity → Bool
is_different (some different) = true
is_different (some identical) = false
is_different (some near) = false
is_different (some similar) = false
is_different none = false

-- `_evidence_label`
pub evidence_label : DuplicateEvidence → DuplicateRelationship
evidence_label e =
    let same_problem =
      is_true e.explicit_reference
      || (is_true e.identity_match && affirmative_text e.text_similarity) in
    if same_text e.text_similarity && is_false e.identity_match && is_false e.explicit_reference
    then campaign
    else if same_problem
        && not (is_different e.text_similarity)
        && (is_true e.follow_up_cue || is_true e.new_information)
    then follow_up
    else if is_true e.identity_match
        && same_text e.text_similarity
        && is_false e.new_information
        && is_false e.follow_up_cue
    then pure_duplicate
    else uncertain

-- `_KIND_LABELS`
abbrev pub kind_labels : DuplicateKind → DuplicateRelationship → Bool
kind_labels resubmission pure_duplicate = true
kind_labels resubmission follow_up = true
kind_labels resubmission related = true
kind_labels resubmission campaign = false
kind_labels resubmission uncertain = true
kind_labels campaign_kind pure_duplicate = false
kind_labels campaign_kind follow_up = false
kind_labels campaign_kind related = false
kind_labels campaign_kind campaign = true
kind_labels campaign_kind uncertain = true

pub candidate_relationship : DuplicateEvidence → Option DuplicateKind → DuplicateRelationship
candidate_relationship e none = evidence_label e
candidate_relationship e (some kind) =
    let label = evidence_label e in if kind_labels kind label then label else uncertain

pub record DuplicateSignal : Type 0 where
  pub duplicate_kind : DuplicateKind
  pub duplicate_group_id : Text
  pub duplicate_ticket_no : Option Text
  pub related_filings : Option ℕ
  pub distinct_signatories : Option ℕ
  pub relationship : Option DuplicateRelationship
  pub evidence : Option DuplicateEvidence
  pub rule_version : Option Text

abbrev pub relationship_rule_version : Text
relationship_rule_version = codes "relationship-rules-v1"

abbrev pub present : {A : Type 0} → Option A → Bool
present none = false
present (some _) = true

-- `min_length=1`, and the truth of a string.
abbrev pub non_empty : Text → Bool
non_empty [] = false
non_empty (List.◌∷◌ _ _) = true

abbrev pub optional : {A : Type 0} → (A → Bool) → Option A → Bool
optional p none = true
optional p (some a) = p a

abbrev pub same_label : DuplicateRelationship → DuplicateRelationship → Bool
same_label pure_duplicate pure_duplicate = true
same_label follow_up follow_up = true
same_label related related = true
same_label campaign campaign = true
same_label uncertain uncertain = true
same_label _ _ = false

abbrev pub is_current : Option Text → Bool
is_current none = false
is_current (some v) = elim (text_discrete v relationship_rule_version) [
  | yes _ ↦ true
  | no _ ↦ false
]

-- The label differs from the one that its evidence gives, under the current rules.
pub contradicts : DuplicateSignal → Bool
contradicts s = elim s.evidence [
  | none ↦ false
  | some e ↦
      is_current s.rule_version
      && not (
          optional (λ l. same_label l (candidate_relationship e (some s.duplicate_kind)))
            s.relationship
          && present s.relationship)
]

-- `relationship not in {None, "campaign", "uncertain"}`
abbrev pub outside_campaign : Option DuplicateRelationship → Bool
outside_campaign none = false
outside_campaign (some campaign) = false
outside_campaign (some uncertain) = false
outside_campaign (some pure_duplicate) = true
outside_campaign (some follow_up) = true
outside_campaign (some related) = true

abbrev pub is_campaign : Option DuplicateRelationship → Bool
is_campaign none = false
is_campaign (some l) = same_label l campaign

-- The field constraints of `DuplicateSignal`.
abbrev pub fields_hold : DuplicateSignal → Bool
fields_hold s =
    non_empty s.duplicate_group_id
    && optional (λ n. not (ltb n 2)) s.related_filings
    && optional (λ n. not (ltb n 1)) s.distinct_signatories
    && optional non_empty s.rule_version

-- The tests of `_kind_has_the_right_context` after those on the label, by the kind.
abbrev pub context_holds : DuplicateKind → Option Text → Option ℕ → Option ℕ → Bool
context_holds resubmission ticket related_filings signatories =
    present ticket
    && optional non_empty ticket
    && not (present related_filings)
    && not (present signatories)
context_holds campaign_kind (some _) related_filings signatories = false
context_holds campaign_kind none none signatories = false
context_holds campaign_kind none (some n) none = true
context_holds campaign_kind none (some n) (some m) = not (ltb n m)

abbrev pub is_campaign_kind : DuplicateKind → Bool
is_campaign_kind resubmission = false
is_campaign_kind campaign_kind = true

-- `DuplicateSignal`, with its validator.
pub validate_signal : DuplicateSignal → Option DuplicateSignal
unfolding contradicts
validate_signal s =
    let labelled = present s.relationship || present s.evidence || present s.rule_version in
    let complete = present s.relationship && present s.evidence && present s.rule_version in
    if not (fields_hold s)
    then none
    else if labelled && not complete
    then none
    else if contradicts s
    then none
    else if is_campaign_kind s.duplicate_kind && outside_campaign s.relationship
    then none
    else if not (is_campaign_kind s.duplicate_kind) && is_campaign s.relationship
    then none
    else if context_holds s.duplicate_kind s.duplicate_ticket_no s.related_filings
        s.distinct_signatories
    then some s
    else none

-- `_mock_labelled` of janasunani/serving/processor.py: the label of the rules, validated again.
pub labelled : DuplicateSignal → DuplicateEvidence → DuplicateSignal
labelled s e = record s {
  relationship = some (candidate_relationship e (some s.duplicate_kind));
  evidence = some e;
  rule_version = some relationship_rule_version;
}

pub mock_labelled : DuplicateSignal → DuplicateEvidence → Option DuplicateSignal
unfolding labelled validate_signal
mock_labelled s e = validate_signal (labelled s e)
