-- ===== src/Serving/Signals/Labels.antt =====
-- What each label of the rules says of the evidence.
use janasunani.Base.{◌≡◌, ◌↔◌, ◌⊎◌, ◌≢◌, true, false, some, arith}
use janasunani.Serving.Signals.{
  DuplicateEvidence, evidence_label, pure_duplicate, follow_up, related, campaign, identical, near,
  similar, different,
}

-- The texts are as good as the same.
abbrev pub SameText : DuplicateEvidence → Type 0
SameText e = (e.text_similarity ≡ some identical) ⊎ (e.text_similarity ≡ some near)

-- The two filings are about one problem: one names the other, or one filer wrote comparable texts.
abbrev pub SameProblem : DuplicateEvidence → Type 0
SameProblem e =
    (e.explicit_reference ≡ some true)
    ⊎ ((e.identity_match ≡ some true) × (SameText e ⊎ (e.text_similarity ≡ some similar)))

-- What each label rests on.
pub record IsGrounded (e : DuplicateEvidence) : Type 0 where
  pub collective :
      (evidence_label e ≡ campaign)
      ↔ (SameText e × (e.identity_match ≡ some false) × (e.explicit_reference ≡ some false))
  pub repeated : (evidence_label e ≡ pure_duplicate) ↔ (
      (e.identity_match ≡ some true)
      × SameText e
      × (e.new_information ≡ some false)
      × (e.follow_up_cue ≡ some false))
  pub followed : (evidence_label e ≡ follow_up) ↔ (
      SameProblem e
      × (e.text_similarity ≢ some different)
      × ((e.follow_up_cue ≡ some true) ⊎ (e.new_information ≡ some true)))
  pub never_related : evidence_label e ≢ related

-- The label is `campaign` exactly when the texts are identical or near and the filer key and the
-- reference were both checked and absent; `pure_duplicate` exactly when the key matches, the
-- texts are identical or near, and both new information and a follow-up cue were checked and
-- absent; `follow_up` exactly when the filings share a problem, the texts are not different, and
-- there is a cue or new information; and never `related`.
pub evidence_label-IsGrounded : (e : DuplicateEvidence) → IsGrounded e
unfolding evidence_label
evidence_label-IsGrounded e = record {
  collective = ground arith;
  repeated = ground arith;
  followed = ground arith;
  never_related = ground arith;
}
