-- ===== src/Serving/Signals/Tests.antt =====
-- The duplicate contract at concrete signals.
use janasunani.Base.{◌≡◌, refl, true, false, none, some, codes}
use janasunani.Serving.Signals.{
  DuplicateEvidence, DuplicateSignal, near, open_status, resubmission, validate_signal, contradicts,
  mock_labelled, labelled,
}
use janasunani.Serving.Signals.Labels.{IsGrounded, evidence_label-IsGrounded}
use janasunani.Serving.Signals.Contract.{IsSignal, mock_labelled-total, validate_signal-IsSignal}

abbrev status_request : DuplicateEvidence
status_request = record {
  identity_match = some true;
  text_similarity = some near;
  days_since_earlier = some 21;
  earlier_status = some open_status;
  explicit_reference = none;
  follow_up_cue = some true;
  new_information = some false;
}

abbrev earlier_ticket : DuplicateSignal
earlier_ticket = record {
  duplicate_kind = resubmission;
  duplicate_group_id = codes "g1";
  duplicate_ticket_no = some (codes "CMO202400042");
  related_filings = none;
  distinct_signatories = none;
  relationship = none;
  evidence = none;
  rule_version = none;
}

earlier_ticket_valid : validate_signal earlier_ticket ≡ some earlier_ticket
unfolding validate_signal contradicts
earlier_ticket_valid = refl

evidence_label-IsGrounded_example : IsGrounded status_request
evidence_label-IsGrounded_example = evidence_label-IsGrounded status_request

mock_labelled-total_example :
    mock_labelled earlier_ticket status_request ≡ some (labelled earlier_ticket status_request)
mock_labelled-total_example = mock_labelled-total earlier_ticket status_request earlier_ticket_valid

validate_signal-IsSignal_example : (earlier_ticket ≡ earlier_ticket) × IsSignal earlier_ticket
validate_signal-IsSignal_example =
    validate_signal-IsSignal earlier_ticket earlier_ticket earlier_ticket_valid
