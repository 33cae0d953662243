-- ===== src/Pii/Tagger/Tests.antt =====
-- The filter of the tagger on a short text: a padded name, and a number that is a date.
use janasunani.Base.{
  refl, false, List, [], ◌∷◌, Text, codes, length, All, Returns, inl, arith, text_eq, is_space, leb,
}
use janasunani.Pii.Tagger.{
  RecognizerResult, PiiRules, char_at, trim_span, trim_all, trim_start, trim_end, overlaps_any,
  is_government, is_excluded, is_government_email, postfilter,
}
use janasunani.Pii.Tagger.Filtered.{IsKept, IsCovered, postfilter-IsKept, postfilter-covers}

abbrev plain : PiiRules
plain = record {
  lower = λ text. text;
  normalize_entity = λ entity. entity;
  is_date_shaped = λ text. leb (length text) 8;
  preceded_by_reference_marker = λ text start. false;
}

abbrev line : Text
line = codes " Asha 1-2-24"

abbrev name : RecognizerResult
name = record { entity_type = codes "PERSON"; start = 0; end = 6; score = 85 }

abbrev date : RecognizerResult
date = record { entity_type = codes "PHONE"; start = 6; end = 12; score = 40 }

abbrev found : List RecognizerResult
found = name ∷ date ∷ []

abbrev trimmed_name : RecognizerResult
trimmed_name = record { entity_type = codes "PERSON"; start = 1; end = 5; score = 85 }

postfilter-IsKept_example : Returns (postfilter plain line found) (All (IsKept plain line found))
postfilter-IsKept_example = postfilter-IsKept plain line found (omega arith)

postfilter-covers_example : IsCovered 4 name (trimmed_name ∷ [])
unfolding postfilter is_excluded is_government is_government_email overlaps_any trim_all trim_span
    trim_start trim_end char_at text_eq is_space
postfilter-covers_example =
    postfilter-covers plain line found (trimmed_name ∷ []) name 4 refl (inl refl) refl (omega arith)
      (omega arith) (b'a', refl, refl)
