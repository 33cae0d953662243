-- ===== src/Egress/Job/Archive.antt =====
-- `_primary_markdown` of janasunani/egress/sarvam.py: the one Markdown member of a result archive.
use janasunani.Base.{
  ℕ, ◌+◌, ◌-◌, Bool, true, false, not, ◌&&◌, List, [], ◌∷◌, ◌++◌, map, Text, codes, leb, ltb,
  length, drop, if◌then◌else◌, text_eq, ◌==◌, filterb,
}
use janasunani.Serving.Signals.{non_empty}
use janasunani.Egress.Client.State.{
  Outside, ResultZip, opened, bad_zip_file, zip_raised, Member, decoded, bad_member, not_utf8,
  member_raised, sarvam_error, zip_error, M, return, raise,
}

-- `text.split("/")`, with the part read so far.
unfoldable pub split_slash : Text → Text → List Text
split_slash part [] = part ∷ []
split_slash part (c ∷ text) = elim (c == b'/') [
  | true ↦ part ∷ split_slash [] text
  | false ↦ split_slash (part ++ (c ∷ [])) text
]

abbrev pub last_or : Text → List Text → Text
last_or name [] = name
last_or name (part ∷ parts) = last_or part parts

-- `Path(member).name`: the path drops empty parts and single dots.
unfoldable pub path_name : Text → Text
unfolding split_slash
path_name member =
    last_or []
      (filterb (λ part. non_empty part && not (text_eq part (codes "."))) (split_slash [] member))

abbrev pub lower : ℕ → ℕ
lower c = if leb b'A' c && leb c b'Z' then c + 32 else c

-- `text.endswith(suffix)`
abbrev pub ends_with : Text → Text → Bool
ends_with suffix text = text_eq (drop (length text - length suffix) text) suffix

-- A suffix stands after at least one character of the name.
unfoldable pub is_markdown : Text → Bool
unfolding path_name
is_markdown member =
    let name = path_name member in
    not (ends_with (codes "/") member)
    && (ltb 3 (length name) && ends_with (codes ".md") (map lower name))

unfoldable pub markdown_members : List (Text × Member) → List (Text × Member)
unfolding is_markdown
markdown_members members = filterb (λ m. is_markdown m.0) members

-- `result_zip.read(name).decode("utf-8")`
abbrev pub read_member : Member → M Text
read_member (decoded text) = return text
read_member bad_member = raise sarvam_error
read_member not_utf8 = raise sarvam_error
read_member member_raised = raise zip_error

abbrev pub read_only : List (Text × Member) → M Text
read_only [] = raise sarvam_error
read_only ((name, member) ∷ []) = read_member member
read_only (_ ∷ _ ∷ _) = raise sarvam_error

abbrev pub read_zip : ResultZip → M Text
read_zip (opened members) = read_only (markdown_members members)
read_zip bad_zip_file = raise sarvam_error
read_zip zip_raised = raise zip_error

unfoldable pub primary_markdown : Outside → Text → M Text
unfolding markdown_members
primary_markdown env archive = read_zip (env.members archive)
