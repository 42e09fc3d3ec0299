-- ===== src/Selection/Name/Tokens.antt =====
-- internal/selection/relname.go: what each token of a release name says, and `Parse`.
use romarr.Base.{
  ℕ, ◌+◌, ◌*◌, ◌-◌, Bool, true, false, not, ◌&&◌, ◌||◌, Option, none, some, List, [], ◌∷◌, ◌++◌,
  if◌then◌else◌, any, all, ◌==◌, leb, map, keep, is_none, min,
}
use romarr.Base.Text.{
  Text, codes, is_empty, text_eq, to_lower, trim_space, equal_fold, has_prefix, split_at,
  split_commas,
}
use romarr.Selection.Model.{ReleaseAttrs}
use romarr.Selection.Name.{
  Piece, plain, token, pieces, remove_spans, collapse_spaces, stem, trailing_extension,
  format_hint_of,
}

abbrev region_tokens : List Text
region_tokens =
    codes "usa"
    ∷ codes "world"
    ∷ codes "europe"
    ∷ codes "japan"
    ∷ codes "uk"
    ∷ codes "australia"
    ∷ codes "canada"
    ∷ codes "korea"
    ∷ codes "china"
    ∷ codes "taiwan"
    ∷ codes "france"
    ∷ codes "germany"
    ∷ codes "spain"
    ∷ codes "italy"
    ∷ codes "netherlands"
    ∷ codes "sweden"
    ∷ codes "brazil"
    ∷ codes "asia"
    ∷ []

unfoldable pub is_region_token : Text → Bool
is_region_token tok =
    all (λ p. any (text_eq (to_lower (trim_space p))) region_tokens) (split_commas tok)

-- What is left of a text after a prefix.
abbrev pub after : Text → Text → Option Text
after [] s = some s
after (c ∷ p) [] = none
after (c ∷ p) (d ∷ s) = if c == d then after p s else none

abbrev pub is_digit : ℕ → Bool
is_digit c = leb b'0' c && leb c b'9'

abbrev pub is_upper : ℕ → Bool
is_upper c = leb b'A' c && leb c b'Z'

abbrev language_tags : List Text
language_tags =
    codes "En"
    ∷ codes "Fr"
    ∷ codes "De"
    ∷ codes "Es"
    ∷ codes "It"
    ∷ codes "Nl"
    ∷ codes "Pt"
    ∷ codes "Sv"
    ∷ codes "No"
    ∷ codes "Da"
    ∷ codes "Fi"
    ∷ codes "Ja"
    ∷ codes "Ko"
    ∷ codes "Zh"
    ∷ []

-- `([,+].*)?$`, where `.` is no newline
abbrev more_languages : Option Text → Bool
more_languages none = false
more_languages (some []) = true
more_languages (some (c ∷ s)) = (c == b',' || c == b'+') && all (λ d. not (d == 10)) s

-- `langRe`
unfoldable pub is_language : Text → Bool
is_language tok = any (λ l. more_languages (after l tok)) language_tags

-- One or more characters that pass a test.
abbrev pub some_of : (ℕ → Bool) → Text → Bool
some_of test s = not (is_empty s) && all test s

abbrev pub if_some_of : (ℕ → Bool) → Option Text → Option Text
if_some_of test none = none
if_some_of test (some s) = if some_of test s then some s else none

-- `revRe` with its group
unfoldable pub revision_text : Text → Option Text
revision_text tok = if_some_of (λ c. is_digit c || is_upper c) (after (codes "Rev ") tok)

-- The digits at the start, and what follows them.
abbrev pub leading_digits : Text → Text × Text
leading_digits [] = ([], [])
leading_digits (c ∷ s) =
    let rest = leading_digits s in if is_digit c then (c ∷ rest.0, rest.1) else ([], c ∷ s)

-- The number behind " of ", if the rest of the token is empty or says one.
abbrev pub total_text : Text → Option Text
total_text [] = some []
total_text (c ∷ s) = if_some_of is_digit (after (codes " of ") (c ∷ s))

abbrev pub disc_groups : Text × Text → Option (Text × Text)
disc_groups ([], rest) = none
disc_groups (d ∷ ds, rest) = elim (total_text rest) [ none ↦ none | some t ↦ some (d ∷ ds, t) ]

abbrev pub disc_after : Option Text → Option (Text × Text)
disc_after none = none
disc_after (some s) = disc_groups (leading_digits s)

-- `discRe` with its two groups
unfoldable pub disc_text : Text → Option (Text × Text)
disc_text tok = disc_after (after (codes "Disc ") tok)

abbrev space_digits : Option Text → Bool
space_digits none = false
space_digits (some []) = true
space_digits (some (c ∷ s)) = c == b' ' && some_of is_digit s

-- `protoRe`
unfoldable pub is_proto_token : Text → Bool
is_proto_token tok =
    any (λ p. space_digits (after p tok)) (codes "Proto" ∷ codes "Beta" ∷ codes "Sample" ∷ [])

-- `badRe`
unfoldable pub is_bad_token : Text → Bool
is_bad_token [] = false
is_bad_token (c ∷ s) = c == b'b' && all is_digit s

abbrev pub max_int : ℕ
max_int = 9223372036854775807

-- The number that decimal digits say, without a bound.
unfoldable pub number_from : ℕ → Text → ℕ
number_from n [] = n
number_from n (c ∷ s) = number_from (n * 10 + (c - b'0')) s

-- `strconv.Atoi` of digits: past the range it returns the largest integer and an error.
unfoldable pub atoi : Text → ℕ
unfolding number_from
atoi s = min (number_from 0 s) max_int

abbrev letter_revision : Text → ℕ
letter_revision [] = 1
letter_revision (c ∷ []) = if is_upper c then c - b'A' + 1 else 1
letter_revision (c ∷ d ∷ s) = 1

unfoldable pub parse_revision : Text → ℕ
parse_revision s =
    if some_of is_digit s && leb (number_from 0 s) max_int
    then number_from 0 s
    else letter_revision s

pub data Kind : Type 0 where
  region language revision disc proto demo unlicensed aftermarket pirate bios bad verified other :
      Kind

abbrev paren_kind : Text → Kind
paren_kind tok =
    if is_region_token tok
    then Kind.region
    else if is_language tok
    then Kind.language
    else if not (is_none (revision_text tok))
    then Kind.revision
    else if not (is_none (disc_text tok))
    then Kind.disc
    else if is_proto_token tok
    then Kind.proto
    else if has_prefix tok (codes "Demo")
    then Kind.demo
    else if text_eq tok (codes "Unl")
    then Kind.unlicensed
    else if text_eq tok (codes "Aftermarket")
    then Kind.aftermarket
    else if text_eq tok (codes "Pirate")
    then Kind.pirate
    else Kind.other

abbrev bracket_kind : Text → Kind
bracket_kind tok =
    if equal_fold tok (codes "BIOS")
    then Kind.bios
    else if is_bad_token tok
    then Kind.bad
    else if text_eq tok (codes "!")
    then Kind.verified
    else Kind.other

-- The kind of a token, trimmed.
unfoldable pub kind_of : Bool → Text → Kind
kind_of true t = paren_kind (trim_space t)
kind_of false t = bracket_kind (trim_space t)

abbrev or_nothing : Option Text → Text
or_nothing none = []
or_nothing (some s) = s

abbrev set_total : Text → ReleaseAttrs → ReleaseAttrs
set_total t a = if is_empty t then a else record a { disc_total = atoi t }

abbrev set_disc : Option (Text × Text) → ReleaseAttrs → ReleaseAttrs
set_disc none a = a
set_disc (some (i, t)) a = set_total t (record a { disc_index = atoi i })

abbrev language_fields : Text → List Text
language_fields tok =
    map trim_space (keep (λ w. not (is_empty w)) (split_at (λ c. c == b',' || c == b'+') tok))

-- What a token of a kind adds to the attributes.
unfoldable pub note : Kind → Text → ReleaseAttrs → ReleaseAttrs
note Kind.region tok a = record a {
  regions = a.regions ++ map (λ r. to_lower (trim_space r)) (split_commas tok);
}
note Kind.language tok a = record a { languages = a.languages ++ language_fields tok }
note Kind.revision tok a = record a { revision = parse_revision (or_nothing (revision_text tok)) }
note Kind.disc tok a = set_disc (disc_text tok) a
note Kind.proto tok a = record a { is_proto = true }
note Kind.demo tok a = record a { is_demo = true }
note Kind.unlicensed tok a = record a { is_unlicensed = true }
note Kind.aftermarket tok a = record a { is_aftermarket = true }
note Kind.pirate tok a = record a { is_pirate = true }
note Kind.bios tok a = record a { is_bios = true }
note Kind.bad tok a = record a { bad_dump = true }
note Kind.verified tok a = record a { verified_dump = true }
note Kind.other tok a = a

unfoldable pub note_all : List Piece → ReleaseAttrs → ReleaseAttrs
note_all [] a = a
note_all (plain c ∷ ps) a = note_all ps a
note_all (token paren t ∷ ps) a = note_all ps (note (kind_of paren t) (trim_space t) a)

abbrev is_other : Kind → Bool
is_other Kind.other = true
is_other _ = false

abbrev pub is_classified : Bool → Text → Bool
is_classified paren t = not (is_other (kind_of paren t))

-- A disc token that no earlier case of the switch takes.
abbrev pub is_disc_kind : Bool → Text → Bool
is_disc_kind paren t = elim (kind_of paren t) [ Kind.disc ↦ true | _ ↦ false ]

abbrev pub no_attrs : ReleaseAttrs
no_attrs = record {
  clean_title = [];
  set_key = [];
  regions = [];
  languages = [];
  revision = 0;
  disc_index = 0;
  disc_total = 0;
  is_proto = false;
  is_demo = false;
  is_bios = false;
  is_unlicensed = false;
  is_aftermarket = false;
  is_pirate = false;
  bad_dump = false;
  verified_dump = false;
  format_hint = [];
}

unfoldable pub parse : Text → ReleaseAttrs
parse title =
    let ps = pieces (stem title) in
    record (note_all ps no_attrs) {
      format_hint = format_hint_of (trailing_extension (trim_space title));
      clean_title = collapse_spaces (remove_spans is_classified ps);
      set_key = to_lower (collapse_spaces (remove_spans is_disc_kind ps));
    }

-- `StripDiscToken`
unfoldable pub strip_disc_token : Text → Text
strip_disc_token title = collapse_spaces (
    remove_spans (λ paren t. paren && not (is_none (disc_text (trim_space t))))
      (pieces (stem title)))
