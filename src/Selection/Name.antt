-- ===== src/Selection/Name.antt =====
-- internal/selection/relname.go: the attributes that a release name encodes. The regular expressions
-- are functions on text; a span of the source is a piece of the name here.
pub mod Tokens
pub mod Bare
pub mod Digits
pub mod Scan
pub mod Discs
pub mod Ownership
pub mod Tests
use romarr.Base.{
  ℕ, zero, suc, Bool, true, false, not, Option, none, some, List, [], ◌∷◌, ◌++◌, if◌then◌else◌, any,
  ◌==◌, keep, reverse,
}
use romarr.Base.Text.{
  Text, codes, is_empty, text_eq, to_lower, trim_space, has_prefix, split_at, is_space,
}

-- A character of the name, or a `(...)` (true) or `[...]` token with what it encloses.
pub data Piece : Type 0 where
  plain : ℕ → Piece
  token : Bool → Text → Piece

-- The text up to the first `close`, if there is one.
unfoldable pub up_to : ℕ → Text → Option Text
up_to close [] = none
up_to close (c ∷ s) =
    let rest = up_to close s in
    if c == close then some [] else elim rest [ none ↦ none | some t ↦ some (c ∷ t) ]

abbrev pub token_at : ℕ → Text → Option (Bool × Text)
token_at c s =
    if c == b'('
    then elim (up_to b')' s) [ none ↦ none | some t ↦ some (true, t) ]
    else if c == b'['
    then elim (up_to b']' s) [ none ↦ none | some t ↦ some (false, t) ]
    else none

abbrev pub text_length : Text → ℕ
text_length [] = 0
text_length (c ∷ s) = suc (text_length s)

-- `tokenRe` over the name, leftmost first; the number is of the characters still to skip, which
-- the last token took.
unfoldable pub pieces_from : ℕ → Text → List Piece
pieces_from skip [] = []
pieces_from (suc skip) (c ∷ s) = pieces_from skip s
pieces_from zero (c ∷ s) = elim (token_at c s) [
  | none ↦ plain c ∷ pieces_from zero s
  | some (paren, t) ↦ token paren t ∷ pieces_from (suc (text_length t)) s
]

unfoldable pub pieces : Text → List Piece
unfolding pieces_from
pieces name = pieces_from zero name

abbrev pub piece_text : Piece → Text
piece_text (plain c) = c ∷ []
piece_text (token true t) = b'(' ∷ t ++ b')' ∷ []
piece_text (token false t) = b'[' ∷ t ++ b']' ∷ []

-- `removeSpans`: the name without the tokens that pass a test.
unfoldable pub remove_spans : (Bool → Text → Bool) → List Piece → Text
remove_spans test [] = []
remove_spans test (plain c ∷ ps) = c ∷ remove_spans test ps
remove_spans test (token paren t ∷ ps) =
    let rest = remove_spans test ps in
    if test paren t then rest else piece_text (token paren t) ++ rest

-- `strings.Fields`
unfoldable pub fields : Text → List Text
fields s = keep (λ w. not (is_empty w)) (split_at is_space s)

abbrev pub join_spaces : List Text → Text
join_spaces [] = []
join_spaces (w ∷ []) = w
join_spaces (w ∷ v ∷ ws) = w ++ b' ' ∷ join_spaces (v ∷ ws)

unfoldable pub collapse_spaces : Text → Text
unfolding fields
collapse_spaces s = join_spaces (fields s)

abbrev pub has_suffix : Text → Text → Bool
has_suffix s t = has_prefix (reverse s) (reverse t)

abbrev pub known_extensions : List Text
known_extensions =
    codes ".chd"
    ∷ codes ".cue"
    ∷ codes ".bin"
    ∷ codes ".iso"
    ∷ codes ".gdi"
    ∷ codes ".cdi"
    ∷ codes ".zip"
    ∷ codes ".7z"
    ∷ codes ".rar"
    ∷ codes ".nes"
    ∷ codes ".sfc"
    ∷ codes ".smc"
    ∷ codes ".gb"
    ∷ codes ".gbc"
    ∷ codes ".gba"
    ∷ codes ".nds"
    ∷ codes ".3ds"
    ∷ codes ".cia"
    ∷ codes ".z64"
    ∷ codes ".n64"
    ∷ codes ".v64"
    ∷ codes ".md"
    ∷ codes ".gen"
    ∷ codes ".sms"
    ∷ codes ".gg"
    ∷ codes ".pce"
    ∷ codes ".a26"
    ∷ codes ".col"
    ∷ codes ".rom"
    ∷ codes ".wad"
    ∷ codes ".wbfs"
    ∷ codes ".rvz"
    ∷ codes ".gcz"
    ∷ codes ".gcm"
    ∷ codes ".nsp"
    ∷ codes ".nsz"
    ∷ codes ".xci"
    ∷ codes ".a78"
    ∷ codes ".a52"
    ∷ codes ".lnx"
    ∷ codes ".j64"
    ∷ codes ".vb"
    ∷ codes ".ws"
    ∷ codes ".wsc"
    ∷ codes ".ngp"
    ∷ codes ".ngc"
    ∷ codes ".32x"
    ∷ codes ".sg"
    ∷ codes ".pbp"
    ∷ codes ".cso"
    ∷ []

abbrev pub first_suffix : Text → List Text → Text
first_suffix lower [] = []
first_suffix lower (ext ∷ exts) =
    let rest = first_suffix lower exts in if has_suffix lower ext then ext else rest

-- `strings.ToLower(trailingExtension(name))`
unfoldable pub trailing_extension : Text → Text
trailing_extension name = first_suffix (to_lower name) known_extensions

abbrev pub drop : ℕ → Text → Text
drop zero s = s
drop (suc n) [] = []
drop (suc n) (c ∷ s) = drop n s

-- The trimmed name without its extension.
unfoldable pub stem : Text → Text
unfolding trailing_extension
stem title =
    let name = trim_space title in
    reverse (drop (text_length (trailing_extension name)) (reverse name))

abbrev pub format_hint_of : Text → Text
format_hint_of ext =
    if is_empty ext
    then []
    else if any (text_eq ext) (codes ".cue" ∷ codes ".bin" ∷ [])
    then codes "cue"
    else if text_eq ext (codes ".chd")
    then codes "chd"
    else if text_eq ext (codes ".iso")
    then codes "iso"
    else if text_eq ext (codes ".gdi")
    then codes "gdi"
    else if text_eq ext (codes ".zip")
    then codes "zip"
    else if text_eq ext (codes ".7z")
    then codes "7z"
    else codes "raw"

-- `BareTitle`
unfoldable pub bare_title : Text → Text
unfolding stem
bare_title title = collapse_spaces (remove_spans (λ paren t. true) (pieces (stem title)))
