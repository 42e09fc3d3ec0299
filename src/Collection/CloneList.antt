-- ===== src/Collection/CloneList.antt =====
-- internal/collection/clonelist.go: a clone list, its index by term, and the match of a dump. A list
-- is taken as its JSON decodes.
pub mod Laws
pub mod Longest
pub mod Tests
use romarr.Base.{
  ℕ, suc, Bool, true, false, ◌||◌, Option, none, some, List, [], ◌∷◌, ◌++◌, if◌then◌else◌, any, ltb,
  ◌==◌, is_none,
}
use romarr.Base.Int.{ℤ, pos, negsuc}
use romarr.Base.Text.{Text, codes, is_empty, to_lower, trim_space, equal_fold}
use romarr.Base.Dict.{lookup, insert, text_key}
use romarr.Base.Sort.{stable_sort}
use romarr.Selection.Name.{up_to, text_length, bare_title}
use romarr.Selection.Name.Tokens.{parse}
use romarr.Collection.Build.{Hit}

-- A title and a group as the JSON decodes.
pub record RawTitle : Type 0 where
  pub search_term : Text
  pub priority : ℤ

pub record RawGroup : Type 0 where
  pub group : Text
  pub categories : List Text
  pub titles : List RawTitle

pub record RawList : Type 0 where
  pub name : Text
  pub last_updated : Text
  pub variants : List RawGroup

pub record CloneTitle : Type 0 where
  pub search_term : Text
  pub priority : ℕ

pub record CloneGroup : Type 0 where
  pub name : Text
  pub categories : List Text
  pub titles : List CloneTitle

pub record CloneList : Type 0 where
  pub name : Text
  pub last_updated : Text
  pub groups : List CloneGroup

abbrev pub priority_of : ℤ → ℕ
priority_of (pos n) = if n == 0 then 1 else n
priority_of (negsuc n) = 1

-- A blank term is left out.
unfoldable pub usable_titles : List RawTitle → List CloneTitle
usable_titles [] = []
usable_titles (t ∷ ts) =
    let rest = usable_titles ts in
    if is_empty (trim_space t.search_term)
    then rest
    else record { search_term = trim_space t.search_term; priority = priority_of t.priority } ∷ rest

abbrev pub is_nil {ℓ} : {A : Type ℓ} → List A → Bool
is_nil [] = true
is_nil (x ∷ xs) = false

unfoldable pub usable_groups : List RawGroup → List CloneGroup
unfolding usable_titles
usable_groups [] = []
usable_groups (g ∷ gs) =
    let rest = usable_groups gs in
    if is_empty (trim_space g.group) || is_nil (usable_titles g.titles)
    then rest
    else record {
      name = trim_space g.group;
      categories = g.categories;
      titles = usable_titles g.titles;
    }
      ∷ rest

pub data Parsed : Type 0 where
  failed : Text → Parsed
  parsed : CloneList → Parsed

-- `ParseCloneList` of decoded JSON
unfoldable pub parse_clone_list : RawList → Parsed
unfolding usable_groups
parse_clone_list raw =
    if is_nil raw.variants
    then failed (codes "clone list has no variant groups")
    else if is_nil (usable_groups raw.variants)
    then failed (codes "clone list has no usable groups")
    else parsed (record {
      name = raw.name;
      last_updated = raw.last_updated;
      groups = usable_groups raw.variants;
    })

abbrev pub Terms : Type 0
Terms = List (Text × Hit)

-- The first group that claims a term keeps it.
abbrev pub index_title : CloneGroup → CloneTitle → Terms → Terms
index_title g t terms =
    if is_none (lookup (to_lower t.search_term) terms)
    then insert (to_lower t.search_term)
        (record { group = g.name; categories = g.categories; priority = t.priority }) terms
    else terms

unfoldable pub index_titles : CloneGroup → List CloneTitle → Terms → Terms
index_titles g [] terms = terms
index_titles g (t ∷ ts) terms = index_titles g ts (index_title g t terms)

unfoldable pub index_groups : List CloneGroup → Terms → Terms
unfolding index_titles
index_groups [] terms = terms
index_groups (g ∷ gs) terms = index_groups gs (index_titles g g.titles terms)

-- `NewOverlay`
unfoldable pub new_overlay : CloneList → Terms
unfolding index_groups
new_overlay list = index_groups list.groups []

-- What each `(...)` of a name encloses, leftmost first; the number is of the characters to skip.
unfoldable pub parens_from : ℕ → Text → List Text
parens_from skip [] = []
parens_from (suc skip) (c ∷ s) = parens_from skip s
parens_from ℕ.zero (c ∷ s) = elim (if c == b'(' then up_to b')' s else none) [
  | none ↦ parens_from 0 s
  | some t ↦ t ∷ parens_from (suc (text_length t)) s
]

-- The candidates' `add`: no blank key, and none that is there in another case.
abbrev add_trimmed : Text → List Text → List Text
add_trimmed key keys =
    if is_empty key || any (λ have. equal_fold have key) keys then keys else keys ++ key ∷ []

abbrev pub add_key : Text → List Text → List Text
add_key k keys = add_trimmed (trim_space k) keys

unfoldable pub add_tokens : Text → List Text → List Text → List Text
add_tokens bare [] keys = keys
add_tokens bare (t ∷ ts) keys = add_tokens bare ts (
    if is_empty (trim_space t)
    then keys
    else add_key (bare ++ codes " (" ++ trim_space t ++ codes ")") keys)

abbrev pub longer : Text → Text → Bool
longer a b = ltb (text_length b) (text_length a)

abbrev pub keys_from : Text → Text → Text → List Text
keys_from name clean bare =
    let keys = add_key bare (add_key clean (add_key (trim_space name) [])) in
    stable_sort longer (if is_empty bare then keys else add_tokens bare (parens_from 0 clean) keys)

unfoldable pub candidate_keys : Text → List Text
unfolding parens_from add_tokens parse bare_title
candidate_keys name =
    keys_from name (trim_space (parse name).clean_title) (trim_space (bare_title name))

abbrev pub better_hit : Terms → Text → Option Hit × ℕ → Option Hit → Option Hit × ℕ
better_hit terms k (best, best_n) none = (best, best_n)
better_hit terms k (best, best_n) (some hit) =
    if ltb best_n (text_length k) then (some hit, text_length k) else (best, best_n)

unfoldable pub match_keys : Terms → List Text → Option Hit × ℕ → Option Hit × ℕ
match_keys terms [] best = best
match_keys terms (k ∷ ks) best =
    match_keys terms ks (better_hit terms k best (lookup (to_lower k) terms))

-- `Match` of a dump by its name
unfoldable pub overlay_match : Terms → Text → Option Hit
unfolding match_keys candidate_keys
overlay_match terms name =
    if is_nil terms then none else (match_keys terms (candidate_keys name) (none, 0)).0
