-- ===== src/Selection/Name/Ownership.antt =====
-- internal/selection/ownership.go: the keys that a title matches under.
use romarr.Base.{◌∷◌, List, [], ◌++◌, if◌then◌else◌, any, ◌||◌}
use romarr.Base.Text.{Text, is_empty, text_eq, to_lower, trim_space}
use romarr.Selection.Name.{bare_title}
use romarr.Selection.Name.Tokens.{parse}

-- A key that is empty or there already is not added.
abbrev add_lowered : Text → List Text → List Text
add_lowered key keys =
    if is_empty key || any (λ have. text_eq have key) keys then keys else keys ++ key ∷ []

abbrev pub add_key : Text → List Text → List Text
add_key title keys = add_lowered (to_lower (trim_space title)) keys

unfoldable pub ownership_keys : Text → List Text
unfolding parse bare_title
ownership_keys title =
    add_key (bare_title title) (add_key (parse title).clean_title (add_key title []))
