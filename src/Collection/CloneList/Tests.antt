-- ===== src/Collection/CloneList/Tests.antt =====
-- internal/collection/clonelist.go: a list with two readings of one name, and the examples of the theorems.
use romarr.Base.{◌≡◌, refl, some, [], ◌∷◌, keep}
use romarr.Base.Int.{pos, negsuc}
use romarr.Base.Text.{
  codes, to_lower, trim_space, equal_fold, has_prefix, split_at, split_from, split_commas,
}
use romarr.Base.Dict.{lookup, insert, text_key}
use romarr.Base.Sort.{stable_sort}
use romarr.Selection.Name.{
  up_to, pieces, pieces_from, stem, trailing_extension, fields, remove_spans, collapse_spaces,
  bare_title,
}
use romarr.Selection.Name.Tokens.{
  parse, note, note_all, kind_of, is_region_token, is_language, revision_text, disc_text,
  is_proto_token, is_bad_token,
}
use romarr.Selection.Name.Ownership.{ownership_keys}
use romarr.Collection.CloneList.{
  RawList, CloneList, usable_titles, usable_groups, parsed, parse_clone_list, index_titles,
  index_groups, new_overlay, parens_from, add_tokens, candidate_keys, match_keys, overlay_match,
}
use romarr.Collection.CloneList.Laws.{first_group, new_overlay-first}
use romarr.Collection.CloneList.Longest.{IsLongest, overlay_match-IsLongest}

abbrev raw : RawList
raw = record {
  name = codes "NES";
  last_updated = [];
  variants =
      record {
        group = codes "1942";
        categories = [];
        titles = record { search_term = codes " 1942"; priority = pos 0 } ∷ [];
      }
      ∷ record {
        group = codes "1942 X";
        categories = [];
        titles =
            record { search_term = codes "1942 (Extended)"; priority = negsuc 3 }
            ∷ record { search_term = codes "1942"; priority = pos 2 }
            ∷ [];
      }
      ∷ record { group = codes "blank"; categories = []; titles = [] }
      ∷ [];
}

abbrev list : CloneList
list = record {
  name = codes "NES";
  last_updated = [];
  groups =
      record {
        name = codes "1942";
        categories = [];
        titles = record { search_term = codes "1942"; priority = 1 } ∷ [];
      }
      ∷ record {
        name = codes "1942 X";
        categories = [];
        titles =
            record { search_term = codes "1942 (Extended)"; priority = 1 }
            ∷ record { search_term = codes "1942"; priority = 2 }
            ∷ [];
      }
      ∷ [];
}

program : Unit {0}
unfolding parse bare_title pieces pieces_from stem trailing_extension collapse_spaces fields
    split_at split_from keep remove_spans up_to trim_space to_lower has_prefix note_all note kind_of
    is_region_token split_commas is_language revision_text disc_text is_proto_token is_bad_token
    equal_fold lookup insert stable_sort ownership_keys usable_titles usable_groups parse_clone_list
    index_titles index_groups new_overlay parens_from add_tokens candidate_keys match_keys
    overlay_match
program = tt

parsed_list : parse_clone_list raw ≡ parsed list
unfolding program
parsed_list = refl

-- The more specific term wins over the one that the first group claims.
matched :
    overlay_match (new_overlay list) (codes "1942 (USA) (Extended).nes")
    ≡ some (record { group = codes "1942 X"; categories = []; priority = 1 })
unfolding program
matched = refl

plain_match :
    overlay_match (new_overlay list) (codes "1942 (Japan).nes")
    ≡ some (record { group = codes "1942"; categories = []; priority = 1 })
unfolding program
plain_match = refl

keys : ownership_keys (codes "Ace (USA) (Demo X)") ≡ codes "ace (usa) (demo x)" ∷ codes "ace" ∷ []
unfolding program
keys = refl

new_overlay-first_example :
    lookup (codes "1942") (new_overlay list) ≡ first_group (codes "1942") list.groups
new_overlay-first_example = new_overlay-first list (codes "1942")

overlay_match-IsLongest_example :
    IsLongest
      (new_overlay list)
      (candidate_keys (codes "1942 (USA) (Extended).nes"))
      (overlay_match (new_overlay list) (codes "1942 (USA) (Extended).nes"))
overlay_match-IsLongest_example =
    overlay_match-IsLongest (new_overlay list) (codes "1942 (USA) (Extended).nes")
