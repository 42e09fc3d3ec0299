-- ===== src/Selection/Name/Tests.antt =====
-- internal/selection/relname.go: names parsed, and the examples of the theorems.
use romarr.Base.{◌≡◌, refl, true, false, [], ◌∷◌, any, keep, arith}
use romarr.Base.Text.{
  codes, to_lower, decimal, digits, has_prefix, equal_fold, split_at, split_from, split_commas,
  trim_space,
}
use romarr.Selection.Name.{
  pieces, pieces_from, stem, trailing_extension, fields, remove_spans, up_to, collapse_spaces,
  bare_title,
}
use romarr.Selection.Name.Tokens.{
  parse, strip_disc_token, parse_revision, note, note_all, kind_of, is_region_token, is_language,
  revision_text, disc_text, is_proto_token, is_bad_token, number_from, atoi,
}
use romarr.Selection.Name.Bare.{is_token, bare_title-plain}
use romarr.Selection.Name.Discs.{disc_name, parse-disc_name}

bare_title-plain_example : any is_token (pieces (bare_title (codes "Dig (USA) (SGB).gb"))) ≡ false
bare_title-plain_example = bare_title-plain (codes "Dig (USA) (SGB).gb")

parse-disc_name_example :
    ((parse (disc_name (codes "Ace") 2)).disc_index ≡ 2)
    × ((parse (disc_name (codes "Ace") 2)).set_key ≡ to_lower (collapse_spaces (codes "Ace")))
    × (strip_disc_token (disc_name (codes "Ace") 2) ≡ collapse_spaces (codes "Ace"))
parse-disc_name_example = parse-disc_name b'A' (codes "ce") 2 refl refl refl (omega arith)

program : Unit {0}
unfolding parse bare_title strip_disc_token decimal digits pieces pieces_from stem
    trailing_extension collapse_spaces fields split_at split_from keep remove_spans up_to trim_space
    to_lower has_prefix note_all note kind_of is_region_token split_commas is_language revision_text
    disc_text is_proto_token is_bad_token equal_fold parse_revision number_from atoi
program = tt

parsed-game : (parse (codes "Dig Dug (USA, Europe) (Rev A).nes")).clean_title ≡ codes "Dig Dug"
unfolding program
parsed-game = refl

parsed-regions :
    (parse (codes "Dig Dug (USA, Europe) (Rev A).nes")).regions ≡ codes "usa" ∷ codes "europe" ∷ []
unfolding program
parsed-regions = refl

parsed-revision : (parse (codes "Dig Dug (USA, Europe) (Rev A).nes")).revision ≡ 1
unfolding program
parsed-revision = refl

parsed-disc : (parse (codes "Ace (Disc 2 of 3).CHD")).disc_total ≡ 3
unfolding program
parsed-disc = refl

parsed-set_key : (parse (codes "Ace (USA) (Disc 2 of 3).CHD")).set_key ≡ codes "ace (usa)"
unfolding program
parsed-set_key = refl

parsed-bad : (parse (codes "Ace [b2]")).bad_dump ≡ true
unfolding program
parsed-bad = refl
