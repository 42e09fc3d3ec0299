-- ===== src/Collection/Reconcile.antt =====
-- internal/collection/reconcile.go: ownership attached to every dump, and the status of each group.
-- The library is the interface `Index`, three functions. `ownership_keys` stands for
-- selection.OwnershipKeys, which parses release names. The groups that the source annotates in
-- place are returned.
pub mod Claims
pub mod Sound
pub mod Summary
pub mod Tests
use romarr.Base.{
  ℕ, zero, suc, ◌+◌, Bool, true, false, not, ◌&&◌, Option, none, some, List, [], ◌∷◌, ◌++◌, ◌==◌,
  if◌then◌else◌, length, map, is_none, any, keep, ltb, All, ◌≡◌,
}
use romarr.Base.Int.{ℤ, pos, negsuc, eqb_ℤ}
use romarr.Base.Text.{Text, is_empty, to_lower}
use romarr.Collection.Model.{
  Rom, Member, Tier, hash, name, title, Match, Candidate, Group, get_elem?, set, keeper_of,
}

pub record Index : Type 0 where
  pub by_hash : Text → Text → Option Match
  pub by_name : Text → Option Match
  pub by_title : List Text → Option Match

pub data Status : Type 0 where
  owned covered gap out : Status

pub record Entry : Type 0 where
  pub group : Group
  pub status : Status
  pub surplus : List Candidate

-- `0, 1, ...` below `n`, from `i` on
unfoldable pub indices : ℕ → ℕ → List ℕ
indices i zero = []
indices i (suc n) = i ∷ indices (suc i) n

abbrev keeper_first : ℤ → ℕ → List ℕ
keeper_first (pos k) n = if ltb k n then k ∷ [] else []
keeper_first (negsuc k) n = []

-- The keeper's index first, then the others.
unfoldable pub member_order : Group → List ℕ
unfolding indices
member_order g =
    keeper_first g.keeper_index (length g.members)
    ++ keep (λ i. not (eqb_ℤ (pos i) g.keeper_index)) (indices 0 (length g.members))

-- The first answer of a list of questions.
abbrev first_answer {ℓ} : {A : Type ℓ} → (A → Option Match) → List A → Option Match
first_answer ask [] = none
first_answer ask (a ∷ as') =
    let rest = first_answer ask as' in elim (ask a) [ none ↦ rest | some m ↦ some m ]

abbrev by_rom : Index → Rom → Option Match
by_rom idx r =
    if is_empty r.md5 && is_empty r.sha1
    then none
    else idx.by_hash (to_lower r.md5) (to_lower r.sha1)

abbrev pub is_claimed : List ℕ → ℕ → Bool
is_claimed claimed id = any (λ j. j == id) claimed

-- What one dump's turn leaves: the files claimed, and the dump.
abbrev take_answer : Tier → Option Match → List ℕ → Candidate → List ℕ × Candidate
take_answer tier none claimed c = (claimed, c)
take_answer tier (some m) claimed c =
    if is_claimed claimed m.library_id
    then (claimed, c)
    else (m.library_id ∷ claimed, record c { owned = some (record m { matched_by = some tier }) })

abbrev pub has_file : Candidate → Bool
has_file c = not (is_none c.owned)

unfoldable pub any_eligible_owned : Group → Bool
any_eligible_owned g = any (λ c. not c.excluded && not c.keeper && has_file c) g.members

abbrev status_of : Group → Option Candidate → Status
status_of g none = out
status_of g (some keeper) =
    if has_file keeper then owned else if any_eligible_owned g then covered else gap

unfoldable pub entry_of : Group → Entry
entry_of g = record {
  group = g;
  status = status_of g (keeper_of g);
  surplus = keep (λ c. has_file c && not c.keeper) g.members;
}

module _ (ownership_keys : Text → List Text) where
  abbrev ask_tier : Member → Index → Tier → Option Match
  ask_tier m idx hash = first_answer (by_rom idx) m.roms
  ask_tier m idx name = first_answer idx.by_name (m.name ∷ map (λ r. r.name) m.roms)
  ask_tier m idx title = idx.by_title (ownership_keys m.name)

  unfoldable pub lookup_tier : Member → Option Index → Tier → Option Match
  lookup_tier m none tier = none
  lookup_tier m (some idx) tier = ask_tier m idx tier

  unfoldable pub claim : Option Index → Tier → List ℕ → Candidate → List ℕ × Candidate
  claim idx tier claimed c =
      if is_none c.owned
      then take_answer tier (lookup_tier c.member idx tier) claimed c
      else (claimed, c)

  abbrev claim_found :
      Option Index → Tier → ℕ → Option Candidate → List ℕ × List Candidate → List ℕ × List Candidate
  claim_found idx tier i none state = state
  claim_found idx tier i (some c) (claimed, members) =
      let turn = claim idx tier claimed c in (turn.0, set members i turn.1)

  unfoldable pub claim_members :
      Option Index → Tier → List ℕ → List ℕ × List Candidate → List ℕ × List Candidate
  claim_members idx tier [] state = state
  claim_members idx tier (i ∷ order) state =
      claim_members idx tier order (claim_found idx tier i (get_elem? state.1 i) state)

  -- One tier's pass over the groups.
  unfoldable pub claim_groups : Option Index → Tier → List ℕ → List Group → List ℕ × List Group
  claim_groups idx tier claimed [] = (claimed, [])
  claim_groups idx tier claimed (g ∷ groups) =
      let here = claim_members idx tier (member_order g) (claimed, g.members) in
      let rest = claim_groups idx tier here.0 groups in
      (rest.0, record g { members = here.1 } ∷ rest.1)

  unfoldable pub claim_tiers : Option Index → List Tier → List ℕ × List Group → List ℕ × List Group
  unfolding claim_groups
  claim_tiers idx [] state = state
  claim_tiers idx (tier ∷ tiers) state =
      claim_tiers idx tiers (claim_groups idx tier state.0 state.1)

  unfoldable pub reconcile : List Group → Option Index → List Entry
  unfolding claim_tiers entry_of
  reconcile groups idx = map entry_of (claim_tiers idx (hash ∷ name ∷ title ∷ []) ([], groups)).1

-- No dump of the groups has a file yet.
abbrev pub Unowned : List Group → Type 0
Unowned = All (λ g. All (λ (c : Candidate). c.owned ≡ none) g.members)

abbrev is_gap : Status → Bool
is_gap gap = true
is_gap _ = false

unfoldable pub gaps : List Entry → List Entry
gaps entries = keep (λ e. is_gap e.status) entries

pub record Counts : Type 0 where
  pub groups : ℕ
  pub owned : ℕ
  pub covered : ℕ
  pub gaps : ℕ
  pub out : ℕ
  pub out_on_disk : ℕ
  pub surplus : ℕ

abbrev count_status : Entry → Status → Counts → Counts
count_status e owned c = record c { groups = c.groups + 1; owned = c.owned + 1 }
count_status e covered c = record c { groups = c.groups + 1; covered = c.covered + 1 }
count_status e gap c = record c { groups = c.groups + 1; gaps = c.gaps + 1 }
count_status e out c = record c {
  out = c.out + 1;
  out_on_disk =
      if any (λ m. not (is_none m.owned)) e.group.members then c.out_on_disk + 1 else c.out_on_disk;
}

abbrev count_entry : Entry → Counts → Counts
count_entry e c =
    let c' = count_status e e.status c in record c' { surplus = c'.surplus + length e.surplus }

unfoldable pub summarise_from : Counts → List Entry → Counts
summarise_from c [] = c
summarise_from c (e ∷ entries) = summarise_from (count_entry e c) entries

abbrev pub no_counts : Counts
no_counts = record {
  groups = 0;
  owned = 0;
  covered = 0;
  gaps = 0;
  out = 0;
  out_on_disk = 0;
  surplus = 0;
}

unfoldable pub summarise : List Entry → Counts
unfolding summarise_from
summarise entries = summarise_from no_counts entries

-- The library ids of the members on disk.
unfoldable pub member_ids : List Candidate → List ℕ
member_ids [] = []
member_ids (c ∷ members) =
    let rest = member_ids members in elim c.owned [ none ↦ rest | some m ↦ m.library_id ∷ rest ]

unfoldable pub claimed_library_ids : List Entry → List ℕ
unfolding member_ids
claimed_library_ids [] = []
claimed_library_ids (e ∷ entries) = member_ids e.group.members ++ claimed_library_ids entries
