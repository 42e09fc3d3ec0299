-- ===== src/Prune/Runner/Pages.antt =====
-- The pages of a preview.
use romarr.Base.{
  ℕ, zero, suc, ◌+◌, ◌-◌, ◌*◌, ◌^◌, ◌≤◌, ◌<◌, Option, none, some, ◌≡◌, refl, ap, subst, ◌∙◌, sym,
  inl, inr, List, [], ◌∷◌, ◌++◌, length, leb, leb→le, Bool-cases, arith,
}
use romarr.Base.Int.{ℤ, pos, negsuc}
use romarr.Prune.Model.{PreviewRow}
use romarr.Prune.Runner.{take, drop, page_or, size_or, wrapped, cut, preview_page}

zero_plus : (m : ℕ) → m ≡ zero + m
zero_plus m = omega arith

suc_plus : (n m : ℕ) → suc (n + m) ≡ suc n + m
suc_plus n m = omega arith

suc_times : (n m : ℕ) → suc n * m ≡ n * m + m
suc_times n m = grind arith

module _ {ℓ} {A : Type ℓ} where
  length-take : (n : ℕ) (xs : List A) → length (take n xs) ≤ n
  length-take n [] = omega arith
  length-take zero (x ∷ xs) = omega arith
  length-take (suc n) (x ∷ xs) = omega (arith, length-take n xs)

  drop-past : (n : ℕ) (xs : List A) → length xs ≤ n → drop n xs ≡ []
  drop-past n [] h = refl
  drop-past zero (x ∷ xs) h = absurd (omega arith)
  drop-past (suc n) (x ∷ xs) h = drop-past n xs (omega (arith, h))

  take-drop : (n : ℕ) (xs : List A) → take n xs ++ drop n xs ≡ xs
  take-drop n [] = refl
  take-drop zero (x ∷ xs) = refl
  take-drop (suc n) (x ∷ xs) = ap (λ ys. x ∷ ys) (take-drop n xs)

  drop-drop : (m n : ℕ) (xs : List A) → drop m (drop n xs) ≡ drop (n + m) xs
  drop-drop m zero [] = refl
  drop-drop m (suc n) [] = refl
  drop-drop m zero (x ∷ xs) = ap (λ k. drop k (x ∷ xs)) (zero_plus m)
  drop-drop m (suc n) (x ∷ xs) = drop-drop m n xs ∙ ap (λ k. drop k (x ∷ xs)) (suc_plus n m)

and_then : List PreviewRow → Option (List PreviewRow) → Option (List PreviewRow)
and_then rows none = none
and_then rows (some more) = some (rows ++ more)

on_page : Option (List PreviewRow × ℕ) → Option (List PreviewRow) → Option (List PreviewRow)
unfolding and_then
on_page none later = none
on_page (some (rows, total)) later = and_then rows later

-- The pages `page`, `page + 1`, ... of a preview one after the other, `n` of them; nothing if one of
-- them panics.
pub pages : ℕ → ℕ → ℤ → List PreviewRow → Option (List PreviewRow)
unfolding on_page
pages zero page page_size rows = some []
pages (suc n) page page_size rows =
    let later = pages n (suc page) page_size rows in
    on_page (preview_page (pos page) page_size rows) later

size-le : (page_size : ℤ) → size_or page_size ≤ 500
size-le (pos n) = ground arith
size-le (negsuc n) = omega arith

size-pos : (page_size : ℤ) → 1 ≤ size_or page_size
size-pos (pos n) = ground arith
size-pos (negsuc n) = omega arith

-- The start of a page in range is not wrapped.
wrapped-small : (n : ℕ) → n < 2 ^ 63 → wrapped n ≡ pos n
wrapped-small n h = ground arith

page-rows :
    (page : ℕ) (page_size : ℤ) (rows : List PreviewRow)
    → page * size_or page_size < 2 ^ 63
    → preview_page (pos (suc page)) page_size rows
      ≡ some (take (size_or page_size) (drop (page * size_or page_size) rows), length rows)
unfolding preview_page
page-rows page page_size rows h =
    let size = size_or page_size in
    rw (first page, wrapped-small (page * size) h)
      (elim (Bool-cases (leb (length rows) (page * size))) [
        | inl e ↦ rw (e, drop-past (page * size) rows (leb→le _ _ e)) refl
        | inr e ↦ rw e refl
      ])
  where
    first : (page : ℕ) → page_or (pos (suc page)) - 1 ≡ page
    first page = ground arith

pages_from :
    (n page : ℕ) (page_size : ℤ) (rows : List PreviewRow)
    → length rows ≤ (n + page) * size_or page_size
    → (n + page) * size_or page_size ≤ 2 ^ 63
    → pages n (suc page) page_size rows ≡ some (drop (page * size_or page_size) rows)
unfolding pages on_page and_then
pages_from zero page page_size rows h fits = ap some (
    sym (
      drop-past (page * size_or page_size) rows
        (subst (λ k. length rows ≤ k * size_or page_size) (sym (zero_plus page)) h)))
pages_from (suc n) page page_size rows h fits =
    let size = size_or page_size in
    rw
      (
        page-rows page page_size rows (early n page size (size-pos page_size) fits),
        pages_from n (suc page) page_size rows (subst (λ k. length rows ≤ k * size) (turn n page) h)
            (subst (λ k. k * size ≤ 2 ^ 63) (turn n page) fits),
        suc_times page size,
        ← drop-drop size (page * size) rows,
      )
      (ap some (take-drop size (drop (page * size) rows)))
  where
    turn : (n page : ℕ) → suc n + page ≡ n + suc page
    turn n page = omega arith

    early : (n page size : ℕ) → 1 ≤ size → (suc n + page) * size ≤ 2 ^ 63 → page * size < 2 ^ 63
    early n page size p h = grind arith

-- A page that is shown has at most 500 rows, and with it goes the number of all rows.
abbrev pub IsPage : List PreviewRow → Option (List PreviewRow × ℕ) → Type 0
IsPage rows none = Unit
IsPage rows (some (shown, total)) = (length shown ≤ 500) × (total ≡ length rows)

cut-IsPage :
    (start : ℤ) (size : ℕ) (rows : List PreviewRow) → size ≤ 500 → IsPage rows (cut start size rows)
cut-IsPage (negsuc n) size rows h = tt
cut-IsPage (pos start) size rows h = elim (Bool-cases (leb (length rows) start)) [
  | inl e ↦ rw e (omega arith, refl)
  | inr e ↦ rw e (omega (arith, length-take size (drop start rows), h), refl)
]

-- As many pages of a preview as its rows need, from the first on, are shown without a panic and are
-- together its rows, where their number times the page size is at most 2 ^ 63; and every page that
-- is shown, whatever was asked for, has at most 500 rows and the number of all rows with it.
pub preview_page-cover :
    (n : ℕ) (page_size : ℤ) (rows : List PreviewRow)
    → length rows ≤ n * size_or page_size
    → n * size_or page_size ≤ 2 ^ 63
    → (pages n 1 page_size rows ≡ some rows)
      × ((page : ℤ) → IsPage rows (preview_page page page_size rows))
unfolding preview_page
preview_page-cover n page_size rows h fits = (
  pages_from n 0 page_size rows (subst (λ k. length rows ≤ k * size) (plus_zero n) h)
        (subst (λ k. k * size ≤ 2 ^ 63) (plus_zero n) fits)
      ∙ ap some (all size rows),
  λ page. cut-IsPage _ size rows (size-le page_size),
)
  where
    size : ℕ
    size = size_or page_size

    plus_zero : (n : ℕ) → n ≡ n + 0
    plus_zero n = omega arith

    zero_times : (m : ℕ) → 0 * m ≡ 0
    zero_times m = omega arith

    all : (m : ℕ) (rows : List PreviewRow) → drop (0 * m) rows ≡ rows
    all m [] = refl
    all m (row ∷ rows) = ap (λ k. drop k (row ∷ rows)) (zero_times m)
