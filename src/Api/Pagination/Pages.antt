-- ===== src/Api/Pagination/Pages.antt =====
-- A client that follows the cursors of src/common/api/pagination.ts.
use mathlib.Core.Path.{subst}
use mathlib.Core.List.{append-nil, append_assoc}
use mealdirectbackend.Common.{
  ℕ, zero, suc, ◌<◌, ltb, ◌≡◌, refl, sym, ◌∙◌, ap, List, [], ◌∷◌, ◌++◌, true, false, Option, none,
  some, ok, String, str_eq, eq_iff, Json, Fields, obj, if◌then◌else◌, length, All, Bool-cases, inl,
  inr, arith, length-append,
}
use mealdirectbackend.Api.Pagination.{
  CursorPage, take, last, encode_cursor, decode_cursor, create_cursor_page,
}

-- A cursor is read back as it was written, where JSON and base64url are.
decode_cursor-encode :
    (stringify : Json → String) (parse : String → Option Json)
    (to_base64 from_base64 : String → String) (payload : Fields)
    → ((j : Json) → parse (stringify j) ≡ some j)
    → ((s : String) → from_base64 (to_base64 s) ≡ s)
    → decode_cursor parse from_base64 (encode_cursor stringify to_base64 payload) ≡ ok payload
unfolding decode_cursor encode_cursor
decode_cursor-encode stringify parse to_base64 from_base64 payload json base =
    rw (encode_cursor, decode_cursor, base (stringify (obj payload)), json (obj payload)) refl

module _ {A : Type 0} (cursor_for_item : A → String) where
  -- What the repositories select: the rows behind the one with the cursor, one more than the limit.
  unfoldable pub rows_after : Option String → List A → List A
  rows_after none rows = rows
  rows_after (some c) [] = []
  rows_after (some c) (x ∷ xs) =
      let rest = rows_after (some c) xs in if str_eq (cursor_for_item x) c then xs else rest

  unfoldable pub fetch_page : ℕ → List A → Option String → CursorPage A
  fetch_page limit rows cursor =
      create_cursor_page (take (suc limit) (rows_after cursor rows)) limit cursor_for_item

  -- The items of all pages, by following `nextCursor` as long as there is one.
  unfoldable pub walk_pages : ℕ → ℕ → List A → Option String → List A
  walk_pages zero limit rows cursor = []
  walk_pages (suc fuel) limit rows cursor =
      let page = fetch_page limit rows cursor in
      page.items
      ++ (elim page.next_cursor [ none ↦ [] | some c ↦ walk_pages fuel limit rows (some c) ])

  -- No two rows have the same cursor.
  abbrev pub AreDistinct : List A → Type 0
  AreDistinct [] = Unit
  AreDistinct (x ∷ xs) =
      All (λ y. str_eq (cursor_for_item x) (cursor_for_item y) ≡ false) xs × AreDistinct xs

  All-middle :
      (Q : A → Type 0) (pre : List A) (x : A) (post : List A) → All Q (pre ++ x ∷ post) → Q x
  All-middle Q [] x post (q, all) = q
  All-middle Q (y ∷ pre) x post (q, all) = All-middle Q pre x post all

  rows_after_item :
      (pre : List A) (x : A) (post : List A)
      → AreDistinct (pre ++ x ∷ post)
      → rows_after (some (cursor_for_item x)) (pre ++ x ∷ post) ≡ post
  unfolding rows_after
  rows_after_item [] x post distinct =
      rw ((eq_iff (cursor_for_item x) (cursor_for_item x)).1 refl) refl
  rows_after_item (y ∷ pre) x post (new, distinct) =
      rw (All-middle (λ z. str_eq (cursor_for_item y) (cursor_for_item z) ≡ false) pre x post new)
        (rows_after_item pre x post distinct)

  take-take : (n : ℕ) (xs : List A) → take n (take (suc n) xs) ≡ take n xs
  take-take zero xs = refl
  take-take (suc n) [] = refl
  take-take (suc n) (x ∷ xs) = ap (λ l. x ∷ l) (take-take n xs)

  more-take : (n : ℕ) (xs : List A) → ltb n (length (take (suc n) xs)) ≡ ltb n (length xs)
  more-take n [] = refl
  more-take zero (x ∷ xs) = ground arith
  more-take (suc n) (x ∷ xs) = ground (arith, more-take n xs)

  take_all : (n : ℕ) (xs : List A) → ltb n (length xs) ≡ false → take n xs ≡ xs
  take_all zero [] h = refl
  take_all zero (x ∷ xs) h = ground arith
  take_all (suc n) [] h = refl
  take_all (suc n) (x ∷ xs) h = ap (λ l. x ∷ l) (take_all n xs (ground arith))

  last-append : (xs : List A) (x : A) → last (xs ++ x ∷ []) ≡ some x
  last-append [] x = refl
  last-append (y ∷ []) x = refl
  last-append (y ∷ z ∷ xs) x = last-append (z ∷ xs) x

  -- A full page ends with a row, behind which the rest stands.
  take_split :
      (k : ℕ) (xs : List A)
      → ltb (suc k) (length xs) ≡ true
      → (pre : List A) × (x : A) × (post : List A) × (take (suc k) xs ≡ pre ++ x ∷ [])
        × (xs ≡ pre ++ x ∷ post)
  take_split k [] h = absurd (ground arith)
  take_split zero (x ∷ xs) h = ([], x, xs, refl, refl)
  take_split (suc k) (x ∷ xs) h =
      let (pre, y, post, page, split) = take_split k xs (ground arith) in
      (x ∷ pre, y, post, ap (λ l. x ∷ l) page, ap (λ l. x ∷ l) split)

  -- The last page, and one with more behind it.
  fetch_page_last :
      (n : ℕ) (rows rest : List A) (cursor : Option String)
      → rows_after cursor rows ≡ rest
      → ltb n (length rest) ≡ false
      → ((fetch_page n rows cursor).items ≡ rest) × ((fetch_page n rows cursor).next_cursor ≡ none)
  unfolding fetch_page create_cursor_page
  fetch_page_last n rows rest cursor here over =
      let shown = take-take n rest ∙ take_all n rest over in
      rw (here, shown, more-take n rest ∙ over) (refl, refl)

  fetch_page_more :
      (n : ℕ) (rows rest pre : List A) (x : A) (cursor : Option String)
      → rows_after cursor rows ≡ rest
      → ltb n (length rest) ≡ true
      → take n rest ≡ pre ++ x ∷ []
      → ((fetch_page n rows cursor).items ≡ pre ++ x ∷ [])
        × ((fetch_page n rows cursor).next_cursor ≡ some (cursor_for_item x))
  unfolding fetch_page create_cursor_page
  fetch_page_more n rows rest pre x cursor here more page =
      let shown = take-take n rest ∙ page in
      rw (here, shown, more-take n rest ∙ more, last-append pre x) (refl, refl)

  walk_pages_from :
      (fuel k : ℕ) (pre rest rows : List A) (cursor : Option String)
      → rows ≡ pre ++ rest
      → AreDistinct rows
      → rows_after cursor rows ≡ rest
      → length rest < fuel
      → walk_pages fuel (suc k) rows cursor ≡ rest
  unfolding walk_pages
  walk_pages_from zero k pre rest rows cursor split distinct here enough = absurd (omega arith)
  walk_pages_from (suc fuel) k pre rest rows cursor split distinct here enough =
      elim (Bool-cases (ltb (suc k) (length rest))) [
        | inr over ↦
            let (items, next) = fetch_page_last (suc k) rows rest cursor here over in
            rw (items, next) (append-nil rest)
        | inl more ↦
            let (p, x, post, page, parts) = take_split k rest more in
            let (items, next) = fetch_page_more (suc k) rows rest p x cursor here more page in
            let all : rows ≡ (pre ++ p) ++ x ∷ post =
              split ∙ ap (λ l. pre ++ l) parts ∙ sym (append_assoc pre p (x ∷ post)) in
            let behind : rows_after (some (cursor_for_item x)) rows ≡ post =
              ap (rows_after (some (cursor_for_item x))) all
              ∙ rows_after_item (pre ++ p) x post (subst AreDistinct all distinct) in
            let fewer : length post < fuel =
              omega (arith, ap length parts, length-append p (x ∷ post)) in
            let later =
              walk_pages_from fuel k ((pre ++ p) ++ x ∷ []) post rows (some (cursor_for_item x))
                (all ∙ sym (append_assoc (pre ++ p) (x ∷ []) post)) distinct behind fewer in
            rw (items, next, later) (append_assoc p (x ∷ []) post ∙ sym parts)
      ]

  -- With a limit of at least one, and where no two rows have the same cursor, a client that follows the
  -- cursors from the first page is given every row exactly once, in order; one page more than there are
  -- rows is enough.
  pub walk_pages-eq :
      (k : ℕ) (rows : List A)
      → AreDistinct rows
      → walk_pages (suc (length rows)) (suc k) rows none ≡ rows
  unfolding rows_after
  walk_pages-eq k rows distinct =
      walk_pages_from (suc (length rows)) k [] rows rows none refl distinct refl (omega arith)
