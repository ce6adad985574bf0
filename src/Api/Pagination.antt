-- ===== src/Api/Pagination.antt =====
-- Pages of a list with a cursor: src/common/api/pagination.ts. `JSON.stringify`, `JSON.parse` (none if
-- it throws), base64url in both directions, and the integer part of a number that is finite and
-- positive (none for any other) are parameters.
pub mod Pages
use mealdirectbackend.Common.{
  ℕ, zero, suc, ltb, min, List, [], ◌∷◌, Bool, true, false, Option, none, some, Result, ok, err,
  String, Json, Fields, obj, Num, or_else, if◌then◌else◌, length, ◌&&◌,
}
use mealdirectbackend.Domain.PaymentEvents.{is_empty}

pub record CursorPaginationInput : Type 0 where
  pub cursor : Option String
  pub limit : Option Num

pub record NormalizedCursorPagination : Type 0 where
  pub cursor : Option String
  pub limit : ℕ

pub record CursorPage {ℓ} (A : Type ℓ) : Type ℓ where
  pub items : List A
  pub has_more : Bool
  pub limit : ℕ
  pub next_cursor : Option String

-- `new Error('Invalid cursor.')`
pub data CursorError : Type 0 where
  invalid_cursor : CursorError

abbrev pub default_cursor_limit : ℕ
default_cursor_limit = 20

abbrev pub max_cursor_limit : ℕ
max_cursor_limit = 100

abbrev pub take {ℓ} : {A : Type ℓ} → ℕ → List A → List A
take zero xs = []
take (suc n) [] = []
take (suc n) (x ∷ xs) = x ∷ take n xs

-- `items.at(-1)`
abbrev pub last {ℓ} : {A : Type ℓ} → List A → Option A
last [] = none
last (x ∷ []) = some x
last (x ∷ y ∷ xs) = last (y ∷ xs)

unfoldable pub normalize_cursor_pagination :
    (Num → Option ℕ) → CursorPaginationInput → NormalizedCursorPagination
normalize_cursor_pagination positive_part input = record {
  limit = elim input.limit [
    | none ↦ min default_cursor_limit max_cursor_limit
    | some requested ↦ elim (positive_part requested) [
      | none ↦ default_cursor_limit
      | some n ↦ min n max_cursor_limit
    ]
  ];
  cursor = elim input.cursor [ none ↦ none | some c ↦ if is_empty c then none else some c ];
}

unfoldable pub encode_cursor : (Json → String) → (String → String) → Fields → String
encode_cursor stringify to_base64 payload = to_base64 (stringify (obj payload))

unfoldable pub decode_cursor :
    (String → Option Json) → (String → String) → String → Result CursorError Fields
decode_cursor parse from_base64 cursor = elim (parse (from_base64 cursor)) [
  | none ↦ err invalid_cursor
  | some j ↦ elim j [ obj payload ↦ ok payload | _ ↦ err invalid_cursor ]
]

-- `hasMore && lastItem !== undefined ? { nextCursor: cursorForItem(lastItem) } : {}`
abbrev pub next_cursor_of {ℓ} : {A : Type ℓ} → (A → String) → Bool → Option A → Option String
next_cursor_of cursor_for_item true (some item) = some (cursor_for_item item)
next_cursor_of cursor_for_item true none = none
next_cursor_of cursor_for_item false item = none

unfoldable pub create_cursor_page {ℓ} : {A : Type ℓ} → List A → ℕ → (A → String) → CursorPage A
create_cursor_page rows limit cursor_for_item = record {
  items = take limit rows;
  has_more = ltb limit (length rows);
  limit = limit;
  next_cursor = next_cursor_of cursor_for_item (ltb limit (length rows)) (last (take limit rows));
}
