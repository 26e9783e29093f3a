-- ===== src/Table.antt =====
-- A table of the database is the list of its rows; the queries of the services are read over it.
-- A WHERE clause is a Boolean test of a row, `updateMany` maps over the rows that pass it and
-- reports how many they are.
pub mod Laws
pub mod Paging
use docuai.Base.{leb, ℕ, ◌+◌, Bool, Option, none, some, List, [], ◌∷◌, ◌++◌, if◌then◌else◌}

module _ {ℓ} {A : Type ℓ} where
  -- `findFirst({ where })`, `findUnique({ where })`
  unfoldable pub find_first : (A → Bool) → List A → Option A
  find_first p [] = none
  find_first p (x ∷ xs) = if p x then some x else find_first p xs

  -- `count({ where })`
  unfoldable pub count_where : (A → Bool) → List A → ℕ
  count_where p [] = 0
  count_where p (x ∷ xs) = (if p x then 1 else 0) + count_where p xs

  -- `findMany({ where })`
  unfoldable pub find_many : (A → Bool) → List A → List A
  find_many p [] = []
  find_many p (x ∷ xs) = if p x then x ∷ find_many p xs else find_many p xs

  -- `updateMany({ where, data })`, without its count
  unfoldable pub update_many : (A → Bool) → (A → A) → List A → List A
  update_many p f [] = []
  update_many p f (x ∷ xs) = (if p x then f x else x) ∷ update_many p f xs

  -- `deleteMany({ where })`, without its count
  unfoldable pub delete_many : (A → Bool) → List A → List A
  delete_many p [] = []
  delete_many p (x ∷ xs) = if p x then delete_many p xs else x ∷ delete_many p xs

  -- `create({ data })`
  unfoldable pub insert_row : A → List A → List A
  insert_row x rows = rows ++ x ∷ []

  -- `orderBy: { key: 'asc' }`
  order_row : (A → ℕ) → A → List A → List A
  order_row key x [] = x ∷ []
  order_row key x (y ∷ ys) = if leb (key x) (key y) then x ∷ y ∷ ys else y ∷ order_row key x ys

  unfoldable pub order_by : (A → ℕ) → List A → List A
  unfolding order_row
  order_by key [] = []
  order_by key (x ∷ xs) = order_row key x (order_by key xs)
