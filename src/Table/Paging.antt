-- ===== src/Table/Paging.antt =====
-- How the services read a list page by page: `skip: (page - 1) * limit, take: limit` over the rows in
-- an order that the database keeps, and `totalPages: Math.ceil(total / limit)`.
use native.Mathlib.Nat.{lt-div-mul-add, suc-mul}
use docuai.Table.{find_many, count_where}
use docuai.Base.{
  ℕ, zero, suc, ◌+◌, ◌-◌, ◌*◌, ◌/◌, ◌≤◌, ◌≡◌, refl, ◌∙◌, sym, ap, Bool, List, [], ◌∷◌, ◌++◌,
  if◌then◌else◌, take, drop, length, arith,
}

module _ {ℓ} {A : Type ℓ} where
  abbrev pub page_of : (page limit : ℕ) → List A → List A
  page_of page limit rows = take limit (drop ((page - 1) * limit) rows)

  -- `orderBy`, for the order in which the database compares two rows
  insert_ordered : (A → A → Bool) → A → List A → List A
  insert_ordered before x [] = x ∷ []
  insert_ordered before x (y ∷ ys) =
      let rest = insert_ordered before x ys in if before x y then x ∷ y ∷ ys else y ∷ rest

  unfoldable pub order_rows : (A → A → Bool) → List A → List A
  unfolding insert_ordered
  order_rows before [] = []
  order_rows before (x ∷ xs) = insert_ordered before x (order_rows before xs)

  -- The pages 1 to `n` behind each other.
  abbrev pub first_pages : (pages : ℕ → List A) → ℕ → List A
  first_pages pages zero = []
  first_pages pages (suc n) = first_pages pages n ++ pages (suc n)

  take_all : (n : ℕ) (xs : List A) → length xs ≤ n → take n xs ≡ xs
  take_all zero [] h = refl
  take_all zero (x ∷ xs) h = absurd (omega arith)
  take_all (suc n) [] h = refl
  take_all (suc n) (x ∷ xs) h = ap (λ t. x ∷ t) (take_all n xs (omega arith))

  take_some : (n : ℕ) {m : ℕ} (xs : List A) → m ≡ n → take m xs ≡ take n xs
  take_some n xs e = ap (λ k. take k xs) e

  take_nothing : (n : ℕ) → take {A = A} n [] ≡ []
  take_nothing zero = refl
  take_nothing (suc n) = refl

  take_add : (m n : ℕ) (xs : List A) → take (m + n) xs ≡ take m xs ++ take n (drop m xs)
  take_add zero n xs = take_some n xs (omega arith)
  take_add (suc m) n [] = take_nothing (suc m + n) ∙ sym (take_nothing n)
  take_add (suc m) n (x ∷ xs) =
      take_some (suc (m + n)) (x ∷ xs) (omega arith) ∙ ap (λ t. x ∷ t) (take_add m n xs)

  pages_take :
      (limit n : ℕ) (xs : List A) → first_pages (λ p. page_of p limit xs) n ≡ take (n * limit) xs
  pages_take limit zero xs = sym (take_some 0 xs (omega arith))
  pages_take limit (suc n) xs =
      ap (λ t. t ++ take limit (drop ((suc n - 1) * limit) xs)) (pages_take limit n xs)
      ∙ ap (λ k. take (n * limit) xs ++ take limit (drop (k * limit) xs))
          (let e : suc n - 1 ≡ n = omega arith in e)
      ∙ sym (take_add (n * limit) limit xs)
      ∙ sym (take_some (n * limit + limit) xs (suc-mul n limit))

abbrev pub total_pages : (total limit : ℕ) → ℕ
total_pages total limit = (total + limit - 1) / limit

total_pages_enough : (n limit : ℕ) → 1 ≤ limit → n ≤ total_pages n limit * limit
total_pages_enough n limit h =
    let bound = lt-div-mul-add {a = n + limit - 1} {b = limit} h in omega (arith, bound)

-- No row is lost or repeated from one page to the next.
pub first_pages-total_pages {ℓ} :
    {A : Type ℓ} (limit : ℕ) (xs : List A)
    → 1 ≤ limit
    → first_pages (λ p. page_of p limit xs) (total_pages (length xs) limit) ≡ xs
first_pages-total_pages limit xs h =
    pages_take limit (total_pages (length xs) limit) xs
    ∙ take_all (total_pages (length xs) limit * limit) xs (total_pages_enough (length xs) limit h)

length-insert_ordered {ℓ} :
    {A : Type ℓ} (before : A → A → Bool) (x : A) (xs : List A)
    → length (insert_ordered before x xs) ≡ length xs + 1
unfolding insert_ordered
length-insert_ordered before x [] = omega arith
length-insert_ordered before x (y ∷ ys) = ground (arith, length-insert_ordered before x ys)

length-order_rows {ℓ} :
    {A : Type ℓ} (before : A → A → Bool) (xs : List A) → length (order_rows before xs) ≡ length xs
unfolding order_rows
length-order_rows before [] = refl
length-order_rows before (x ∷ xs) =
    omega
      (arith, length-insert_ordered before x (order_rows before xs), length-order_rows before xs)

length-find_many {ℓ} :
    {A : Type ℓ} (p : A → Bool) (xs : List A) → length (find_many p xs) ≡ count_where p xs
unfolding find_many count_where
length-find_many p [] = refl
length-find_many p (x ∷ xs) = ground (arith, length-find_many p xs)

-- The pages of a filtered and ordered list, up to the last one by the count, are the whole list.
pub first_pages-ordered {ℓ} :
    {A : Type ℓ} (before : A → A → Bool) (p : A → Bool) (limit : ℕ) (xs : List A)
    → 1 ≤ limit
    → first_pages
        (λ n. page_of n limit (order_rows before (find_many p xs)))
        (total_pages (count_where p xs) limit)
      ≡ order_rows before (find_many p xs)
first_pages-ordered before p limit xs h =
    let rows = order_rows before (find_many p xs) in
    let all : length rows ≡ count_where p xs =
      length-order_rows before (find_many p xs) ∙ length-find_many p xs in
    ap (λ n. first_pages (λ n. page_of n limit rows) (total_pages n limit)) (sym all)
    ∙ first_pages-total_pages limit rows h

pub first_pages_ext {ℓ} :
    {A : Type ℓ} (f g : ℕ → List A) (n : ℕ)
    → ((p : ℕ) → f p ≡ g p)
    → first_pages f n ≡ first_pages g n
first_pages_ext f g zero same = refl
first_pages_ext f g (suc n) same =
    ap (λ t. t ++ f (suc n)) (first_pages_ext f g n same)
    ∙ ap (λ t. first_pages g n ++ t) (same (suc n))
