-- ===== src/Table/Laws.antt =====
-- Laws of the table queries: what a later read finds after a write.
use docuai.Base.{
  ◌&&◌, ◌≡◌, refl, sym, inl, inr, Bool, true, false, none, some, List, [], ◌∷◌, Memᴰ, arith,
  if◌then◌else◌, Bool-cases,
}
use docuai.Table.{count_where, find_first, find_many, update_many, delete_many, insert_row}

module _ {ℓ} {A : Type ℓ} where
  -- The row that a find returns passes the test and stands in the table.
  pub find_first-holds :
      (p : A → Bool) (xs : List A) (a : A) → find_first p xs ≡ some a → p a ≡ true
  unfolding find_first
  find_first-holds p [] a e = cc
  find_first-holds p (x ∷ xs) a e = elim (Bool-cases (p x)) [
    | inl h ↦ let same : x ≡ a = ground arith in rw (← same) h
    | inr h ↦ find_first-holds p xs a (rw h at e)
  ]

  pub find_first-Mem : (p : A → Bool) (xs : List A) (a : A) → find_first p xs ≡ some a → Memᴰ a xs
  unfolding find_first
  find_first-Mem p [] a e = absurd (cc)
  find_first-Mem p (x ∷ xs) a e = elim (Bool-cases (p x)) [
    | inl h ↦ let same : x ≡ a = ground arith in Memᴰ.head (sym same)
    | inr h ↦ Memᴰ.tail (find_first-Mem p xs a (rw h at e))
  ]

  -- A row that passes the test is a reason for a find to succeed.
  pub Mem-find_first :
      (p : A → Bool) (xs : List A) {a : A}
      → Memᴰ a xs
      → p a ≡ true
      → (b : A) × (find_first p xs ≡ some b)
  unfolding find_first
  Mem-find_first p [] m h = elim m [ ]
  Mem-find_first p (x ∷ xs) (Memᴰ.head e) h = (x, ground arith)
  Mem-find_first p (x ∷ xs) (Memᴰ.tail m) h = elim (Bool-cases (p x)) [
    | inl t ↦ (x, rw t)
    | inr f ↦ let (b, e) = Mem-find_first p xs m h in (b, rw f e)
  ]

  -- An update that keeps the outcome of the test of a later find is seen by that find.
  pub find_first-update_many :
      (p w : A → Bool) (f : A → A) (xs : List A)
      → ((x : A) → w x ≡ true → p (f x) ≡ p x)
      → find_first p (update_many w f xs)
        ≡ elim (find_first p xs) [ none ↦ none | some x ↦ some (if w x then f x else x) ]
  unfolding find_first update_many
  find_first-update_many p w f [] keeps = refl
  find_first-update_many p w f (x ∷ xs) keeps =
      ground (arith, keeps x, find_first-update_many p w f xs keeps)

  -- A new row at the end changes no find that succeeded, and is found by a test it alone passes.
  pub find_first-insert_row :
      (p : A → Bool) (a : A) (xs : List A)
      → find_first p (insert_row a xs)
        ≡ elim (find_first p xs) [ none ↦ if p a then some a else none | some x ↦ some x ]
  unfolding find_first insert_row
  find_first-insert_row p a [] = refl
  find_first-insert_row p a (x ∷ xs) = ground (arith, find_first-insert_row p a xs)

  -- Deleting rows that a find does not look for does not change it.
  pub find_first-delete_many :
      (p w : A → Bool) (xs : List A)
      → ((x : A) → w x ≡ true → p x ≡ false)
      → find_first p (delete_many w xs) ≡ find_first p xs
  unfolding find_first delete_many
  find_first-delete_many p w [] apart = refl
  find_first-delete_many p w (x ∷ xs) apart =
      ground (arith, apart x, find_first-delete_many p w xs apart)

  -- Nothing that passes the test of a delete is left.
  pub find_first-delete_many_self :
      (p : A → Bool) (xs : List A) → find_first p (delete_many p xs) ≡ none
  unfolding find_first delete_many
  find_first-delete_many_self p [] = refl
  find_first-delete_many_self p (x ∷ xs) = ground (arith, find_first-delete_many_self p xs)

  -- A stronger test finds nothing where a weaker one finds nothing.
  pub find_first-none :
      (p q : A → Bool) (xs : List A)
      → ((x : A) → q x ≡ true → p x ≡ true)
      → find_first p xs ≡ none
      → find_first q xs ≡ none
  unfolding find_first
  find_first-none p q [] weaker e = refl
  find_first-none p q (x ∷ xs) weaker e = ground (arith, weaker x, find_first-none p q xs weaker)

  count_where_zero :
      (p q : A → Bool) (xs : List A) → count_where p xs ≡ 0 → count_where (λ x. p x && q x) xs ≡ 0
  unfolding count_where
  count_where_zero p q [] e = refl
  count_where_zero p q (x ∷ xs) e = ground (arith, count_where_zero p q xs)

  -- Where one row passes a test, a further test of it decides the count.
  pub count_where_one :
      (p q : A → Bool) (xs : List A) {a : A}
      → count_where p xs ≡ 1
      → find_first p xs ≡ some a
      → count_where (λ x. p x && q x) xs ≡ (if q a then 1 else 0)
  unfolding count_where find_first
  count_where_one p q [] e f = absurd (omega arith)
  count_where_one p q (x ∷ xs) {a} e f = elim (Bool-cases (p x)) [
    | inl t ↦
        let same : x ≡ a = ground arith in
        let rest = count_where_zero p q xs (ground arith) in rw (t, rest, same) (ground arith)
    | inr o ↦ let ih = count_where_one p q xs {a = a} (ground arith) (ground arith) in ground arith
  ]

  pub count_where-update_many :
      (p w : A → Bool) (f : A → A) (xs : List A)
      → ((x : A) → p (f x) ≡ p x)
      → count_where p (update_many w f xs) ≡ count_where p xs
  unfolding count_where update_many
  count_where-update_many p w f [] keeps = refl
  count_where-update_many p w f (x ∷ xs) keeps =
      ground (arith, keeps x, count_where-update_many p w f xs keeps)

  -- A row of the table that passes the test is among those that `findMany` returns.
  pub Mem-find_many :
      (p : A → Bool) (xs : List A) {a : A} → Memᴰ a xs → p a ≡ true → Memᴰ a (find_many p xs)
  unfolding find_many
  Mem-find_many p [] m h = elim m [ ]
  Mem-find_many p (x ∷ xs) {a} (Memᴰ.head e) h =
      let t : p x ≡ true = rw (← e) h in rw t (Memᴰ.head e)
  Mem-find_many p (x ∷ xs) (Memᴰ.tail m) h = elim (Bool-cases (p x)) [
    | inl t ↦ rw t (Memᴰ.tail (Mem-find_many p xs m h))
    | inr f ↦ rw f (Mem-find_many p xs m h)
  ]

  -- A write to rows that a query does not look for leaves what it reads, as long as they stay so.
  pub find_many-update_many :
      (p w : A → Bool) (f : A → A) (xs : List A)
      → ((x : A) → Memᴰ x xs → w x ≡ true → p x ≡ false)
      → ((x : A) → p (f x) ≡ p x)
      → find_many p (update_many w f xs) ≡ find_many p xs
  unfolding find_many update_many
  find_many-update_many p w f [] apart keeps = refl
  find_many-update_many p w f (x ∷ xs) apart keeps = ground (
    arith,
    keeps x,
    apart x (Memᴰ.head refl),
    find_many-update_many p w f xs (λ y m. apart y (Memᴰ.tail m)) keeps,
  )

  pub find_many-insert_row :
      (p : A → Bool) (a : A) (xs : List A)
      → p a ≡ false
      → find_many p (insert_row a xs) ≡ find_many p xs
  unfolding find_many insert_row
  find_many-insert_row p a [] h = ground arith
  find_many-insert_row p a (x ∷ xs) h = ground (arith, find_many-insert_row p a xs h)

  pub find_many-delete_many :
      (p w : A → Bool) (xs : List A)
      → ((x : A) → w x ≡ true → p x ≡ false)
      → find_many p (delete_many w xs) ≡ find_many p xs
  unfolding find_many delete_many
  find_many-delete_many p w [] apart = refl
  find_many-delete_many p w (x ∷ xs) apart =
      ground (arith, apart x, find_many-delete_many p w xs apart)
