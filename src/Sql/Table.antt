-- ===== src/Sql/Table.antt =====
-- A table with a text key: SELECT and UPDATE by a condition on the rows. The laws suppose that no
-- two rows share the key (PRIMARY KEY or UNIQUE), and then speak of the one row that is found.
use mathlib.Core.Option
use chain_sieve.Base.{
  ◌≡◌, refl, sym, ◌≢◌, Bool, ◌&&◌, Option, none, some, List, [], ◌∷◌, ◌++◌, arith, Text, same,
  same_iff, subst, if◌then◌else◌, find, select, any, every, not, true, false, ◌||◌,
}

module _ {ℓ} {R : Type ℓ} where
  -- UPDATE … SET f WHERE p
  unfoldable pub update_where : (R → Bool) → (R → R) → List R → List R
  update_where p f [] = []
  update_where p f (r ∷ rs) = (if p r then f r else r) ∷ update_where p f rs

module _ {ℓ} {R : Type ℓ} (key : R → Text) where
  -- SELECT … WHERE key = k
  unfoldable pub row : Text → List R → Option R
  row k = find (λ r. same (key r) k)

  -- no row has the key `k`
  abbrev pub Lacks : Text → List R → Type 0
  Lacks k [] = Unit
  Lacks k (r ∷ rs) = (key r ≢ k) × Lacks k rs

  -- no two rows share a key
  abbrev pub IsKeyed : List R → Type 0
  IsKeyed [] = Unit
  IsKeyed (r ∷ rs) = Lacks (key r) rs × IsKeyed rs

  pub row-Lacks : (k : Text) (rs : List R) → Lacks k rs → row k rs ≡ none
  unfolding row
  row-Lacks k [] h = refl
  row-Lacks k (r ∷ rs) h = ground (arith, same_iff (key r) k, row-Lacks k rs)

  pub Lacks-row : (k : Text) (rs : List R) → row k rs ≡ none → Lacks k rs
  unfolding row
  Lacks-row k [] h = tt
  Lacks-row k (r ∷ rs) h =
      ((λ e. ground (arith, same_iff (key r) k)), Lacks-row k rs (ground (arith)))

  pub row-key : (k : Text) (rs : List R) (r : R) → row k rs ≡ some r → key r ≡ k
  unfolding row
  row-key k [] r h = ground arith
  row-key k (s ∷ rs) r h = ground (arith, same_iff (key s) k, row-key k rs r)

  -- INSERT appends; the key was not there
  pub row-append :
      (k : Text) (rs : List R) (s : R)
      → row k (rs ++ s ∷ [])
        ≡ elim (row k rs) [ none ↦ if same (key s) k then some s else none | some r ↦ some r ]
  unfolding row
  row-append k [] s = refl
  row-append k (r ∷ rs) s = ground (arith, row-append k rs s)

  -- a condition that the row of the key does not meet
  pub every-unfit :
      (k : Text) (rs : List R) (r : R)
      → row k rs ≡ some r
      → every (λ q. not (same (key q) k) || false) rs ≡ false
  unfolding row
  every-unfit k [] r h = ground arith
  every-unfit k (q ∷ qs) r h = ground (arith, every-unfit k qs r)

  Lacks-append : (k : Text) (rs : List R) (s : R) → Lacks k rs → key s ≢ k → Lacks k (rs ++ s ∷ [])
  Lacks-append k [] s h n = (n, tt)
  Lacks-append k (r ∷ rs) s h n = (h.0, Lacks-append k rs s h.1 n)

  pub IsKeyed-append :
      (rs : List R) (s : R) → IsKeyed rs → Lacks (key s) rs → IsKeyed (rs ++ s ∷ [])
  IsKeyed-append [] s h l = (tt, tt)
  IsKeyed-append (r ∷ rs) s h l =
      (Lacks-append (key r) rs s h.0 (λ e. l.0 (sym e)), IsKeyed-append rs s h.1 l.1)

  -- RETURNING and SELECT by the key and a further condition: the row of that key, if it fits
  pub select-row :
      (k : Text) (p : R → Bool) (rs : List R)
      → IsKeyed rs
      → select (λ r. same (key r) k && p r) rs
        ≡ elim (row k rs) [ none ↦ [] | some r ↦ if p r then r ∷ [] else [] ]
  unfolding row
  select-row k p [] h = refl
  select-row k p (r ∷ rs) h = ground (
    arith,
    same_iff (key r) k,
    select-row k p rs,
    row-Lacks k rs,
    λ (e : key r ≡ k). subst (λ t. Lacks t rs) e h.0,
  )

module _ {ℓ} {R : Type ℓ} (key : R → Text) (f : R → R) (keeps : (r : R) → key (f r) ≡ key r) where
  pub row-update_where :
      (j k : Text) (p : R → Bool) (rs : List R)
      → row key j (update_where (λ r. same (key r) k && p r) f rs) ≡ (
          if same k j
          then Option.map (λ r. if p r then f r else r) (row key j rs)
          else row key j rs)
  unfolding row update_where
  row-update_where j k p [] = ground arith
  row-update_where j k p (r ∷ rs) = ground (
    arith,
    same_iff (key r) k,
    same_iff (key r) j,
    same_iff (key (f r)) j,
    same_iff k j,
    keeps r,
    row-update_where j k p rs,
  )

  -- the same with no further condition
  pub row-update_where-key :
      (j k : Text) (rs : List R)
      → row key j (update_where (λ r. same (key r) k) f rs)
        ≡ (if same k j then Option.map f (row key j rs) else row key j rs)
  unfolding row update_where
  row-update_where-key j k [] = ground arith
  row-update_where-key j k (r ∷ rs) = ground (
    arith,
    same_iff (key r) k,
    same_iff (key r) j,
    same_iff (key (f r)) j,
    same_iff k j,
    keeps r,
    row-update_where-key j k rs,
  )

  Lacks-update_where :
      (j : Text) (p : R → Bool) (rs : List R) → Lacks key j rs → Lacks key j (update_where p f rs)
  unfolding update_where
  Lacks-update_where j p [] h = tt
  Lacks-update_where j p (r ∷ rs) h =
      ((λ e. h.0 (ground (arith, keeps r))), Lacks-update_where j p rs h.1)

  key-update : (p : R → Bool) (r : R) → key (if p r then f r else r) ≡ key r
  key-update p r = ground (arith, keeps r)

  pub IsKeyed-update_where :
      (p : R → Bool) (rs : List R) → IsKeyed key rs → IsKeyed key (update_where p f rs)
  unfolding update_where
  IsKeyed-update_where p [] h = tt
  IsKeyed-update_where p (r ∷ rs) h =
      (rw (key-update p r) (Lacks-update_where (key r) p rs h.0), IsKeyed-update_where p rs h.1)

module _ {A : Type 0} (fits : A → Bool) (change : A → A) where
  -- an UPDATE that only the last row of a table fits
  pub update_where-last :
      (xs : List A) (x : A)
      → any fits xs ≡ false
      → fits x ≡ true
      → update_where fits change (xs ++ x ∷ []) ≡ xs ++ change x ∷ []
  unfolding update_where
  update_where-last [] x none_fits h = rw h refl
  update_where-last (y ∷ ys) x none_fits h = ground (arith, update_where-last ys x)
