-- ===== src/Sql/Exec.antt =====
-- An asynchronous function of the program over a database: each `await database.query(…)` is one
-- atomic step, and other clients may change the database before each of them. What they do is a
-- list of functions, one for each statement to come; past the end of the list nobody else acts.
use chain_sieve.Base.{◌≡◌, ap, refl, List, [], ◌∷◌, Outcome, ok, err}

pub record World (S : Type 0) : Type 0 where
  pub state : S
  pub others : List (S → S)

-- Nobody else acts.
abbrev pub alone : {S : Type 0} → S → World S
alone s = record { state = s; others = [] }

abbrev pub Exec : Type 0 → Type 0 → Type 0 → Type 0
Exec S E A = World S → Outcome E A × World S

module _ {S : Type 0} where
  abbrev pub act : List (S → S) → S → World S
  act [] s = alone s
  act (g ∷ gs) s = record { state = g s; others = gs }

  -- what the others do before the next statement
  unfoldable pub turn : World S → World S
  turn w = act w.others w.state

  pub turn-alone : (s : S) → turn (alone s) ≡ alone s
  unfolding turn
  turn-alone s = refl

module _ {S E A : Type 0} where
  unfoldable pub pure : A → Exec S E A
  pure a w = (ok a, w)

  unfoldable pub throw : E → Exec S E A
  throw e w = (err e, w)

  -- One statement: it reads and writes the database at once.
  unfoldable pub statement : (S → A × S) → Exec S E A
  statement f w =
      let (a, s) = f (turn w).state in (ok a, record { state = s; others = (turn w).others })

  -- A statement that the database may refuse (a violated constraint), and that then changes nothing.
  unfoldable pub fallible : (S → Outcome E (A × S)) → Exec S E A
  fallible f w = elim (f (turn w).state) [
    | ok (a, s) ↦ (ok a, record { state = s; others = (turn w).others })
    | err e ↦ (err e, turn w)
  ]

  -- `try { m } catch { handler }`
  unfoldable pub catch : Exec S E A → Exec S E A → Exec S E A
  catch m handler w = let (r, w') = m w in elim r [ ok a ↦ (ok a, w') | err e ↦ handler w' ]

module _ {S E A B : Type 0} where
  abbrev pub continue : Outcome E A → (A → Exec S E B) → Exec S E B
  continue (ok a) f w = f a w
  continue (err e) f w = (err e, w)

  infixl 5 ◌>>=◌ ◌>>◌
  -- opening this opens `pure`, `throw`, `statement`, `fallible` and `catch` too
  unfoldable pub ◌>>=◌ : Exec S E A → (A → Exec S E B) → Exec S E B
  unfolding pure throw statement fallible catch
  ◌>>=◌ m f w = let (r, w') = m w in continue r f w'

  abbrev pub ◌>>◌ : Exec S E A → Exec S E B → Exec S E B
  m >> k = m >>= λ _. k

-- A statement, and a bind, by what the part that runs first gives.
module _ {S E A : Type 0} where
  pub fallible-ok :
      (f : S → Outcome E (A × S)) (w : World S) (a : A) (s : S)
      → f (turn w).state ≡ ok (a, s)
      → fallible f w ≡ (ok a, record { state = s; others = (turn w).others })
  unfolding fallible
  fallible-ok f w a s e = rw (e, fallible) refl

  pub fallible-err :
      (f : S → Outcome E (A × S)) (w : World S) (e : E)
      → f (turn w).state ≡ err e
      → fallible f w ≡ (err e, turn w)
  unfolding fallible
  fallible-err f w e h = rw (h, fallible) refl

  abbrev caught : Exec S E A → Outcome E A × World S → Outcome E A × World S
  caught handler r = elim r.0 [ ok a ↦ (ok a, r.1) | err e ↦ handler r.1 ]

  pub catch-ok :
      (m handler : Exec S E A) (w w' : World S) (a : A)
      → m w ≡ (ok a, w')
      → catch m handler w ≡ (ok a, w')
  unfolding catch
  catch-ok m handler w w' a e = ap (caught handler) e

module _ {S E A B : Type 0} where
  pub bind-ok :
      (m : Exec S E A) (f : A → Exec S E B) (w w' : World S) (a : A)
      → m w ≡ (ok a, w')
      → (m >>= f) w ≡ f a w'
  unfolding ◌>>=◌
  bind-ok m f w w' a e = rw (e, ◌>>=◌) refl

  pub bind-err :
      (m : Exec S E A) (f : A → Exec S E B) (w w' : World S) (e : E)
      → m w ≡ (err e, w')
      → (m >>= f) w ≡ (err e, w')
  unfolding ◌>>=◌
  bind-err m f w w' e h = ap (λ r. continue r.0 f r.1) h

  continue-pure : (o : Outcome E A) (b : B) (w : World S) → (continue o (λ _. pure b) w).1 ≡ w
  unfolding pure
  continue-pure (ok a) b w = refl
  continue-pure (err e) b w = refl

  -- after the last statement the database is as that statement left it
  pub bind-pure_state : (m : Exec S E A) (b : B) (w : World S) → ((m >>= λ _. pure b) w).1 ≡ (m w).1
  unfolding ◌>>=◌
  bind-pure_state m b w = continue-pure (m w).0 b (m w).1
