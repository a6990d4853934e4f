-- ===== src/Sql/Rely.antt =====
-- Rely and guarantee over such functions: if all that the others do follows a preorder on the
-- database's states, then so does the whole run, theirs and its own.
use mathlib.Core.Path.{◌≡◌, refl}
use chain_sieve.Base.{
  List, [], ◌∷◌, All, Outcome, ok, err, Bool, true, false, Option, none, some, if◌then◌else◌,
}
use chain_sieve.Sql.Exec.{World, Exec, act, turn, pure, throw, statement, fallible, continue, ◌>>=◌}

pub record Preorder (S : Type 0) : Type 1 where
  pub R : S → S → Type 0
  pub reflexive : (s : S) → R s s
  pub transitive : (s t u : S) → R s t → R t u → R s u

abbrev pub Obeys : {S : Type 0} → Preorder S → List (S → S) → Type 0
Obeys P = All (λ g. (s : _) → P.R s (g s))

module _ {S : Type 0} (P : Preorder S) where
  -- from `w` to `w'`, everybody has obeyed, and the others go on to
  pub record Kept (w w' : World S) : Type 0 where
    pub state : P.R w.state w'.state
    pub others : Obeys P w'.others

  Kept-act :
      (gs : List (S → S)) (s : S) → Obeys P gs → Kept (record { state = s; others = gs }) (act gs s)
  Kept-act [] s h = record { state = P.reflexive s; others = tt }
  Kept-act (g ∷ gs) s h = record { state = h.0 s; others = h.1 }

  pub Kept-turn : (w : World S) → Obeys P w.others → Kept w (turn w)
  unfolding turn
  Kept-turn w h = Kept-act w.others w.state h

  pub Kept-trans : (u v w : World S) → Kept u v → Kept v w → Kept u w
  Kept-trans u v w h k = record {
    state = P.transitive u.state v.state w.state h.state k.state;
    others = k.others;
  }

module _ {S E A : Type 0} (P : Preorder S) where
  -- whatever the others do within the relation, the run of `m` is within it
  pub record Respects (m : Exec S E A) : Type 0 where
    pub at : (w : World S) → Obeys P w.others → Kept P w (m w).1

  pub Respects-pure : (a : A) → Respects (pure a)
  unfolding pure
  Respects-pure a = record { at = λ w h. record { state = P.reflexive w.state; others = h } }

  pub Respects-throw : (e : E) → Respects (throw e)
  unfolding throw
  Respects-throw e = record { at = λ w h. record { state = P.reflexive w.state; others = h } }

  pub Respects-statement : (f : S → A × S) → ((s : S) → P.R s (f s).1) → Respects (statement f)
  unfolding statement
  Respects-statement f g = record {
    at = λ w h.
        let k = Kept-turn P w h in
        record { state = P.transitive _ _ _ k.state (g (turn w).state); others = k.others };
  }

  -- what a statement writes when the database takes it
  pub data Allowed (s : S) : Outcome E (A × S) → Type 0 where
    taken : {a : A} {t : S} → P.R s t → Allowed s (ok (a, t))
    refused : {e : E} → Allowed s (err e)

  pub Allowed-if :
      (b : Bool) (s : S) (o o' : Outcome E (A × S))
      → Allowed s o
      → Allowed s o'
      → Allowed s (if b then o else o')
  Allowed-if true s o o' h k = h
  Allowed-if false s o o' h k = k

  after_fallible :
      (w v : World S) (o : Outcome E (A × S))
      → Kept P w v
      → Allowed v.state o
      → Kept P w (elim o [ ok (a, t) ↦ record { state = t; others = v.others } | err e ↦ v ])
  after_fallible w v (ok (a, t)) k (taken h) = record {
    state = P.transitive w.state v.state t k.state h;
    others = k.others;
  }
  after_fallible w v (err e) k h = k

  fallible_world :
      (v : World S) (o : Outcome E (A × S))
      → (let run : Outcome E A × World S = elim o [
        | ok (a, t) ↦ (ok a, record { state = t; others = v.others })
        | err e ↦ (err e, v)
      ] in
          run.1)
        ≡ elim o [ ok (a, t) ↦ record { state = t; others = v.others } | err e ↦ v ]
  fallible_world v (ok (a, t)) = refl
  fallible_world v (err e) = refl

  pub Respects-fallible :
      (f : S → Outcome E (A × S)) → ((s : S) → Allowed s (f s)) → Respects (fallible f)
  unfolding fallible
  Respects-fallible f h = record {
    at = λ w o.
        rw (fallible_world (turn w) (f (turn w).state))
          (after_fallible w (turn w) (f (turn w).state) (Kept-turn P w o) (h (turn w).state));
  }

  pub Respects-if :
      (b : Bool) (m n : Exec S E A) → Respects m → Respects n → Respects (if b then m else n)
  Respects-if true m n h k = h
  Respects-if false m n h k = k

  pub Respects-option :
      {X : Type 0} (o : Option X) (m : Exec S E A) (f : X → Exec S E A)
      → Respects m
      → ((x : X) → Respects (f x))
      → Respects (elim o [ none ↦ m | some x ↦ f x ])
  Respects-option none m f h k = h
  Respects-option (some x) m f h k = k x

module _ {S E A B : Type 0} (P : Preorder S) where
  Respects-continue :
      (r : Outcome E A) (f : A → Exec S E B)
      → ((a : A) → Respects P (f a))
      → Respects P (continue r f)
  unfolding throw
  Respects-continue (ok a) f h = h a
  Respects-continue (err e) f h = Respects-throw P e

  pub Respects-bind :
      (m : Exec S E A) (f : A → Exec S E B)
      → Respects P m
      → ((a : A) → Respects P (f a))
      → Respects P (m >>= f)
  unfolding ◌>>=◌
  Respects-bind m f h k = record {
    at = λ w o.
        let (r, w') = m w in
        let first = h.at w o in
        Kept-trans P _ _ _ first ((Respects-continue r f k).at w' first.others);
  }

pub ruleset rely_rules = (
  Respects-pure, Respects-throw, Respects-statement, Respects-fallible, Respects-if,
  Respects-option, Respects-bind,
)
