-- ===== src/Machine/Logic.antt =====
-- A program logic: what holds if an action comes to an end by a value, and that it does not run
-- out of fuel.
use rdma_prototype.Base.{◌≡◌, refl, Bool, true, false, if◌then◌else◌}
use rdma_prototype.Outcome.{Outcome, ok, err, panic, unfinished}
use rdma_prototype.Machine.{Exec, resume, ◌>>=◌}

module _ {S : Type 0} where
  -- The action ends, and a value that it returns has the property.
  abbrev pub Finishes : {A : Type 0} → (A → S → Type 0) → Outcome A × S → Type 0
  Finishes P (ok a, t) = P a t
  Finishes P (err e, t) = Unit
  Finishes P (panic, t) = Unit
  Finishes P (unfinished, t) = ⊥

  pub Finishes-resume :
      {A B : Type 0} (P : A → S → Type 0) (Q : B → S → Type 0) (f : A → Exec S B) (r : Outcome A)
      (t : S)
      → Finishes P (r, t)
      → ((a : A) (u : S) → P a u → Finishes Q (f a u))
      → Finishes Q (resume r f t)
  Finishes-resume P Q f (ok a) t h k = k a t h
  Finishes-resume P Q f (err e) t h k = tt
  Finishes-resume P Q f panic t h k = tt
  Finishes-resume P Q f unfinished t h k = absurd h

  -- The rule for a bind.
  pub Finishes-bind :
      {A B : Type 0} (P : A → S → Type 0) (Q : B → S → Type 0) (m : Exec S A) (f : A → Exec S B)
      (s : S)
      → Finishes P (m s)
      → ((a : A) (u : S) → P a u → Finishes Q (f a u))
      → Finishes Q ((m >>= f) s)
  Finishes-bind P Q m f s h k = Finishes-resume P Q f (m s).0 (m s).1 h k

  -- The rule for a branch.
  pub Finishes-if :
      {A : Type 0} (P : A → S → Type 0) (b : Bool) (m n : Exec S A) (s : S)
      → (b ≡ true → Finishes P (m s))
      → (b ≡ false → Finishes P (n s))
      → Finishes P ((if b then m else n) s)
  Finishes-if P true m n s hm hn = hm refl
  Finishes-if P false m n s hm hn = hn refl

  -- A weaker property.
  pub Finishes-map :
      {A : Type 0} (P Q : A → S → Type 0) (r : Outcome A) (t : S)
      → Finishes P (r, t)
      → ((a : A) (u : S) → P a u → Q a u)
      → Finishes Q (r, t)
  Finishes-map P Q (ok a) t h k = k a t h
  Finishes-map P Q (err e) t h k = tt
  Finishes-map P Q panic t h k = tt
  Finishes-map P Q unfinished t h k = absurd h

  -- The action ends and a value that it returns has the property, or it ran out of fuel in a state that
  -- has another one.
  abbrev pub Ends : {A : Type 0} → (A → S → Type 0) → (S → Type 0) → Outcome A × S → Type 0
  Ends P U (ok a, t) = P a t
  Ends P U (err e, t) = Unit
  Ends P U (panic, t) = Unit
  Ends P U (unfinished, t) = U t

  -- The rule for a bind whose first part does not run out of fuel.
  pub Ends-bind :
      {A B : Type 0} (P : A → S → Type 0) (Q : B → S → Type 0) (U : S → Type 0) (m : Exec S A)
      (f : A → Exec S B) (s : S)
      → Finishes P (m s)
      → ((a : A) (u : S) → P a u → Ends Q U (f a u))
      → Ends Q U ((m >>= f) s)
  Ends-bind {A = A} P Q U m f s h k = go (m s).0 (m s).1 h
    where
      go : (r : Outcome A) (t : S) → Finishes P (r, t) → Ends Q U (resume r f t)
      go (ok a) t h = k a t h
      go (err e) t h = tt
      go panic t h = tt
      go unfinished t h = absurd h

  -- However the action ends: a value has one property, any other end the other.
  abbrev pub Leaves : {A : Type 0} → (A → S → Type 0) → (S → Type 0) → Outcome A × S → Type 0
  Leaves P E (ok a, t) = P a t
  Leaves P E (err e, t) = E t
  Leaves P E (panic, t) = E t
  Leaves P E (unfinished, t) = E t

  pub Leaves-resume :
      {A B : Type 0} (P : A → S → Type 0) (Q : B → S → Type 0) (E : S → Type 0) (f : A → Exec S B)
      (r : Outcome A) (t : S)
      → Leaves P E (r, t)
      → ((a : A) (u : S) → P a u → Leaves Q E (f a u))
      → Leaves Q E (resume r f t)
  Leaves-resume P Q E f (ok a) t h k = k a t h
  Leaves-resume P Q E f (err e) t h k = h
  Leaves-resume P Q E f panic t h k = h
  Leaves-resume P Q E f unfinished t h k = h

  pub Leaves-bind :
      {A B : Type 0} (P : A → S → Type 0) (Q : B → S → Type 0) (E : S → Type 0) (m : Exec S A)
      (f : A → Exec S B) (s : S)
      → Leaves P E (m s)
      → ((a : A) (u : S) → P a u → Leaves Q E (f a u))
      → Leaves Q E ((m >>= f) s)
  Leaves-bind P Q E m f s h k = Leaves-resume P Q E f (m s).0 (m s).1 h k

  -- A weaker property of a value.
  pub Leaves-map :
      {A : Type 0} (P Q : A → S → Type 0) (E : S → Type 0) (r : Outcome A) (t : S)
      → Leaves P E (r, t)
      → ((a : A) (u : S) → P a u → Q a u)
      → Leaves Q E (r, t)
  Leaves-map P Q E (ok a) t h k = k a t h
  Leaves-map P Q E (err e) t h k = h
  Leaves-map P Q E panic t h k = h
  Leaves-map P Q E unfinished t h k = h

  -- The action comes to its end, and a value that it returns has the property.
  abbrev pub Concludes : {A : Type 0} → (A → S → Type 0) → Outcome A × S → Type 0
  Concludes P (ok a, t) = P a t
  Concludes P (err e, t) = Unit
  Concludes P (panic, t) = ⊥
  Concludes P (unfinished, t) = ⊥

  pub Concludes-bind :
      {A B : Type 0} (P : A → S → Type 0) (Q : B → S → Type 0) (m : Exec S A) (f : A → Exec S B)
      (s : S)
      → Concludes P (m s)
      → ((a : A) (u : S) → P a u → Concludes Q (f a u))
      → Concludes Q ((m >>= f) s)
  Concludes-bind {A = A} P Q m f s h k = go (m s).0 (m s).1 h
    where
      go : (r : Outcome A) (t : S) → Concludes P (r, t) → Concludes Q (resume r f t)
      go (ok a) t h = k a t h
      go (err e) t h = tt
      go panic t h = absurd h
      go unfinished t h = absurd h

  pub Concludes-map :
      {A : Type 0} (P Q : A → S → Type 0) (r : Outcome A) (t : S)
      → Concludes P (r, t)
      → ((a : A) (u : S) → P a u → Q a u)
      → Concludes Q (r, t)
  Concludes-map P Q (ok a) t h k = k a t h
  Concludes-map P Q (err e) t h k = tt
  Concludes-map P Q panic t h k = absurd h
  Concludes-map P Q unfinished t h k = absurd h
