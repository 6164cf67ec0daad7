-- ===== src/Machine/Behaviour.antt =====
-- A program logic: an action does not panic, its value has a property, and its error and the state that
-- it leaves have others.
use rdma_prototype.Base.{Bool, true, false, ◌≡◌, refl, if◌then◌else◌}
use rdma_prototype.Outcome.{Outcome, ok, err, panic, unfinished, Error}
use rdma_prototype.Machine.{Exec, resume, ◌>>=◌}

module _ {S : Type 0} (F : Error → Type 0) (I : S → Type 0) where
  abbrev pub Behaves : {A : Type 0} → (A → S → Type 0) → Outcome A × S → Type 0
  Behaves P (ok a, t) = P a t
  Behaves P (err e, t) = F e × I t
  Behaves P (panic, t) = ⊥
  Behaves P (unfinished, t) = I t

  pub Behaves-resume :
      {A B : Type 0} (P : A → S → Type 0) (Q : B → S → Type 0) (f : A → Exec S B) (r : Outcome A)
      (t : S)
      → Behaves P (r, t)
      → ((a : A) (u : S) → P a u → Behaves Q (f a u))
      → Behaves Q (resume r f t)
  Behaves-resume P Q f (ok a) t h k = k a t h
  Behaves-resume P Q f (err e) t h k = h
  Behaves-resume P Q f panic t h k = absurd h
  Behaves-resume P Q f unfinished t h k = h

  -- The rule for a bind.
  pub Behaves-bind :
      {A B : Type 0} (P : A → S → Type 0) (Q : B → S → Type 0) (m : Exec S A) (f : A → Exec S B)
      (s : S)
      → Behaves P (m s)
      → ((a : A) (u : S) → P a u → Behaves Q (f a u))
      → Behaves Q ((m >>= f) s)
  Behaves-bind P Q m f s h k = Behaves-resume P Q f (m s).0 (m s).1 h k

  -- The rule for a branch.
  pub Behaves-if :
      {A : Type 0} (P : A → S → Type 0) (b : Bool) (m n : Exec S A) (s : S)
      → (b ≡ true → Behaves P (m s))
      → (b ≡ false → Behaves P (n s))
      → Behaves P ((if b then m else n) s)
  Behaves-if P true m n s hm hn = hm refl
  Behaves-if P false m n s hm hn = hn refl

  -- A guard that lets the action pass.
  pub Behaves-else :
      {A : Type 0} (P : A → S → Type 0) (b : Bool) (m n : Exec S A) (s : S)
      → b ≡ false
      → Behaves P (n s)
      → Behaves P ((if b then m else n) s)
  Behaves-else P b m n s clear h = rw clear h
