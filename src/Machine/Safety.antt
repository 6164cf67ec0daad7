-- ===== src/Machine/Safety.antt =====
-- A program logic: an action does not panic, and what holds however else it ends.
use rdma_prototype.Base.{◌≡◌, refl, Bool, true, false, if◌then◌else◌}
use rdma_prototype.Outcome.{Outcome, ok, err, panic, unfinished, Result, value, error}
use rdma_prototype.Machine.{
  Machine, At, Env, Exec, resume, ◌>>=◌, caught, construct, owning, in_env, throw, attempt, zoom,
}

module _ {S : Type 0} where
  abbrev pub Safe : {A : Type 0} → (A → S → Type 0) → (S → Type 0) → Outcome A × S → Type 0
  Safe P E (ok a, t) = P a t
  Safe P E (err e, t) = E t
  Safe P E (panic, t) = ⊥
  Safe P E (unfinished, t) = E t

  pub Safe-resume :
      {A B : Type 0} (P : A → S → Type 0) (Q : B → S → Type 0) (E : S → Type 0) (f : A → Exec S B)
      (r : Outcome A) (t : S)
      → Safe P E (r, t)
      → ((a : A) (u : S) → P a u → Safe Q E (f a u))
      → Safe Q E (resume r f t)
  Safe-resume P Q E f (ok a) t h k = k a t h
  Safe-resume P Q E f (err e) t h k = h
  Safe-resume P Q E f panic t h k = absurd h
  Safe-resume P Q E f unfinished t h k = h

  -- The rule for a bind.
  pub Safe-bind :
      {A B : Type 0} (P : A → S → Type 0) (Q : B → S → Type 0) (E : S → Type 0) (m : Exec S A)
      (f : A → Exec S B) (s : S)
      → Safe P E (m s)
      → ((a : A) (u : S) → P a u → Safe Q E (f a u))
      → Safe Q E ((m >>= f) s)
  Safe-bind P Q E m f s h k = Safe-resume P Q E f (m s).0 (m s).1 h k

  -- The rule for a branch.
  pub Safe-if :
      {A : Type 0} (P : A → S → Type 0) (E : S → Type 0) (b : Bool) (m n : Exec S A) (s : S)
      → (b ≡ true → Safe P E (m s))
      → (b ≡ false → Safe P E (n s))
      → Safe P E ((if b then m else n) s)
  Safe-if P E true m n s hm hn = hm refl
  Safe-if P E false m n s hm hn = hn refl

  -- An invariant: what holds before holds after, however the action ends.
  abbrev pub Preserves : (S → Type 0) → {A : Type 0} → Exec S A → Type 0
  Preserves I m = (s : S) → I s → Safe (λ _ t. I t) I (m s)

  pub Preserves-bind :
      (I : S → Type 0) {A B : Type 0} (m : Exec S A) (f : A → Exec S B)
      → Preserves I m
      → ((a : A) → Preserves I (f a))
      → Preserves I (m >>= f)
  Preserves-bind I m f hm hf s h =
      Safe-bind (λ _ t. I t) (λ _ t. I t) I m f s (hm s h) (λ a u k. hf a u k)

  pub Preserves-if :
      (I : S → Type 0) {A : Type 0} (b : Bool) (m n : Exec S A)
      → Preserves I m
      → Preserves I n
      → Preserves I (if b then m else n)
  Preserves-if I true m n hm hn = hm
  Preserves-if I false m n hm hn = hn

  -- No panic, from any state.
  abbrev pub NoPanic : {A : Type 0} → Exec S A → Type 0
  NoPanic m = Preserves (λ _. Unit) m

  pub Safe-weaken :
      {A : Type 0} (P Q : A → S → Type 0) (E F : S → Type 0) (r : Outcome A) (t : S)
      → Safe P E (r, t)
      → ((a : A) (u : S) → P a u → Q a u)
      → ((u : S) → E u → F u)
      → Safe Q F (r, t)
  Safe-weaken P Q E F (ok a) t h p e = p a t h
  Safe-weaken P Q E F (err x) t h p e = e t h
  Safe-weaken P Q E F panic t h p e = absurd h
  Safe-weaken P Q E F unfinished t h p e = e t h

  Safe-caught :
      (I : S → Type 0) {A : Type 0} (r : Outcome A) (t : S)
      → Safe (λ _ u. I u) I (r, t)
      → Safe (λ _ u. I u) I (caught r, t)
  Safe-caught I (ok a) t h = h
  Safe-caught I (err e) t h = h
  Safe-caught I panic t h = h
  Safe-caught I unfinished t h = h

  pub Preserves-attempt :
      (I : S → Type 0) {A : Type 0} (m : Exec S A) → Preserves I m → Preserves I (attempt m)
  Preserves-attempt I m hm s h = Safe-caught I (m s).0 (m s).1 (hm s h)

  pub NoPanic-throw : {A : Type 0} (r : Result A) → NoPanic (throw {S = S} r)
  NoPanic-throw (value a) s h = tt
  NoPanic-throw (error e) s h = tt

module _ (M : Machine) where
  -- A method of a field that keeps a property of the field.
  module _ {T P : Type 0} (I : T → Type 0) (J : P → Type 0) (get : T → P) (put : P → T → T) where
    zoomed :
        {A : Type 0} (t : T) (r : Outcome A) (u : At M P)
        → ((p : P) → J p → I (put p t))
        → Safe (λ _ (u : At M P). J u.self) (λ (u : At M P). J u.self) (r, u)
        → let v : At M T = record { self = put u.self t; env = u.env } in
          Safe (λ _ (v : At M T). I v.self) (λ (v : At M T). I v.self) (r, v)
    zoomed t (ok a) u k j = k u.self j
    zoomed t (err e) u k j = k u.self j
    zoomed t panic u k j = absurd j
    zoomed t unfinished u k j = k u.self j

    pub Preserves-zoom :
        {A : Type 0} (m : Exec (At M P) A)
        → ((t : T) → I t → J (get t))
        → ((p : P) (t : T) → J p → I t → I (put p t))
        → Preserves (λ (s : At M P). J s.self) m
        → Preserves (λ (s : At M T). I s.self) (zoom M get put m)
    Preserves-zoom m down up hm s h =
        let inner : At M P = record { self = get s.self; env = s.env } in
        zoomed s.self (m inner).0 (m inner).1 (λ p j. up p s.self j h) (hm inner (down s.self h))

  -- An action of the environment inside a method.
  in_env_of :
      {T A : Type 0} (I : T → Type 0) (t : T) (r : Outcome A) (e : Env M)
      → I t
      → Safe (λ _ _. Unit) (λ _. Unit) (r, e)
      → let v : At M T = record { self = t; env = e } in
        Safe (λ _ (v : At M T). I v.self) (λ (v : At M T). I v.self) (r, v)
  in_env_of I t (ok a) e h k = h
  in_env_of I t (err x) e h k = h
  in_env_of I t panic e h k = absurd k
  in_env_of I t unfinished e h k = h

  pub Preserves-in_env :
      {T A : Type 0} (I : T → Type 0) (m : Exec (Env M) A)
      → NoPanic m
      → Preserves (λ (s : At M T). I s.self) (in_env M m)
  Preserves-in_env I m hm s h = in_env_of I s.self (m s.env).0 (m s.env).1 h (hm s.env tt)

  -- A block that owns an object.
  owned :
      {T A : Type 0} (P : A → Type 0) (drop : T → Env M → Env M) (r : Outcome A) (t : At M T)
      → Safe (λ a _. P a) (λ _. Unit) (r, t)
      → Safe (λ a _. P a) (λ _. Unit) (r, drop t.self t.env)
  owned P drop (ok a) t h = h
  owned P drop (err x) t h = tt
  owned P drop panic t h = absurd h
  owned P drop unfinished t h = tt

  pub owning-Safe :
      {T A : Type 0} (P : A → Type 0) (start : T) (drop : T → Env M → Env M)
      (block : Exec (At M T) A) (e : Env M)
      → Safe (λ a _. P a) (λ _. Unit) (block (record { self = start; env = e }))
      → Safe (λ a _. P a) (λ _. Unit) (owning M start drop block e)
  unfolding owning
  owning-Safe P start drop block e h =
      let s : At M _ = record { self = start; env = e } in owned P drop (block s).0 (block s).1 h

  -- The construction of an object.
  built :
      {T : Type 0} (I : T → Type 0) (drop : T → Env M → Env M) (r : Outcome Unit) (t : At M T)
      → Safe (λ _ (u : At M T). I u.self) (λ _. Unit) (r, t)
      → Safe
          (λ o _. I o)
          (λ _. Unit)
          (elim r as (λ _. Outcome T × Env M) [
            | ok _ ↦ (ok t.self, t.env)
            | err x ↦ (err x, drop t.self t.env)
            | panic ↦ (panic, drop t.self t.env)
            | unfinished ↦ (unfinished, drop t.self t.env)
          ])
  built I drop (ok u) t h = h
  built I drop (err x) t h = tt
  built I drop panic t h = absurd h
  built I drop unfinished t h = tt

  pub construct-Safe :
      {T : Type 0} (I : T → Type 0) (drop : T → Env M → Env M) (build : Exec (At M T) Unit)
      (start : T) (e : Env M)
      → Safe (λ _ (u : At M T). I u.self) (λ _. Unit) (build (record { self = start; env = e }))
      → Safe (λ o _. I o) (λ _. Unit) (construct M start drop build e)
  unfolding construct
  construct-Safe {T} I drop build start e hb =
      let s : At M T = record { self = start; env = e } in built I drop (build s).0 (build s).1 hb
