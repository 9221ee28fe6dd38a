-- ===== src/Exec/Yields.antt =====
-- What an action gives, whatever the world: each value has one property and each failure another, with
-- one rule for each way in which the code puts actions together. A handler's failures are answers.
use mathlib.Core.Path.{subst}
use ndbx.Prelude.{sym, ◌≡◌, refl, inl, inr, Bool, true, false, if◌then◌else◌}
use ndbx.Exec.{Result, ok, err, Result-cases, Exec, pure, fail, map_err, attempt, logged, ◌>>=◌}

-- The outcome of an action is a value with a property, or a failure with another.
pub data Ended {E W A : Type 0} (R : E → Type 0) (Q : A → Type 0) (out : Result E A) (after : W)
    : Type 0 where
  gives : (a : A) → out ≡ ok a → Q a → Ended R Q out after
  refuses : (e : E) → out ≡ err e → R e → Ended R Q out after

-- The property that all values have.
pub data Any {A : Type 0} (a : A) : Type 0 where
  any : Any a

module _ {E : Type 0} (R : E → Type 0) {W : Type 0} where
  abbrev pub Yields : {A : Type 0} → Exec E W A → (A → Type 0) → Type 0
  Yields m Q = (w : W) → Ended R Q (m w).0 (m w).1

  module _ {A : Type 0} (Q : A → Type 0) where
    pub pure-Yields : (a : A) → Q a → Yields (pure a) Q
    pure-Yields a q w = gives a refl q

    pub fail-Yields : (e : E) → R e → Yields (fail e) Q
    fail-Yields e r w = refuses e refl r

    pub if-Yields :
        (test : Bool) (m n : Exec E W A)
        → Yields m Q
        → Yields n Q
        → Yields (if test then m else n) Q
    if-Yields true m n first second = first
    if-Yields false m n first second = second

  module _ {A B : Type 0} (P : A → Type 0) (Q : B → Type 0) where
    pub bind-Yields :
        (m : Exec E W A) (f : A → Exec E W B)
        → Yields m P
        → ((a : A) → P a → Yields (f a) Q)
        → Yields (m >>= f) Q
    bind-Yields m f first then_yields w = elim (first w) [
      | gives a got p ↦
          subst (λ (out : Result E B × W). Ended R Q out.0 out.1) (sym (rw got refl))
            (then_yields a p (m w).1)
      | refuses e failed r ↦ refuses e (rw failed refl) r
    ]

  -- A call of a service, whose errors become answers.
  pub map_err-Yields :
      {F A : Type 0} (f : F → E) (m : Exec F W A) → ((e : F) → R (f e)) → Yields (map_err f m) Any
  map_err-Yields f m answers w = elim (Result-cases (m w).0) [
    | inl (a, got) ↦ gives a (rw got refl) any
    | inr (e, failed) ↦ refuses (f e) (rw failed refl) (answers e)
  ]

  pub attempt-Yields :
      {F A B : Type 0} (Q : B → Type 0) (m : Exec F W A) (bad : F → Exec E W B)
      (good : A → Exec E W B)
      → ((e : F) → Yields (bad e) Q)
      → ((a : A) → Yields (good a) Q)
      → Yields (attempt m bad good) Q
  attempt-Yields Q m bad good bad_yields good_yields w = elim (Result-cases (m w).0) [
    | inl (a, got) ↦ rw got (good_yields a (m w).1)
    | inr (e, failed) ↦ rw failed (bad_yields e (m w).1)
  ]

  pub logged-Yields : {F A : Type 0} (m : Exec F W A) → Yields (logged m) Any
  logged-Yields m =
      attempt-Yields Any m _ _ (λ e. pure-Yields Any tt any) (λ a. pure-Yields Any tt any)
