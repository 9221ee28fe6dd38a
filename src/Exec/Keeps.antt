-- ===== src/Exec/Keeps.antt =====
-- A logic for the actions of Exec: an action keeps an invariant of the world, and what it returns has
-- a property. One rule for each way in which the code puts actions together.
use ndbx.Prelude.{◌≡◌, refl, inl, inr, arith, Bool, true, false, if◌then◌else◌}
use ndbx.Exec.{Result, ok, Result-cases, Exec, pure, fail, lift, map_err, attempt, logged, ◌>>=◌}

module _ {W : Type 0} (I : W → Type 0) where
  abbrev pub Keeps : {E A : Type 0} → Exec E W A → (A → Type 0) → Type 0
  Keeps {A} m Q = (w : W) → I w → I (m w).1 × ((a : A) → (m w).0 ≡ ok a → Q a)

  module _ {E A : Type 0} (Q : A → Type 0) where
    pub pure-Keeps : (a : A) → Q a → Keeps {E = E} (pure a) Q
    pure-Keeps a q w i = (i, λ b e. ground arith)

    pub fail-Keeps : (e : E) → Keeps (fail e) Q
    fail-Keeps e w i = (i, λ b same. ground arith)

    pub lift-Keeps : (r : Result E A) → ((a : A) → r ≡ ok a → Q a) → Keeps (lift r) Q
    lift-Keeps r q w i = (i, q)

    pub if-Keeps :
        (test : Bool) (m n : Exec E W A)
        → (test ≡ true → Keeps m Q)
        → (test ≡ false → Keeps n Q)
        → Keeps (if test then m else n) Q
    if-Keeps true m n yes_keeps no_keeps = yes_keeps refl
    if-Keeps false m n yes_keeps no_keeps = no_keeps refl

  module _ {E A B : Type 0} (P : A → Type 0) (Q : B → Type 0) where
    pub bind-Keeps :
        (m : Exec E W A) (f : A → Exec E W B)
        → Keeps m P
        → ((a : A) → P a → Keeps (f a) Q)
        → Keeps (m >>= f) Q
    bind-Keeps m f first then_keeps w i =
        let (i', p) = first w i in
        elim (Result-cases (m w).0) [
          | inl (a, got) ↦ rw got (then_keeps a (p a got) (m w).1 i')
          | inr (e, failed) ↦ rw failed (i', λ b same. ground arith)
        ]

  module _ {E F A B : Type 0} (P : A → Type 0) (Q : B → Type 0) where
    pub attempt-Keeps :
        (m : Exec E W A) (bad : E → Exec F W B) (good : A → Exec F W B)
        → Keeps m P
        → ((e : E) → Keeps (bad e) Q)
        → ((a : A) → P a → Keeps (good a) Q)
        → Keeps (attempt m bad good) Q
    attempt-Keeps m bad good first bad_keeps good_keeps w i =
        let (i', p) = first w i in
        elim (Result-cases (m w).0) [
          | inl (a, got) ↦ rw got (good_keeps a (p a got) (m w).1 i')
          | inr (e, failed) ↦ rw failed (bad_keeps e (m w).1 i')
        ]

  module _ {E F A : Type 0} (Q : A → Type 0) where
    pub map_err-Keeps : (f : E → F) (m : Exec E W A) → Keeps m Q → Keeps (map_err f m) Q
    map_err-Keeps f m keeps =
        attempt-Keeps Q Q m _ _ keeps (λ e. fail-Keeps Q (f e)) (λ a q. pure-Keeps Q a q)

  abbrev pub Anything : {A : Type 0} → A → Type 0
  Anything a = Unit

  pub logged-Keeps :
      {E F A : Type 0} (Q : A → Type 0) (m : Exec E W A)
      → Keeps m Q
      → Keeps {E = F} (logged m) Anything
  logged-Keeps Q m keeps =
      attempt-Keeps Q Anything m _ _ keeps (λ e. pure-Keeps Anything tt tt)
        (λ a q. pure-Keeps Anything tt tt)
