-- ===== src/Exec/Stays.antt =====
-- A logic for the actions of Exec that keep a property of the world, whatever they give: one rule for
-- each way in which the code puts actions together.
use ndbx.Errors.{Err}
use ndbx.Prelude.{inl, inr, Bool, true, false, if◌then◌else◌}
use ndbx.Exec.{Exec, Result-cases, map_err, attempt, logged, ◌>>=◌}

module _ {W : Type 0} (I : W → Type 0) where
  abbrev pub Stays : {E A : Type 0} → Exec E W A → Type 0
  Stays m = (w : W) → I w → I (m w).1

  pub if-Stays :
      {E A : Type 0} (test : Bool) (m n : Exec E W A)
      → Stays m
      → Stays n
      → Stays (if test then m else n)
  if-Stays true m n first second = first
  if-Stays false m n first second = second

  pub bind-Stays :
      {E A B : Type 0} (m : Exec E W A) (f : A → Exec E W B)
      → Stays m
      → ((a : A) → Stays (f a))
      → Stays (m >>= f)
  bind-Stays m f first then_stays w i = elim (Result-cases (m w).0) [
    | inl (a, got) ↦ rw got (then_stays a (m w).1 (first w i))
    | inr (e, failed) ↦ rw failed (first w i)
  ]

  pub attempt-Stays :
      {E F A B : Type 0} (m : Exec E W A) (bad : E → Exec F W B) (good : A → Exec F W B)
      → Stays m
      → ((e : E) → Stays (bad e))
      → ((a : A) → Stays (good a))
      → Stays (attempt m bad good)
  attempt-Stays m bad good first bad_stays good_stays w i = elim (Result-cases (m w).0) [
    | inl (a, got) ↦ rw got (good_stays a (m w).1 (first w i))
    | inr (e, failed) ↦ rw failed (bad_stays e (m w).1 (first w i))
  ]

  pub map_err-Stays : {E F A : Type 0} (f : E → F) (m : Exec E W A) → Stays m → Stays (map_err f m)
  map_err-Stays f m stays = attempt-Stays m _ _ stays (λ e w i. i) (λ a w i. i)

  pub logged-Stays :
      {E A : Type 0} (F : Type 0) (m : Exec E W A) → Stays m → Stays {E = F} (logged m)
  logged-Stays F m stays = attempt-Stays m _ _ stays (λ e w i. i) (λ a w i. i)

  -- The same rules at one world.
  pub then_keeps :
      {E A C : Type 0} (m : Exec E W A) (w : W) (f : A → Exec E W C)
      → I (m w).1
      → ((a : A) (w : W) → I w → I (f a w).1)
      → I ((m >>= f) w).1
  then_keeps m w f i f_keeps = elim (Result-cases (m w).0) [
    | inl (a, got) ↦ rw got (f_keeps a _ i)
    | inr (e, failed) ↦ rw failed i
  ]

  pub tried_keeps :
      {E F A C : Type 0} (m : Exec E W A) (w : W) (bad : E → Exec F W C) (good : A → Exec F W C)
      → I (m w).1
      → ((e : E) (w : W) → I w → I (bad e w).1)
      → ((a : A) (w : W) → I w → I (good a w).1)
      → I (attempt m bad good w).1
  tried_keeps m w bad good i bad_keeps good_keeps = elim (Result-cases (m w).0) [
    | inl (a, got) ↦ rw got (good_keeps a _ i)
    | inr (e, failed) ↦ rw failed (bad_keeps e _ i)
  ]

  pub mapped_keeps :
      {E A : Type 0} (m : Exec E W A) (w : W) (g : E → Err) → I (m w).1 → I (map_err g m w).1
  mapped_keeps m w g i = elim (Result-cases (m w).0) [
    | inl (a, got) ↦ rw got i
    | inr (e, failed) ↦ rw failed i
  ]

  pub if_keeps :
      {E A : Type 0} (test : Bool) (m n : Exec E W A) (w : W)
      → I (m w).1
      → I (n w).1
      → I ((if test then m else n) w).1
  if_keeps true m n w first second = first
  if_keeps false m n w first second = second

  pub wrapped_keeps :
      {E A C : Type 0} (m : Exec E W A) (w : W) (g : E → Err) (f : A → Exec Err W C)
      → I (m w).1
      → ((a : A) (w : W) → I w → I (f a w).1)
      → I ((map_err g m >>= f) w).1
  wrapped_keeps m w g f i f_keeps = elim (Result-cases (m w).0) [
    | inl (a, got) ↦ rw got (f_keeps a _ i)
    | inr (e, failed) ↦ rw failed i
  ]

  pub logged_keeps :
      {E A C : Type 0} (m : Exec E W A) (w : W) (f : Unit {0} → Exec Err W C)
      → I (m w).1
      → ((w : W) → I w → I (f tt w).1)
      → I ((logged m >>= f) w).1
  logged_keeps m w f i f_keeps = elim (Result-cases (m w).0) [
    | inl (a, got) ↦ rw got (f_keeps _ i)
    | inr (e, failed) ↦ rw failed (f_keeps _ i)
  ]
