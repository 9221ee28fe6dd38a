-- ===== src/Exec.antt =====
-- Calls that change the world and may fail. A Go function `(T, error)` is an action `Exec Err W T`:
-- what it did before it failed stays done, so the world comes back beside the error too. A
-- handler's early return is an action whose failure is the response.
pub mod Keeps
pub mod Yields
pub mod Stays
use ndbx.Prelude.{String, ◌≡◌, refl, ◌⊎◌, inl, inr, arith}
use ndbx.Errors.{Err, wrap}

pub data Result {ℓ κ} (E : Type ℓ) (A : Type κ) : Type (ℓ ⊔ κ) where
  ok : A → Result E A
  err : E → Result E A

pub Result-cases {ℓ κ} :
    {E : Type ℓ} {A : Type κ} (r : Result E A) → ((a : A) × (r ≡ ok a)) ⊎ ((e : E) × (r ≡ err e))
Result-cases (ok a) = inl (a, refl)
Result-cases (err e) = inr (e, refl)

abbrev pub Exec : Type 0 → Type 0 → Type 0 → Type 0
Exec E W A = W → Result E A × W

module _ {E W A : Type 0} where
  abbrev pub pure : A → Exec E W A
  pure a w = (ok a, w)

  abbrev pub fail : E → Exec E W A
  fail e w = (err e, w)

  abbrev pub lift : Result E A → Exec E W A
  lift r w = (r, w)

  -- a call that cannot fail
  abbrev pub always : (W → A × W) → Exec E W A
  always f w = let (a, w') = f w in (ok a, w')

module _ {E W A B : Type 0} where
  abbrev pub continue : Result E A → (A → Exec E W B) → Exec E W B
  continue (ok a) f w = f a w
  continue (err e) f w = (err e, w)

  infixl 5 ◌>>=◌ ◌>>◌
  abbrev pub ◌>>=◌ : Exec E W A → (A → Exec E W B) → Exec E W B
  ◌>>=◌ m f w = let (r, w') = m w in continue r f w'

  abbrev pub ◌>>◌ : Exec E W A → Exec E W B → Exec E W B
  m >> n = m >>= λ _. n

module _ {E F W A B : Type 0} where
  abbrev pub settle : Result E A → (E → Exec F W B) → (A → Exec F W B) → Exec F W B
  settle (ok a) bad good w = good a w
  settle (err e) bad good w = bad e w

  -- `v, err := m; if err != nil { bad } …good`
  abbrev pub attempt : Exec E W A → (E → Exec F W B) → (A → Exec F W B) → Exec F W B
  attempt m bad good w = let (r, w') = m w in settle r bad good w'

module _ {E F W A : Type 0} where
  -- `if err != nil { return f(err) }`
  abbrev pub map_err : (E → F) → Exec E W A → Exec F W A
  map_err f m = attempt m (λ e. fail (f e)) pure

-- `if err := m; err != nil { log }`: the failure is only logged.
abbrev pub logged : {E F W A : Type 0} → Exec E W A → Exec F W (Unit {0})
logged m = attempt m (λ _. pure tt) (λ _. pure tt)

-- return nil, fmt.Errorf("message: %w", err)
abbrev pub wrapping : {W A : Type 0} → String → Exec Err W A → Exec Err W A
wrapping message = map_err (wrap message)

module _ {E F W A : Type 0} (f : E → F) (m : Exec E W A) (w : W) where
  pub map_err-world : (map_err f m w).1 ≡ (m w).1
  map_err-world = ground arith

  pub map_err-ok : (a : A) → (map_err f m w).0 ≡ ok a → (m w).0 ≡ ok a
  map_err-ok a h = ground arith

module _ {E W A B : Type 0} (m : Exec E W A) (f : A → Exec E W B) (w : W) where
  -- Inversion of a successful bind: the first action succeeded, and the second one went on from it.
  pub >>=-ok :
      (b : B) → ((m >>= f) w).0 ≡ ok b → (a : A) × ((m w).0 ≡ ok a) × ((m >>= f) w ≡ f a (m w).1)
  >>=-ok b h = ground arith
