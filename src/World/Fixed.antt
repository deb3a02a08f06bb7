-- ===== src/World/Fixed.antt =====
-- Operations that leave a part of the database alone, however they end.
use pingerus.Base.{◌≡◌, refl, ap, ◌∙◌, inl, inr, Bool, true, false, String, if◌then◌else◌}
use pingerus.World.{
  World, Op, background, statement, map_error, wrapping, attempt, now, lift, pure, raise, ◌>>=◌,
}
use pingerus.World.Errors.{Error, Result}
use pingerus.World.Laws.{after_bind, db-statement, db-now}
use pingerus.World.Rows.{Time, Tables}

module _ {κ} {B : Type κ} (part : Tables → B) where
  -- The part is after the operation as it was before.
  pub record Fixes {ℓ} {A : Type ℓ} (m : Op A) : Type κ where
    pub same : (w : World) → part (m w).1.db ≡ part w.db

module _ {κ} {B : Type κ} {part : Tables → B} where
  pub now-Fixes : Fixes part now
  now-Fixes = record { same = λ w. ap part (db-now w) }

  pub statement-Fixes {ℓ} :
      {A : Type ℓ} (q : Time → Tables → Result A × Tables)
      → ((at : Time) (t : Tables) → part (q at t).1 ≡ part t)
      → Fixes part (statement background q)
  statement-Fixes q h = record {
    same = λ w. elim (db-statement q w) [
      | inl failed ↦ ap part failed
      | inr (at, ran) ↦ ap part ran ∙ h at w.db
    ];
  }

  pub bind-Fixes {ℓ μ} :
      {A : Type ℓ} {C : Type μ} {m : Op A} {f : A → Op C}
      → Fixes part m
      → ((a : A) → Fixes part (f a))
      → Fixes part (m >>= f)
  bind-Fixes {m} {f} h k = record {
    same = λ w.
        after_bind (λ v. part v.db ≡ part w.db) m f w (λ _ _. h.same w)
          (λ a _. (k a).same (m w).1 ∙ h.same w);
  }

  module _ {ℓ} {A : Type ℓ} where
    pub map_error-Fixes : (g : Error → Error) {m : Op A} → Fixes part m → Fixes part (map_error g m)
    unfolding map_error
    map_error-Fixes g h = record { same = h.same }

    pub wrapping-Fixes : (label : String) {m : Op A} → Fixes part m → Fixes part (wrapping label m)
    unfolding wrapping
    wrapping-Fixes label h = record { same = h.same }

    pub attempt-Fixes : {m : Op A} → Fixes part m → Fixes part (attempt m)
    unfolding attempt
    attempt-Fixes h = record { same = h.same }

    pub lift-Fixes : {r : Result A} → Fixes part (lift r)
    lift-Fixes = record { same = λ w. refl }

    pub pure-Fixes : {a : A} → Fixes part (pure a)
    pure-Fixes = record { same = λ w. refl }

    pub raise-Fixes : (e : Error) → Fixes part (raise {A = A} e)
    raise-Fixes e = record { same = λ w. refl }

    pub if-Fixes :
        (b : Bool) {m n : Op A} → Fixes part m → Fixes part n → Fixes part (if b then m else n)
    if-Fixes true h k = h
    if-Fixes false h k = k
