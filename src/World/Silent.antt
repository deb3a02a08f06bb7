-- ===== src/World/Silent.antt =====
-- Operations that send nothing to Kafka, however they end.
use pingerus.Base.{arith, none, some, Option, ◌≡◌, refl, ◌∙◌, String}
use pingerus.World.{
  World, Op, Context, background, with_tx, Tx, statement, begin, commit, rollback, wrapping,
  deferring_rollback, ◌>>=◌,
}
use pingerus.World.Errors.{Result, ok}
use pingerus.World.Rows.{Time, Tables}
use pingerus.World.Laws.{published-interact, after_bind}

module _ {ℓ} {A : Type ℓ} where
  unfoldable pub IsSilent : Op A → Type 0
  IsSilent m = (w : World) → (m w).1.published ≡ w.published

  pub statement-IsSilent :
      (c : Context) (q : Time → Tables → Result A × Tables) → IsSilent (statement c q)
  unfolding statement IsSilent
  statement-IsSilent background q w = ground (arith, published-interact w)
  statement-IsSilent with_tx q w = ground (arith, published-interact w)

  pub wrapping-IsSilent : (label : String) (m : Op A) → IsSilent m → IsSilent (wrapping label m)
  unfolding wrapping IsSilent
  wrapping-IsSilent label m h = h

  pub pure-IsSilent : (a : A) → IsSilent (λ w. (ok a, w))
  unfolding IsSilent
  pure-IsSilent a w = refl

pub begin-IsSilent : IsSilent begin
unfolding begin IsSilent
begin-IsSilent w = ground (arith, published-interact w)

pub commit-IsSilent : IsSilent commit
unfolding commit IsSilent
commit-IsSilent w = ground (arith, published-interact w)

pub rollback-IsSilent : IsSilent rollback
unfolding rollback IsSilent
rollback-IsSilent w = ground (arith, published-interact w)

close-published {ℓ} :
    {A : Type ℓ} (m : Op A) (w : World) (t : Option Tx)
    → (m w).1.tx ≡ t
    → (deferring_rollback m w).1.published ≡ (m w).1.published
unfolding deferring_rollback IsSilent
close-published m w none e = rw e refl
close-published m w (some tx) e = rw e (rollback-IsSilent (m w).1)

module _ {ℓ} {A : Type ℓ} where
  pub deferring_rollback-IsSilent : (m : Op A) → IsSilent m → IsSilent (deferring_rollback m)
  unfolding IsSilent
  deferring_rollback-IsSilent m h w = close-published m w (m w).1.tx refl ∙ h w

  pub bind-IsSilent {κ} :
      {B : Type κ} (m : Op A) (f : A → Op B)
      → IsSilent m
      → ((a : A) → IsSilent (f a))
      → IsSilent (m >>= f)
  unfolding IsSilent
  bind-IsSilent m f first then w =
      after_bind (λ v. v.published ≡ w.published) m f w (λ _ _. first w)
        (λ a _. then a (m w).1 ∙ first w)
