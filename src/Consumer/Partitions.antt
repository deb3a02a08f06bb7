-- ===== src/Consumer/Partitions.antt =====
-- What is relied on of kafka-go's reader, for one partition of a topic.
use pingerus.Base.{ℕ, suc, ◌≤◌, ◌≡◌, refl, ◌∙◌, ◌⊎◌, List, ◌∷◌, arith}
use pingerus.World.{World}
use pingerus.World.Errors.{Error, ok, err}
use pingerus.Consumer.{Fetched, Reader}

-- Time passes, and nothing else.
pub record Later (w v : World) : Type 0 where
  pub db : v.db ≡ w.db
  pub mails : v.mails ≡ w.mails
  pub published : v.published ≡ w.published
  pub clock : w.clock ≤ v.clock

pub Later-trans : {a b c : World} → Later a b → Later b c → Later a c
Later-trans x y = record {
  db = y.db ∙ x.db;
  mails = y.mails ∙ x.mails;
  published = y.published ∙ x.published;
  clock = omega (arith, x.clock, y.clock);
}

-- What kafka-go says of a reader in a consumer group: `pending` is the part of the partition from its
-- position on, and `committed` the offset from which a new reader of the group would start.
pub record Partition (S : Type 0) (r : Reader S) : Type 0 where
  pub pending : S → List Fetched
  pub committed : S → ℕ
  pub fetched :
      (s : S) (w : World) (m : Fetched)
      → (r.fetch s w).0 ≡ ok m
      → pending s ≡ m ∷ pending (r.fetch s w).1
  pub missed :
      (s : S) (w : World) (e : Error)
      → (r.fetch s w).0 ≡ err e
      → pending (r.fetch s w).1 ≡ pending s
  pub fetch_keeps : (s : S) (w : World) → committed (r.fetch s w).1 ≡ committed s
  pub fetch_later : (s : S) (w : World) → Later w (r.fetch s w).2
  pub commit_pending : (m : Fetched) (s : S) (w : World) → pending (r.commit m s w).1 ≡ pending s
  pub commit_done :
      (m : Fetched) (s : S) (w : World)
      → (r.commit m s w).0 ≡ ok tt
      → committed (r.commit m s w).1 ≡ suc m.offset
  pub commit_either :
      (m : Fetched) (s : S) (w : World)
      → (committed (r.commit m s w).1 ≡ committed s) ⊎ (committed (r.commit m s w).1 ≡ suc m.offset)
  pub commit_later : (m : Fetched) (s : S) (w : World) → Later w (r.commit m s w).2

pub Later-refl : (w : World) → Later w w
Later-refl w = record { db = refl; mails = refl; published = refl; clock = omega arith }
