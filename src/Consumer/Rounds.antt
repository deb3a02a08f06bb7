-- ===== src/Consumer/Rounds.antt =====
-- What one round of Consume does, for a reader that goes through a partition in order.
use pingerus.Base.{
  suc, ◌+◌, ◌≤◌, ◌≡◌, refl, sym, ap, subst, ◌∙◌, ◌⊎◌, inl, inr, Bool, true, false, ◌∷◌, arith,
  Bool-cases,
}
use pingerus.World.{World}
use pingerus.World.Errors.{Error, sentinel, canceled, Result, ok, err}
use pingerus.Consumer.{
  Fetched, Reader, Handler, Loop, Round, stop, next, min_backoff, next_backoff, stop_if,
  after_commit, after_handler, after_fetch, round,
}
use pingerus.Consumer.Partitions.{Later, Later-trans, Later-refl, Partition}

module _ {S : Type 0} (r : Reader S) (p : Partition S r) (done : World → Bool) (h : Handler) where
  open p use {pending, committed}

  -- No message was taken.
  pub record Paused (l u : Loop S) : Type 0 where
    pub later : Later l.world u.world
    pub pending : pending u.reader ≡ pending l.reader
    pub committed : committed u.reader ≡ committed l.reader

  -- A round without a message: the loop waited.
  pub record Waited (l u : Loop S) : Type 0 where
    pub pause : Paused l u
    pub slept : l.world.clock + l.backoff ≤ u.world.clock
    pub backoff : u.backoff ≡ next_backoff l.backoff

  -- A round with a message: it was handed to the handler in the world `at`, and its offset was
  -- committed only if the handler returned no error.
  pub record Handed (l u : Loop S) (m : Fetched) : Type 0 where
    pub at : World
    pub before : Later l.world at
    pub after : Later (h m.key m.value at).1 u.world
    pub backoff : u.backoff ≡ min_backoff
    pub pending : pending l.reader ≡ m ∷ pending u.reader
    pub committed :
        (committed u.reader ≡ committed l.reader)
        ⊎ (((h m.key m.value at).0 ≡ ok tt) × (committed u.reader ≡ suc m.offset))

  abbrev pub Turn : Loop S → Loop S → Type 0
  Turn l u = Waited l u ⊎ ((m : Fetched) × Handed l u m)

  -- What was done in the round in which Consume returns.
  abbrev pub Rest : Loop S → Loop S → Type 0
  Rest l u = Paused l u ⊎ ((m : Fetched) × Handed l u m)

  -- What holds of a round: it stops with the context's error, or it is a turn.
  abbrev pub Post : Loop S → Round S → Type 0
  Post l (stop e u) = (e ≡ sentinel canceled) × Rest l u
  Post l (next u) = Turn l u

  stop_if-Post : (b : Bool) (l k u : Loop S) → Rest l k → Turn l u → Post l (stop_if r done h b k u)
  stop_if-Post true l k u rest turn = (refl, rest)
  stop_if-Post false l k u rest turn = turn

  -- What a commit of the message answers and leaves.
  record Committing (m : Fetched) (s : S) (w : World) (x : Result (Unit {0}) × S × World)
      : Type 0 where
    pending : pending x.1 ≡ pending s
    success : x.0 ≡ ok tt → committed x.1 ≡ suc m.offset
    either : (committed x.1 ≡ committed s) ⊎ (committed x.1 ≡ suc m.offset)
    later : Later w x.2

  commit-Committing : (m : Fetched) (s : S) (w : World) → Committing m s w (r.commit m s w)
  commit-Committing m s w = record {
    pending = p.commit_pending m s w;
    success = p.commit_done m s w;
    either = p.commit_either m s w;
    later = p.commit_later m s w;
  }

  commit-Post :
      (l : Loop S) (m : Fetched) (s : S) (at w : World)
      → Later l.world at
      → pending l.reader ≡ m ∷ pending s
      → committed s ≡ committed l.reader
      → (h m.key m.value at).0 ≡ ok tt
      → Later (h m.key m.value at).1 w
      → (x : Result (Unit {0}) × S × World) → Committing m s w x
      → Post l (after_commit r done h min_backoff x)
  commit-Post l m s at w before place kept fine after (ok u, s', w') c = inr (
    m,
    record {
      at = at;
      before = before;
      after = Later-trans after c.later;
      backoff = refl;
      pending = place ∙ ap (λ t. m ∷ t) (sym c.pending);
      committed = inr (fine, c.success refl);
    },
  )
  commit-Post l m s at w before place kept fine after (err e, s', w') c =
      stop_if-Post (done w') l u u (inr taken) (inr taken)
    where
      u : Loop S
      u = record { reader = s'; world = w'; backoff = min_backoff }

      taken : (n : Fetched) × Handed l u n
      taken = (
        m,
        record {
          at = at;
          before = before;
          after = Later-trans after c.later;
          backoff = refl;
          pending = place ∙ ap (λ t. m ∷ t) (sym c.pending);
          committed = elim c.either [
            | inl same ↦ inl (same ∙ kept)
            | inr moved ↦ inr (fine, moved)
          ];
        },
      )

  handler-Post :
      (l : Loop S) (m : Fetched) (s : S) (at : World)
      → Later l.world at
      → pending l.reader ≡ m ∷ pending s
      → committed s ≡ committed l.reader
      → (x : Result (Unit {0}) × World) → x ≡ h m.key m.value at
      → Post l (after_handler r done h m s x)
  handler-Post l m s at before place kept (ok u, w) e =
      commit-Post l m s at w before place kept (ap (λ y. y.0) (sym e))
        (subst (λ y. Later y.1 w) e (Later-refl w)) (r.commit m s w) (commit-Committing m s w)
  handler-Post l m s at before place kept (err x, w) e = inr (
    m,
    record {
      at = at;
      before = before;
      after = subst (λ y. Later y.1 w) e (Later-refl w);
      backoff = refl;
      pending = place;
      committed = inl kept;
    },
  )

  -- What a fetch answers and leaves.
  record Fetching (s : S) (w : World) (x : Result Fetched × S × World) : Type 0 where
    found : (m : Fetched) → x.0 ≡ ok m → pending s ≡ m ∷ pending x.1
    missed : (e : Error) → x.0 ≡ err e → pending x.1 ≡ pending s
    keeps : committed x.1 ≡ committed s
    later : Later w x.2

  fetch-Fetching : (s : S) (w : World) → Fetching s w (r.fetch s w)
  fetch-Fetching s w = record {
    found = p.fetched s w;
    missed = p.missed s w;
    keeps = p.fetch_keeps s w;
    later = p.fetch_later s w;
  }

  fetch-Post :
      (l : Loop S) (x : Result Fetched × S × World)
      → Fetching l.reader l.world x
      → Post l (after_fetch r done h l.backoff x)
  fetch-Post l (ok m, s, w) f =
      handler-Post l m s w f.later (f.found m refl) f.keeps (h m.key m.value w) refl
  fetch-Post l (err e, s, w) f =
      stop_if-Post (done w) l _ _
        (inl (record { later = f.later; pending = f.missed e refl; committed = f.keeps }))
        (inl (record {
          pause = record {
            later = record {
              db = f.later.db;
              mails = f.later.mails;
              published = f.later.published;
              clock = omega (arith, f.later.clock);
            };
            pending = f.missed e refl;
            committed = f.keeps;
          };
          slept = omega (arith, f.later.clock);
          backoff = refl;
        }))

  pub round-Post : (l : Loop S) → Post l (round r done h l)
  unfolding round
  round-Post l = elim (Bool-cases (done l.world)) [
    | inl over ↦
        rw over
          (refl, inl (record { later = Later-refl l.world; pending = refl; committed = refl }))
    | inr going ↦
        rw going (fetch-Post l (r.fetch l.reader l.world) (fetch-Fetching l.reader l.world))
  ]
