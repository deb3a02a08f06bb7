-- ===== src/Consumer/Runs.antt =====
-- The states that the loop of Consume goes through.
use pingerus.Base.{
  ℕ, suc, ◌≤◌, ◌≡◌, refl, sym, ap, subst, In-append, In-last, append-cons, ◌∙◌, ◌⊎◌, inl, inr, Bool,
  List, [], ◌∷◌, ◌++◌, In, arith,
}
use pingerus.World.{World}
use pingerus.World.Errors.{ok}
use pingerus.Consumer.{
  Fetched, Reader, Handler, Loop, next, min_backoff, max_backoff, next_backoff, round,
}
use pingerus.Consumer.Partitions.{Later, Later-trans, Later-refl, Partition}
use pingerus.Consumer.Rounds.{Paused, Rest, Handed, Turn, Post, round-Post}

-- The states in which Consume begins a round, after it was started in the state `l`.
pub data Reach {S : Type 0} (r : Reader S) (done : World → Bool) (h : Handler) (l : Loop S)
    : Loop S → Type 0 where
  here : Reach r done h l l
  again : {t u : Loop S} → Reach r done h l t → round r done h t ≡ next u → Reach r done h l u

-- The handler was called on the messages in their order, and otherwise only time passed.
pub data Through (h : Handler) (w : World) : List Fetched → World → Type 0 where
  quiet : {v : World} → Later w v → Through h w [] v
  called :
      {ms : List Fetched} {v : World} (m : Fetched) {at u : World}
      → Through h w ms v
      → Later v at
      → Later (h m.key m.value at).1 u
      → Through h w (ms ++ m ∷ []) u

pub next_backoff-bounds :
    (b : ℕ) → min_backoff ≤ b → (min_backoff ≤ next_backoff b) × (next_backoff b ≤ max_backoff)
unfolding next_backoff
next_backoff-bounds b low = ground arith

module _ {S : Type 0} (r : Reader S) (p : Partition S r) (done : World → Bool) (h : Handler)
    (l : Loop S) where
  open p use {pending, committed}

  -- The offset in the group is as it was, or it is that after one of the messages, on which the handler
  -- returned no error.
  abbrev pub Committed : List Fetched → Loop S → Type 0
  Committed ms t =
      (committed t.reader ≡ committed l.reader)
      ⊎ ((m : Fetched) × In m ms
          × (committed t.reader ≡ suc m.offset)
          × ((at : World) × ((h m.key m.value at).0 ≡ ok tt)))

  -- Where the loop is, and the messages that it has handed over.
  pub record Progress (t : Loop S) : Type 0 where
    pub messages : List Fetched
    pub in_order : pending l.reader ≡ messages ++ pending t.reader
    pub handled : Through h l.world messages t.world
    pub commits : Committed messages t

  next-Turn : (t u : Loop S) → round r done h t ≡ next u → Turn r p done h t u
  next-Turn t u e = subst (Post r p done h t) e (round-Post r p done h t)

  Through-Later :
      {w v u : World} {ms : List Fetched} → Through h w ms v → Later v u → Through h w ms u
  Through-Later (quiet x) y = quiet (Later-trans x y)
  Through-Later (called m before call after) y = called m before call (Later-trans after y)

  more-Committed :
      (ms : List Fetched) (m : Fetched) (t u : Loop S)
      → Handed r p done h t u m
      → Committed ms t
      → Committed (ms ++ m ∷ []) u
  more-Committed ms m t u x c = elim x.committed [
    | inl same ↦ elim c [
      | inl old ↦ inl (same ∙ old)
      | inr (n, place, at, fine) ↦ inr (n, In-append n ms (m ∷ []) place, same ∙ at, fine)
    ]
    | inr (fine, moved) ↦ inr (m, In-last m ms, moved, (x.at, fine))
  ]

  pause-Progress : (t u : Loop S) → Paused r p done h t u → Progress t → Progress u
  pause-Progress t u x g = record {
    messages = g.messages;
    in_order = g.in_order ∙ ap (λ s. g.messages ++ s) (sym x.pending);
    handled = Through-Later g.handled x.later;
    commits = elim g.commits [
      | inl old ↦ inl (x.committed ∙ old)
      | inr (n, place, at, fine) ↦ inr (n, place, x.committed ∙ at, fine)
    ];
  }

  hand-Progress : (t u : Loop S) (m : Fetched) → Handed r p done h t u m → Progress t → Progress u
  hand-Progress t u m x g = record {
    messages = g.messages ++ m ∷ [];
    in_order =
        g.in_order
        ∙ ap (λ s. g.messages ++ s) x.pending
        ∙ sym (append-cons g.messages m (pending u.reader));
    handled = called m g.handled x.before x.after;
    commits = more-Committed g.messages m t u x g.commits;
  }

  pub Rest-Progress : (t u : Loop S) → Rest r p done h t u → Progress t → Progress u
  Rest-Progress t u (inl x) g = pause-Progress t u x g
  Rest-Progress t u (inr (m, x)) g = hand-Progress t u m x g

  pub step-Progress : (t u : Loop S) → Turn r p done h t u → Progress t → Progress u
  step-Progress t u (inl x) g = pause-Progress t u x.pause g
  step-Progress t u (inr (m, x)) g = hand-Progress t u m x g

  -- For a reader with the laws of Partition: whichever calls fail, when Consume begins a round, it
  -- has handed a first part of the messages of the partition to the handler, each of them once and in
  -- their order, and touched nothing else; and the offset in the group is unchanged, or it is that
  -- after one of these messages on which the handler returned no error.
  pub Reach-Progress : {t : Loop S} → Reach r done h l t → Progress t
  Reach-Progress here = record {
    messages = [];
    in_order = refl;
    handled = quiet (Later-refl l.world);
    commits = inl refl;
  }
  Reach-Progress (again {t} {u} reach e) =
      step-Progress t u (next-Turn t u e) (Reach-Progress reach)

  -- For a reader with the laws of Partition: the waiting time after a fetch that fails is 200 ms to 5 s
  -- throughout, if it is at the start.
  pub Reach-backoff :
      {t : Loop S}
      → Reach r done h l t
      → min_backoff ≤ l.backoff
      → l.backoff ≤ max_backoff
      → (min_backoff ≤ t.backoff) × (t.backoff ≤ max_backoff)
  Reach-backoff here low high = (low, high)
  Reach-backoff (again {t} {u} reach e) low high =
      let (lo, hi) = Reach-backoff reach low high in step_backoff t u lo hi (next-Turn t u e)
    where
      step_backoff :
          (t u : Loop S)
          → min_backoff ≤ t.backoff
          → t.backoff ≤ max_backoff
          → Turn r p done h t u
          → (min_backoff ≤ u.backoff) × (u.backoff ≤ max_backoff)
      step_backoff t u lo hi (inl x) = rw x.backoff (next_backoff-bounds t.backoff lo)
      step_backoff t u lo hi (inr (m, x)) = rw x.backoff (omega arith, omega arith)
