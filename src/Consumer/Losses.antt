-- ===== src/Consumer/Losses.antt =====
-- What a commit passes over: the handler's errors do not hold it back.
use pingerus.Base.{
  suc, ◌≤◌, ◌<◌, ◌≡◌, subst, sym, inl, inr, Bool, List, [], ◌∷◌, ◌++◌, All, In, arith,
}
use pingerus.World.{World}
use pingerus.World.Errors.{ok}
use pingerus.Consumer.{Fetched, Reader, Handler, Loop}
use pingerus.Consumer.Partitions.{Partition}
use pingerus.Consumer.Runs.{Reach, Through, Reach-Progress}

-- The offsets ascend.
abbrev pub IsAscending : List Fetched → Type 0
IsAscending [] = Unit
IsAscending (x ∷ xs) = All (λ y. x.offset < y.offset) xs × IsAscending xs

abbrev IsPast : Fetched → List Fetched → Type 0
IsPast m xs = All (λ y. m.offset < y.offset) xs

IsPast-tail : (m : Fetched) (xs ys : List Fetched) → IsPast m (xs ++ ys) → IsPast m ys
IsPast-tail m [] ys h = h
IsPast-tail m (x ∷ xs) ys h = IsPast-tail m xs ys h.1

-- What is behind a message of the first part is behind the whole of the second.
In-IsPast : (n : Fetched) (xs ys : List Fetched) → IsAscending (xs ++ ys) → In n xs → IsPast n ys
In-IsPast n [] ys h place = absurd place
In-IsPast n (x ∷ xs) ys h (inl e) = subst (λ m. IsPast m ys) (sym e) (IsPast-tail x xs ys h.0)
In-IsPast n (x ∷ xs) ys h (inr place) = In-IsPast n xs ys h.1 place

IsPast-mono : (m n : Fetched) (xs : List Fetched) → m.offset ≤ n.offset → IsPast n xs → IsPast m xs
IsPast-mono m n [] low h = tt
IsPast-mono m n (x ∷ xs) low h = let first = h.0 in (omega arith, IsPast-mono m n xs low h.1)

from_IsPast :
    (m n : Fetched) (xs : List Fetched)
    → m.offset < suc n.offset
    → All (λ x. suc n.offset ≤ x.offset) xs
    → IsPast m xs
from_IsPast m n [] low h = tt
from_IsPast m n (x ∷ xs) low h = let first = h.0 in (omega arith, from_IsPast m n xs low h.1)

-- A message that is not past the other one stands in the first part.
In-first :
    (m n : Fetched) (xs ys : List Fetched)
    → In m (xs ++ ys)
    → m.offset ≤ n.offset
    → IsPast n ys
    → In m xs
In-first m n [] [] place low h = absurd place
In-first m n [] (y ∷ ys) (inl e) low h =
    absurd (let first = subst (λ x. n.offset < x.offset) (sym e) h.0 in omega arith)
In-first m n [] (y ∷ ys) (inr place) low h = In-first m n [] ys place low h.1
In-first m n (x ∷ xs) ys (inl e) low h = inl e
In-first m n (x ∷ xs) ys (inr place) low h = inr (In-first m n xs ys place low h)

module _ {S : Type 0} (r : Reader S) (p : Partition S r) (done : World → Bool) (h : Handler)
    (restart : S → S) where
  open p use {pending, committed}

  -- The message was handed to the handler, and neither the reader nor a new one of the group comes to
  -- it again; the offset of the group is that after a message on which the handler returned no error.
  pub record IsPassed (l t : Loop S) (m : Fetched) : Type 0 where
    messages : List Fetched
    handed : Through h l.world messages t.world
    among : In m messages
    last : Fetched
    moved : committed t.reader ≡ suc last.offset
    fine : (at : World) × ((h last.key last.value at).0 ≡ ok tt)
    gone : All (λ x. m.offset < x.offset) (pending t.reader)
    gone_for_group : All (λ x. m.offset < x.offset) (pending (restart t.reader))

  -- For a reader with the laws of Partition, where the offsets of the partition ascend and a new reader of
  -- the group starts no earlier than at the offset of the group: a message of the partition that this
  -- offset has passed since the start was handed to the handler, and whatever the handler answered on
  -- it, neither this reader nor a new one of the group comes to it again; the offset is that after some
  -- message on which the handler returned no error.
  pub Reach-IsPassed :
      ((s : S) → All (λ x. committed s ≤ x.offset) (pending (restart s)))
      → (l t : Loop S) → IsAscending (pending l.reader)
      → Reach r done h l t
      → (m : Fetched) → In m (pending l.reader)
      → committed l.reader ≤ m.offset
      → m.offset < committed t.reader
      → IsPassed l t m
  Reach-IsPassed restarted l t ascending reach m there new passed =
      let g = Reach-Progress r p done h l reach in
      elim g.commits [
        | inl same ↦ absurd (let e = same in omega arith)
        | inr (n, place, moved, fine) ↦
            let rows : IsAscending (g.messages ++ pending t.reader) =
              subst IsAscending g.in_order ascending in
            let behind = In-IsPast n g.messages (pending t.reader) rows place in
            let low : m.offset ≤ n.offset = omega arith in
            record {
              messages = g.messages;
              handed = g.handled;
              among =
                  In-first m n g.messages (pending t.reader) (subst (In m) g.in_order there) low
                    behind;
              last = n;
              moved = moved;
              fine = fine;
              gone = IsPast-mono m n (pending t.reader) low behind;
              gone_for_group = from_IsPast m n (pending (restart t.reader)) (omega arith) (
                  subst (λ k. All (λ x. k ≤ x.offset) (pending (restart t.reader))) moved
                    (restarted t.reader));
            }
      ]
