-- ===== src/Postgres/Checks/Ids.antt =====
-- The identifiers of the table checks: SERIAL numbers, newest first, all different.
use pingerus.Base.{
  some, ℕ, ◌≤◌, ◌<◌, ◌≡◌, ◌≢◌, refl, Bool, not, some, List, [], ◌∷◌, arith, find?, select, modify,
}
use pingerus.Base.Int.{ℤ, pos, pos_part, int_eq, int_eq_iff}
use pingerus.World.Rows.{CheckRow}
use pingerus.Postgres.Checks.{has_id}

-- The identifiers fall along the list, below the next value of the sequence.
abbrev pub IdsBelow : ℕ → List CheckRow → Type 0
IdsBelow n [] = Unit {0}
IdsBelow n (r ∷ rs) =
    (r.id ≡ pos (pos_part r.id)) × (pos_part r.id < n) × IdsBelow (pos_part r.id) rs

-- The rows of one user.
abbrev pub rows_of : ℤ → List CheckRow → List CheckRow
rows_of user = select (λ r. int_eq r.user_id user)

module _ (f : CheckRow → CheckRow) where
  modify_above :
      (n : ℕ) (id : ℤ) (rs : List CheckRow)
      → n ≤ pos_part id
      → IdsBelow n rs
      → modify (has_id id) f rs ≡ rs
  modify_above n id [] h b = refl
  modify_above n id (r ∷ rs) h b =
      ground (arith, int_eq_iff r.id id, modify_above (pos_part r.id) id rs)

IdsBelow-mono : {m n : ℕ} (rs : List CheckRow) → m ≤ n → IdsBelow m rs → IdsBelow n rs
IdsBelow-mono [] h b = tt
IdsBelow-mono (r ∷ rs) h b = (b.0, omega arith, b.2)

pub modify-IdsBelow :
    (p : CheckRow → Bool) (f : CheckRow → CheckRow) (n : ℕ) (rs : List CheckRow)
    → ((r : CheckRow) → (f r).id ≡ r.id)
    → IdsBelow n rs
    → IdsBelow n (modify p f rs)
modify-IdsBelow p f n [] keep b = tt
modify-IdsBelow p f n (r ∷ rs) keep b =
    ground (arith, keep r, modify-IdsBelow p f (pos_part r.id) rs keep)

pub select-IdsBelow :
    (p : CheckRow → Bool) (n : ℕ) (rs : List CheckRow) → IdsBelow n rs → IdsBelow n (select p rs)
select-IdsBelow p n [] b = tt
select-IdsBelow p n (r ∷ rs) b = ground (
  arith,
  select-IdsBelow p (pos_part r.id) rs b.2,
  IdsBelow-mono {m = pos_part r.id} {n = n} (select p rs),
)

module _ (user owner : ℤ) (id : ℤ) (ne : user ≢ owner) where
  -- A change of a row that another user owns does not show in this user's rows.
  pub rows_of-modify :
      (f : CheckRow → CheckRow) (n : ℕ) (rs : List CheckRow) (r : CheckRow)
      → ((x : CheckRow) → (f x).user_id ≡ x.user_id)
      → IdsBelow n rs
      → find? (has_id id) rs ≡ some r
      → r.user_id ≡ owner
      → rows_of user (modify (has_id id) f rs) ≡ rows_of user rs
  rows_of-modify f n [] r keep b e o = refl
  rows_of-modify f n (x ∷ rs) r keep b e o = ground (
    arith,
    keep x,
    int_eq_iff x.id id,
    int_eq_iff x.user_id user,
    modify_above f (pos_part x.id) id rs,
    rows_of-modify f (pos_part x.id) rs r keep,
  )

  select_above :
      (n : ℕ) (rs : List CheckRow)
      → n ≤ pos_part id
      → IdsBelow n rs
      → select (λ x. not (has_id id x)) rs ≡ rs
  select_above n [] h b = refl
  select_above n (x ∷ rs) h b = ground (arith, int_eq_iff x.id id, select_above (pos_part x.id) rs)

  pub rows_of-delete :
      (n : ℕ) (rs : List CheckRow) (r : CheckRow)
      → IdsBelow n rs
      → find? (has_id id) rs ≡ some r
      → r.user_id ≡ owner
      → rows_of user (select (λ x. not (has_id id x)) rs) ≡ rows_of user rs
  rows_of-delete n [] r b e o = refl
  rows_of-delete n (x ∷ rs) r b e o = ground (
    arith,
    int_eq_iff x.id id,
    int_eq_iff x.user_id user,
    select_above (pos_part x.id) rs,
    rows_of-delete (pos_part x.id) rs r,
  )

-- A row that is looked up after a change of the row is the changed row.
pub find?-modify :
    (id : ℤ) (f : CheckRow → CheckRow) (rs : List CheckRow) {r : CheckRow}
    → ((x : CheckRow) → (f x).id ≡ x.id)
    → find? (has_id id) rs ≡ some r
    → find? (has_id id) (modify (has_id id) f rs) ≡ some (f r)
find?-modify id f [] keep e = cc
find?-modify id f (x ∷ xs) {r} keep e = ground (arith, keep x, find?-modify id f xs {r = r} keep)
