-- ===== src/Projection/Projector/Behind.antt =====
-- The rows of the events table behind the last id of a loop in projector.go, batch by batch.
use holdex_backend_cqrs.Prelude.{
  ℕ, zero, suc, ◌+◌, ◌≤◌, ◌<◌, ◌≡◌, refl, sym, ap, ◌∙◌, false, inl, inr, Bool-cases, List, [], ◌∷◌,
  All, arith, ltb, lt→ltb, length, take, drop, select, Ascending,
}
use holdex_backend_cqrs.Tables.{EventRow}
use holdex_backend_cqrs.Projection.Projector.Batch.{row_id, last_id_of}
use holdex_backend_cqrs.Projection.Projector.Rounds.{Ascending-past}

-- The rows behind an id, and the last id after them.
abbrev pub behind : ℕ → List EventRow → List EventRow
behind last_id rows = select (λ (r : EventRow). ltb last_id r.id) rows

last_id_of-le :
    (last lo : ℕ) (rows : List EventRow)
    → Ascending row_id lo rows
    → last ≤ lo
    → (k : ℕ) → last ≤ last_id_of last (take k rows)
last_id_of-le last lo rows a h zero = omega arith
last_id_of-le last lo [] a h (suc k) = omega arith
last_id_of-le last lo (r ∷ rows) a h (suc k) =
    omega (arith, last_id_of-le r.id (suc r.id) rows a.1 (omega arith) k, a.0)

behind-whole :
    (last lo : ℕ) (rows : List EventRow)
    → Ascending row_id lo rows
    → last < lo
    → behind last rows ≡ rows
behind-whole last lo [] a h = refl
behind-whole last lo (r ∷ rows) a h =
    rw (lt→ltb last r.id (omega (arith, a.0)))
      (ap (λ l. r ∷ l) (behind-whole last (suc r.id) rows a.1 (omega (arith, a.0))))

-- Behind the last id of a batch are the rows that it left.
behind-take :
    (last lo k : ℕ) (rows : List EventRow)
    → Ascending row_id lo rows
    → last < lo
    → behind (last_id_of last (take k rows)) rows ≡ drop k rows
behind-take last lo zero rows a h = behind-whole last lo rows a h
behind-take last lo (suc k) [] a h = refl
behind-take last lo (suc k) (r ∷ rows) a h =
    let m = last_id_of r.id (take k rows) in
    let passed : ltb m r.id ≡ false =
      ground (arith, last_id_of-le r.id (suc r.id) rows a.1 (omega arith) k) in
    rw passed (behind-take r.id (suc r.id) k rows a.1 (omega arith))

-- Behind a later id there are no more rows than behind an earlier one.
behind-behind :
    (last later : ℕ) (rows : List EventRow)
    → last ≤ later
    → behind later (behind last rows) ≡ behind later rows
behind-behind last later [] h = refl
behind-behind last later (r ∷ rows) h = ground (arith, behind-behind last later rows h)

pub behind-nil :
    (last : ℕ) (rows : List EventRow)
    → length (behind last rows) ≤ 0
    → All (λ (r : EventRow). r.id ≤ last) rows
behind-nil last [] h = tt
behind-nil last (r ∷ rows) h = elim (Bool-cases (ltb last r.id)) [
  | inl y ↦ absurd (omega (arith, rw y at h))
  | inr n ↦ (ground arith, behind-nil last rows (rw n at h))
]

pub behind-batch :
    (last k : ℕ) (rows : List EventRow)
    → Ascending row_id 0 rows
    → behind (last_id_of last (take k (behind last rows))) rows ≡ drop k (behind last rows)
behind-batch last k rows a =
    let past = Ascending-past 0 last rows a in
    sym (
      behind-behind last _ rows
        (last_id_of-le last (suc last) (behind last rows) past (omega arith) k))
    ∙ behind-take last (suc last) k (behind last rows) past (omega arith)

pub length-nil : (rows : List EventRow) → length rows ≤ 0 → rows ≡ []
length-nil [] h = refl
length-nil (r ∷ rows) h = absurd (omega (arith, h))

pub length-drop_le :
    (k m : ℕ) (rows : List EventRow) → length rows ≤ k + m → length (drop k rows) ≤ m
length-drop_le zero m rows h = omega (arith, h)
length-drop_le (suc k) m [] h = omega arith
length-drop_le (suc k) m (r ∷ rows) h = length-drop_le k m rows (omega (arith, h))
