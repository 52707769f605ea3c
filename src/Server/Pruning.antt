-- ===== src/Server/Pruning.antt =====
-- What the pruner leaves of the price history.
use holdex_backend_cqrs.Prelude.{
  ℕ, ◌+◌, ◌*◌, ◌^◌, ◌≤◌, ◌≡◌, refl, sym, ap, subst, ◌∙◌, Bool, not, List, [], ◌∷◌, arith, ltb, All,
  All-map, All-select_self, select,
}
use holdex_backend_cqrs.Result.{history_failed}
use holdex_backend_cqrs.Tables.{PriceRow}
use holdex_backend_cqrs.World.{World}
use holdex_backend_cqrs.World.Bind.{attempt_fault_free}
use holdex_backend_cqrs.Projection.ReadModel.{prune_price_history}
use holdex_backend_cqrs.Server.{prune_at, run_pruner}

abbrev pub week : ℕ
week = 7 * 24 * 3600 * 10 ^ 9

abbrev last_tick : ℕ → List ℕ → ℕ
last_tick now [] = now
last_tick now (tick ∷ ticks) = last_tick tick ticks

-- cutoff <= recorded_at
abbrev pub is_kept : ℕ → PriceRow → Bool
is_kept now r = not (ltb (r.recorded_at + week) now)

with_kept : ℕ → World → World
with_kept now w = record w { db = record w.db { history = select (is_kept now) w.db.history } }

prune_at-with_kept : (now : ℕ) (w : World) → w.faults ≡ [] → prune_at now w ≡ with_kept now w
unfolding prune_price_history with_kept
prune_at-with_kept now w h = ap (λ r. r.1) (attempt_fault_free history_failed _ w h)

-- A later cut takes what an earlier one would have.
select-is_kept :
    (now later : ℕ) (rows : List PriceRow)
    → now ≤ later
    → select (is_kept later) (select (is_kept now) rows) ≡ select (is_kept later) rows
select-is_kept now later [] h = refl
select-is_kept now later (r ∷ rs) h = ground (arith, select-is_kept now later rs h)

with_kept-with_kept :
    (now later : ℕ) (w : World)
    → now ≤ later
    → with_kept later (with_kept now w) ≡ with_kept later w
unfolding with_kept
with_kept-with_kept now later w h = rw (select-is_kept now later w.db.history h)

-- Times that do not go back.
abbrev pub IsForward : ℕ → List ℕ → Type 0
IsForward now [] = Unit
IsForward now (tick ∷ ticks) = (now ≤ tick) × IsForward tick ticks

le-last_tick : (now : ℕ) (ticks : List ℕ) → IsForward now ticks → now ≤ last_tick now ticks
le-last_tick now [] h = omega arith
le-last_tick now (tick ∷ ticks) h = omega (arith, h.0, le-last_tick tick ticks h.1)

run_pruner-with_kept :
    (now : ℕ) (ticks : List ℕ) (w : World)
    → w.faults ≡ []
    → IsForward now ticks
    → run_pruner now ticks w ≡ with_kept (last_tick now ticks) w
unfolding run_pruner with_kept
run_pruner-with_kept now [] w none_left h = prune_at-with_kept now w none_left
run_pruner-with_kept now (tick ∷ ticks) w none_left h =
    ap (run_pruner tick ticks) (prune_at-with_kept now w none_left)
    ∙ run_pruner-with_kept tick ticks (with_kept now w) none_left h.1
    ∙ with_kept-with_kept now (last_tick tick ticks) w
        (omega (arith, h.0, le-last_tick tick ticks h.1))

kept_recent :
    (now : ℕ) (rows : List PriceRow)
    → All (λ r. now ≤ r.recorded_at + week) (select (is_kept now) rows)
kept_recent now rows =
    All-map (λ r e. ground (arith, e)) (select (is_kept now) rows)
      (All-select_self (is_kept now) rows)

-- Where no call fails and the clock does not go back, the pruner's runs are worth one at its last
-- tick: it has deleted the points older than a week by then, and nothing else.
pub run_pruner_lem :
    (now : ℕ) (ticks : List ℕ) (w : World)
    → w.faults ≡ []
    → IsForward now ticks
    → (run_pruner now ticks w ≡ record w {
      db = record w.db { history = select (is_kept (last_tick now ticks)) w.db.history };
    })
      × All (λ r. last_tick now ticks ≤ r.recorded_at + week) (run_pruner now ticks w).db.history
unfolding with_kept
run_pruner_lem now ticks w none_left h =
    let same = run_pruner-with_kept now ticks w none_left h in
    (
      same,
      subst (λ v. All (λ r. last_tick now ticks ≤ r.recorded_at + week) v.db.history) (sym same)
          (kept_recent (last_tick now ticks) w.db.history),
    )
