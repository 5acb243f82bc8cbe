-- ===== src/Redis/Leaderboard/Refines.antt =====
-- The Lua script refines `RankScore`: a rebuilt board holds the scores of internal/core.
use mathlib.Core.Path.{ap₂}
use arena.Common.{
  ℕ, ◌+◌, ◌*◌, ℤ, pos, sub_ℕ, ◌+ℤ◌, ◌-ℤ◌, ◌*ℤ◌, ◌≤ℤ◌, eqb_ℤ_iff, wrap64, wrap64_self, wrap64-add,
  IsInt64, int_laws, String, true, false, ◌≡◌, ◌≢◌, refl, sym, ap, ◌∙◌, List, [], ◌∷◌, map, All,
  if◌then◌else◌, arith, Bool-cases, inl, inr,
}
use arena.Core.Scoring.{
  ScoreMode, speed, icpc, other, UserProblemStat, zset_scale, minutes, saturate, add_penalty,
  count_stat, tally, rank_score,
}
use arena.Redis.Leaderboard.{
  Run, script_cost, count, script_penalty, script_score, solve_minutes, run_of,
}

-- The runs that the solved problems of a participant stand for.
unfoldable pub solved_runs : ℤ → List (String × UserProblemStat) → List (String × Run)
solved_runs start [] = []
solved_runs start ((p, st) ∷ rest) =
    let runs = solved_runs start rest in if st.solved then (p, run_of st start) ∷ runs else runs

abbrev pub stats_of : List (String × UserProblemStat) → List UserProblemStat
stats_of = map (λ p. p.1)

-- What the minutes of ICPC mode assume: the problem was solved at a time behind the start.
abbrev pub IsTimed : ScoreMode → ℤ → UserProblemStat → Type 0
IsTimed speed start st = Unit
IsTimed icpc start st =
    (st.solved_at ≢ pos 0) × (start ≢ pos 0) × (pos 0 ≤ℤ minutes (st.solved_at -ℤ start))
IsTimed (other m) start st = ⊥

solve_minutes-timed :
    (s start : ℤ)
    → s ≢ pos 0
    → start ≢ pos 0
    → pos 0 ≤ℤ minutes (s -ℤ start)
    → solve_minutes s start ≡ minutes (s -ℤ start)
unfolding solve_minutes
solve_minutes-timed s start h k m = ground (arith, eqb_ℤ_iff s (pos 0), eqb_ℤ_iff start (pos 0))

wrap64-add_right : (a b : ℤ) → wrap64 (a +ℤ wrap64 b) ≡ wrap64 (a +ℤ b)
wrap64-add_right a b = ap wrap64 (+ℤ_comm a (wrap64 b)) ∙ wrap64-add b a ∙ ap wrap64 (+ℤ_comm b a)
  where
    +ℤ_comm : (a b : ℤ) → a +ℤ b ≡ b +ℤ a
    +ℤ_comm a b = omega int_laws

*ℤ_comm : (a b : ℤ) → a *ℤ b ≡ b *ℤ a
unfolding ◌*ℤ◌
*ℤ_comm a b = ground arith

regroup : (q m a : ℤ) → q +ℤ m +ℤ a ≡ q +ℤ (m +ℤ a)
regroup q m a = omega int_laws

-- One solved problem adds the same to both penalties, up to the wrap of int64.
add_penalty-script :
    (mode : ScoreMode) (start q : ℤ) (st : UserProblemStat)
    → IsTimed mode start st
    → add_penalty mode start (wrap64 q) st ≡ wrap64 (q +ℤ script_cost mode (run_of st start))
unfolding add_penalty script_cost run_of
add_penalty-script speed start q st h = wrap64-add q _
add_penalty-script icpc start q st (s, k, m) =
    let mins = minutes (st.solved_at -ℤ start) in
    wrap64-add_right (wrap64 (wrap64 q +ℤ mins)) (st.attempts *ℤ pos 20)
    ∙ ap (λ x. wrap64 (x +ℤ st.attempts *ℤ pos 20)) (wrap64-add q mins)
    ∙ wrap64-add (q +ℤ mins) (st.attempts *ℤ pos 20)
    ∙ ap wrap64 (regroup q mins (st.attempts *ℤ pos 20))
    ∙ ap₂ (λ x y. wrap64 (q +ℤ (x +ℤ y))) (sym (solve_minutes-timed st.solved_at start s k m))
        (*ℤ_comm st.attempts (pos 20))
add_penalty-script (other m) start q st h = absurd h

count_stat-solved :
    (mode : ScoreMode) (start : ℤ) (n : ℕ) (q : ℤ) (st : UserProblemStat)
    → IsTimed mode start st
    → st.solved ≡ true
    → count_stat mode start (record { solved = n; penalty = wrap64 q }) st
      ≡ record { solved = n + 1; penalty = wrap64 (q +ℤ script_cost mode (run_of st start)) }
unfolding count_stat
count_stat-solved mode start n q st h e =
    simp e (ap (λ x. record { solved = n + 1; penalty = x }) (add_penalty-script mode start q st h))

count_stat-unsolved :
    (mode : ScoreMode) (start : ℤ) (n : ℕ) (q : ℤ) (st : UserProblemStat)
    → st.solved ≡ false
    → count_stat mode start (record { solved = n; penalty = wrap64 q }) st
      ≡ record { solved = n; penalty = wrap64 q }
unfolding count_stat
count_stat-unsolved mode start n q st e = simp e

rank_of_tally : ScoreMode → ℤ → ℤ → List UserProblemStat → ℤ
rank_of_tally mode start q stats =
    let t = tally mode start (record { solved = 0; penalty = q }) stats in
    sub_ℕ (t.solved * zset_scale) (saturate t.penalty)

wrap64_zero : wrap64 (pos 0) ≡ pos 0
wrap64_zero = wrap64_self (pos 0) (omega arith)

-- The loops of `RankScore` and of the script, side by side.
tally-script :
    (mode : ScoreMode) (start : ℤ) (n : ℕ) (q : ℤ) (ps : List (String × UserProblemStat))
    → All (IsTimed mode start) (stats_of ps)
    → let t = tally mode start (record { solved = n; penalty = wrap64 q }) (stats_of ps) in
      (t.solved ≡ n + count (solved_runs start ps))
      × (t.penalty ≡ wrap64 (script_penalty mode q (solved_runs start ps)))
unfolding tally solved_runs script_penalty
tally-script mode start n q [] h = (omega arith, refl)
tally-script mode start n q ((p, st) ∷ rest) h = elim (Bool-cases st.solved) [
  | inl e ↦
      let (c, w) =
        tally-script mode start (n + 1) (q +ℤ script_cost mode (run_of st start)) rest h.1 in
      let step = count_stat-solved mode start n q st h.0 e in
      simp e (
        ap (λ t. (tally mode start t (stats_of rest)).solved) step ∙ c ∙ omega arith,
        ap (λ t. (tally mode start t (stats_of rest)).penalty) step ∙ w,
      )
  | inr e ↦
      let (c, w) = tally-script mode start n q rest h.1 in
      let step = count_stat-unsolved mode start n q st e in
      simp e (
        ap (λ t. (tally mode start t (stats_of rest)).solved) step ∙ c,
        ap (λ t. (tally mode start t (stats_of rest)).penalty) step ∙ w,
      )
]

-- From the same solved problems the script computes the score of `RankScore`, in either mode, as
-- long as the sum of the penalties is an int64 and, in ICPC mode, no solve precedes the start.
pub script_score-rank_score :
    (mode : ScoreMode) (start : ℤ) (ps : List (String × UserProblemStat))
    → All (IsTimed mode start) (stats_of ps)
    → IsInt64 (script_penalty mode (pos 0) (solved_runs start ps))
    → script_score mode (solved_runs start ps) ≡ rank_score mode (stats_of ps) start
unfolding script_score rank_score rank_of_tally
script_score-rank_score mode start ps h b =
    let (c, w) = tally-script mode start 0 (pos 0) ps h in
    ap₂ (λ (n : ℕ) p. sub_ℕ (n * zset_scale) (saturate p)) (sym (c ∙ omega arith))
      (sym (wrap64_self _ b) ∙ sym w)
    ∙ ap (λ z. rank_of_tally mode start z (stats_of ps)) wrap64_zero
