-- ===== src/Core/Scoring/Ranking.antt =====
-- What a rank score says: problems solved come first, then the lower penalty, in any map order.
use mathlib.Core.List.{Perm, Permᴰ}
use mathlib.Core.Logic.{∥∥₁_elim}
use mathlib.Core.Path.{ap₂}
use arena.Common.{
  ℕ, suc, ◌+◌, ◌*◌, ◌<◌, ℤ, pos, negsuc, ◌+ℤ◌, wrap64, ◌<ℤ◌, ◌≤ℤ◌, sub_ℕ, ◌≡◌, refl, ap, ◌∙◌, List,
  [], ◌∷◌, arith, int_laws, sub_ℕ_parts, wrap64-add, sym, if◌then◌else◌,
}
use arena.Core.Scoring.{
  ScoreMode, speed, icpc, other, UserProblemStat, zset_scale, Tally, add_penalty, count_stat, tally,
  saturate, rank_score,
}

-- How many of the problems are solved.
unfoldable pub solved_count : List UserProblemStat → ℕ
solved_count [] = 0
solved_count (s ∷ stats) = let rest = solved_count stats in if s.solved then suc rest else rest

saturate-lt : (p : ℤ) → saturate p < zset_scale
unfolding saturate
saturate-lt (pos n) = ground arith
saturate-lt (negsuc n) = omega arith

tally-solved :
    (mode : ScoreMode) (start : ℤ) (t : Tally) (stats : List UserProblemStat)
    → (tally mode start t stats).solved ≡ t.solved + solved_count stats
unfolding tally solved_count count_stat
tally-solved mode start t [] = omega arith
tally-solved mode start t (s ∷ stats) =
    ground (arith, tally-solved mode start (count_stat mode start t s) stats)

rank_score_form :
    (mode : ScoreMode) (start : ℤ) (stats : List UserProblemStat)
    → (p : ℕ) × (rank_score mode stats start ≡ sub_ℕ (solved_count stats * zset_scale) p)
      × (p < zset_scale)
unfolding rank_score
rank_score_form mode start stats =
    let t = tally mode start (record { solved = 0; penalty = pos 0 }) stats in
    (
      saturate t.penalty,
      ap (λ (n : ℕ). sub_ℕ (n * zset_scale) (saturate t.penalty))
          (tally-solved mode start (record { solved = 0; penalty = pos 0 }) stats ∙ omega arith),
      saturate-lt t.penalty,
    )

-- A participant who solved more problems ranks strictly higher, whatever the penalties, and even
-- where their sum overflows; and the score lies within one scale below the solved problems.
pub rank_score-solved :
    (mode : ScoreMode) (start : ℤ) (a b : List UserProblemStat)
    → solved_count a < solved_count b
    → (rank_score mode a start <ℤ rank_score mode b start)
      × (pos (solved_count b * zset_scale) <ℤ rank_score mode b start +ℤ pos zset_scale)
      × (rank_score mode b start ≤ℤ pos (solved_count b * zset_scale))
rank_score-solved mode start a b h =
    let (p, ea, pb) = rank_score_form mode start a in
    let (q, eb, qb) = rank_score_form mode start b in
    rw (ea, eb)
      (omega (int_laws, sub_ℕ_parts), omega (int_laws, sub_ℕ_parts), omega (int_laws, sub_ℕ_parts))

wrap64_swap : (p a b : ℤ) → wrap64 (wrap64 (p +ℤ a) +ℤ b) ≡ wrap64 (wrap64 (p +ℤ b) +ℤ a)
wrap64_swap p a b = wrap64-add (p +ℤ a) b ∙ ap wrap64 (regroup p a b) ∙ sym (wrap64-add (p +ℤ b) a)
  where
    regroup : (p a b : ℤ) → p +ℤ a +ℤ b ≡ p +ℤ b +ℤ a
    regroup p a b = omega int_laws

wrap64_merge : (p a b : ℤ) → wrap64 (wrap64 (p +ℤ a) +ℤ b) ≡ wrap64 (p +ℤ (a +ℤ b))
wrap64_merge p a b = wrap64-add (p +ℤ a) b ∙ ap wrap64 (regroup p a b)
  where
    regroup : (p a b : ℤ) → p +ℤ a +ℤ b ≡ p +ℤ (a +ℤ b)
    regroup p a b = omega int_laws

exchange : (p a b c d : ℤ) → p +ℤ (a +ℤ b +ℤ c +ℤ d) ≡ p +ℤ (c +ℤ d +ℤ a +ℤ b)
exchange p a b c d = omega int_laws

add_penalty_swap :
    (mode : ScoreMode) (start p : ℤ) (x y : UserProblemStat)
    → add_penalty mode start (add_penalty mode start p x) y
      ≡ add_penalty mode start (add_penalty mode start p y) x
unfolding add_penalty
add_penalty_swap speed start p x y = wrap64_swap p _ _
add_penalty_swap icpc start p x y = simp wrap64_merge (ap wrap64 (exchange p _ _ _ _))
add_penalty_swap (other m) start p x y = refl

swap_stats :
    (mode : ScoreMode) (start : ℤ) (t : Tally) (x y : UserProblemStat)
    → count_stat mode start (count_stat mode start t x) y
      ≡ count_stat mode start (count_stat mode start t y) x
unfolding count_stat
swap_stats mode start t x y = ground (arith, add_penalty_swap mode start t.penalty x y)

tally-perm :
    (mode : ScoreMode) (start : ℤ) (t : Tally) {xs ys : List UserProblemStat}
    → Permᴰ xs ys
    → tally mode start t xs ≡ tally mode start t ys
unfolding tally
tally-perm mode start t Permᴰ.nil = refl
tally-perm mode start t (Permᴰ.cons {a} {b} {l₁} {l₂} e p) =
    tally-perm mode start (count_stat mode start t a) p
    ∙ ap (λ x. tally mode start (count_stat mode start t x) l₂) e
tally-perm mode start t (Permᴰ.swap {a} {b} {a'} {b'} {l} e f) =
    ap (λ x. tally mode start x l) (swap_stats mode start t a b)
    ∙ ap₂ (λ x y. tally mode start (count_stat mode start (count_stat mode start t x) y) l) f e
tally-perm mode start t (Permᴰ.trans p q) = tally-perm mode start t p ∙ tally-perm mode start t q

ℤ-set : IsSet ℤ
ℤ-set = hlevel

-- The score does not depend on the order in which Go iterates over the map of problems.
pub rank_score-perm :
    (mode : ScoreMode) (start : ℤ) {xs ys : List UserProblemStat}
    → Perm xs ys
    → rank_score mode xs start ≡ rank_score mode ys start
unfolding rank_score
rank_score-perm mode start p = ∥∥₁_elim p (ℤ-set _ _) (λ q.
    ap (λ (t : Tally). sub_ℕ (t.solved * zset_scale) (saturate t.penalty))
      (tally-perm mode start (record { solved = 0; penalty = pos 0 }) q))
