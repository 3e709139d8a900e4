-- ===== src/Trader/Service/Metrics.antt =====
-- The win rate of a trader.
use fxcore.Prelude.{
  ℕ, suc, ◌+◌, ◌<◌, ◌≤◌, ◌^◌, ◌≡◌, refl, sym, ◌∙◌, ap, String, str_eq, Bool, true, false, ◌&&◌,
  ◌||◌, not, List, [], ◌∷◌, ◌==◌, arith, if◌then◌else◌, is_some, length, count, count-bound,
}
use fxcore.Prelude.Int.{pos}
use fxcore.Prelude.Float.{Float64, CountsExactly}
use fxcore.Model.Trader.{Position}

bound_if : (b : Bool) (n l m : ℕ) → n + suc l ≤ m → n + (if b then 1 else 0) + l ≤ m
bound_if b n l m h = ground arith

module _ {F : Type 0} ⦃f : Float64 F⦄ where
  abbrev one : F
  one = f.dec 1 0

  abbrev nil : F
  nil = f.dec 0 0

  -- The positions that count.
  abbrev pub is_closed_of : String → Position F → Bool
  is_closed_of trader_id p = not (not (str_eq p.trader_id trader_id) || not (is_some p.closed_at))

  abbrev pub is_win : Position F → Bool
  is_win p = f.lt nil p.pnl

  -- The loop, from the wins and the total so far.
  tally : String → F → F → List (Position F) → F × F
  tally trader_id wins total [] = (wins, total)
  tally trader_id wins total (p ∷ ps) =
      tally trader_id (if is_closed_of trader_id p && is_win p then f.add wins one else wins)
        (if is_closed_of trader_id p then f.add total one else total) ps

  abbrev ratio : F × F → F
  ratio (wins, total) = if f.eq total nil then nil else f.div wins total

  unfoldable pub calc_win_rate : List (Position F) → String → F
  unfolding tally
  calc_win_rate ps trader_id = ratio (tally trader_id nil nil ps)

  -- The positions of the trader that are closed, and those of them with a profit.
  abbrev pub closed_count : String → List (Position F) → ℕ
  closed_count trader_id ps = count (is_closed_of trader_id) ps

  abbrev pub win_count : String → List (Position F) → ℕ
  win_count trader_id ps = count (λ p. is_closed_of trader_id p && is_win p) ps

  exactly :
      (a b c d : ℕ)
      → a ≡ b
      → c ≡ d
      → ◌≡◌ {A = F × F} (f.of_int (pos a), f.of_int (pos c)) (f.of_int (pos b), f.of_int (pos d))
  exactly a b c d p q = rw (p, q) refl

  add_one :
      CountsExactly F
      → (b : Bool) (n : ℕ) → n < 2 ^ 53
      → (if b then f.add (f.of_int (pos n)) one else f.of_int (pos n))
        ≡ f.of_int (pos (n + (if b then 1 else 0)))
  add_one h true n below = rw (h.counts n below) (ap (λ k. f.of_int (pos k)) (omega arith))
  add_one h false n below = ap (λ k. f.of_int (pos k)) (omega arith)

  tally-eq :
      CountsExactly F
      → (trader_id : String) (w n : ℕ) (ps : List (Position F)) → w + length ps ≤ 2 ^ 53
      → n + length ps ≤ 2 ^ 53
      → tally trader_id (f.of_int (pos w)) (f.of_int (pos n)) ps ≡ (
        f.of_int (pos (w + win_count trader_id ps)),
        f.of_int (pos (n + closed_count trader_id ps)),
      )
  unfolding tally
  tally-eq h trader_id w n [] p q = exactly w (w + 0) n (n + 0) (omega arith) (omega arith)
  tally-eq h trader_id w n (x ∷ ps) p q =
      let b = is_closed_of trader_id x && is_win x in
      let c = is_closed_of trader_id x in
      rw (add_one h b w (omega (arith, p)), add_one h c n (omega (arith, q)))
        (tally-eq h trader_id (w + (if b then 1 else 0)) (n + (if c then 1 else 0)) ps
            (bound_if b w (length ps) (2 ^ 53) p) (bound_if c n (length ps) (2 ^ 53) q)
          ∙ exactly (w + (if b then 1 else 0) + win_count trader_id ps)
              (w + win_count trader_id (x ∷ ps))
              (n + (if c then 1 else 0) + closed_count trader_id ps)
              (n + closed_count trader_id (x ∷ ps)) (omega arith) (omega arith))

  tallied :
      CountsExactly F
      → (trader_id : String) (ps : List (Position F)) → length ps ≤ 2 ^ 53
      → tally trader_id (f.dec 0 0) (f.dec 0 0) ps
        ≡ (f.of_int (pos (win_count trader_id ps)), f.of_int (pos (closed_count trader_id ps)))
  tallied h trader_id ps small = rw (sym h.starts) (
      tally-eq h trader_id 0 0 ps (omega arith) (omega arith)
      ∙ exactly (0 + win_count trader_id ps) (win_count trader_id ps)
          (0 + closed_count trader_id ps) (closed_count trader_id ps) (omega arith) (omega arith))

  -- The win rate is the share of the trader's closed positions that have a profit, and 0 if none is
  -- closed, for at most 2^53 positions.
  pub calc_win_rate_lem :
      CountsExactly F
      → (trader_id : String) (ps : List (Position F)) → length ps ≤ 2 ^ 53
      → calc_win_rate ps trader_id ≡ (
          if closed_count trader_id ps == 0
          then f.dec 0 0
          else f.div
              (f.of_int (pos (win_count trader_id ps)))
              (f.of_int (pos (closed_count trader_id ps))))
  unfolding calc_win_rate
  calc_win_rate_lem h trader_id ps small =
      rw (tallied h trader_id ps small, h.is_zero (closed_count trader_id ps) few) refl
    where
      few : closed_count trader_id ps ≤ 2 ^ 53
      few = omega (arith, count-bound (is_closed_of trader_id) ps)
