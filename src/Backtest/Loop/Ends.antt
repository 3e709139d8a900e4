-- ===== src/Backtest/Loop/Ends.antt =====
-- The loop of a run comes to its end.
use fxcore.Prelude.{
  ℕ, zero, suc, ◌+◌, ◌-◌, ◌*◌, ◌/◌, ◌^◌, ◌≤◌, ◌<◌, ◌≡◌, ◌⊎◌, refl, ap, subst, sym, ◌∙◌, true, false,
  ◌&&◌, Option, none, some, String, List, arith, Bool-cases, inl, inr,
}
use fxcore.Backtest.Setup.{new_run, cycle_seconds, cycles_of}
use fxcore.Prelude.Int.{ℤ, pos, pos_part, ◌-ℤ◌, quot, ◌+ℤ◌, ◌*ℤ◌, leb_ℤ, wrap64, wrap64-small}
use fxcore.Prelude.Float.{Float64}
use fxcore.Backtest.{RunState, is_running, is_paused, Run, BacktestRun, BacktestTrade, Config}
use fxcore.Backtest.Control.{synced_record, max_drawdown}
use fxcore.Backtest.Loop.Steady.{on_symbols-Steady}
use fxcore.Backtest.Replaying.{Replay, snapshot, finish, written, is_due, begun}
use fxcore.Backtest.Loop.{Beat, on_symbols, closed_off, on_cycle, turn, turns}

times_sixty : (c : ℕ) → pos c *ℤ pos 60 ≡ pos (c * 60)
unfolding ◌*ℤ◌
times_sixty c = ground arith

plus_pos : (a b : ℕ) → pos a +ℤ pos b ≡ pos (a + b)
unfolding ◌+ℤ◌
plus_pos a b = ground arith

seconds_pos : (c : ℕ) → c * 60 < 2 ^ 63 → cycle_seconds (pos c) ≡ pos (c * 60)
unfolding cycle_seconds
seconds_pos c h = rw (times_sixty c) (wrap64-small (c * 60) h)

-- As long as the sum stays below 2^63, the window moves on by a cycle.
next_window :
    (w c : ℕ) → w + c * 60 < 2 ^ 63 → wrap64 (pos w +ℤ cycle_seconds (pos c)) ≡ pos (w + c * 60)
next_window w c h =
    rw (seconds_pos c (omega arith), plus_pos w (c * 60)) (wrap64-small (w + c * 60) h)

-- The number of cycles times their length covers the window.
covers : (a end d : ℕ) → end ≤ a + ((end - a) / suc d + 1) * suc d
covers a end d = grind arith

minus_pos : (a end : ℕ) → a ≤ end → pos end -ℤ pos a ≡ pos (end - a)
unfolding ◌-ℤ◌
minus_pos a end h = ground arith

cycles_pos :
    (a end d : ℕ) (cadence : ℤ)
    → cycle_seconds cadence ≡ pos (suc (suc d))
    → a ≤ end
    → end < 2 ^ 63
    → cycles_of (pos a) (pos end) cadence ≡ pos ((end - a) / suc (suc d) + 1)
unfolding cycles_of quot
cycles_pos a end d cadence e h b =
    let small : (end - a) / suc (suc d) + 1 < 2 ^ 63 = grind arith in
    rw (e, minus_pos a end h, wrap64-small (end - a) (omega arith))
      (rw (plus_pos ((end - a) / suc (suc d)) 1) (wrap64-small ((end - a) / suc (suc d) + 1) small))

covers_ℤ :
    (a end c : ℕ)
    → a ≤ end
    → end + suc c * 60 < 2 ^ 63
    → end ≤ a + pos_part (cycles_of (pos a) (pos end) (pos (suc c))) * (suc c * 60)
covers_ℤ a end c h b =
    let d : suc c * 60 ≡ suc (suc (c * 60 + 58)) = omega arith in
    let e : cycle_seconds (pos (suc c)) ≡ pos (suc (suc (c * 60 + 58))) =
      seconds_pos (suc c) (omega arith) ∙ ap pos d in
    rw (cycles_pos a end (c * 60 + 58) (pos (suc c)) e h (omega arith), d)
      (covers a end (suc (c * 60 + 58)))

module _ {F : Type 0} ⦃f : Float64 F⦄ where
  -- The loop has returned, with the run completed or liquidated, and the store knows it.
  abbrev pub Ended : Replay F → Type 0
  Ended s =
      (s.over ≡ true)
      × ((s.run.state ≡ RunState.completed) ⊎ (s.run.state ≡ RunState.liquidated))
      × ((r : BacktestRun F) → s.saved ≡ some r → r.state ≡ s.run.state)

  written-state :
      (now : ℕ) (run : Run F) (o : Option (BacktestRun F)) (r : BacktestRun F)
      → written now run o ≡ some r
      → r.state ≡ run.state
  written-state now run none r e = cc
  written-state now run (some b) r e =
      subst (λ (x : BacktestRun F). x.state ≡ run.state) {x = synced_record now (some run) b}
        {y = r} (cc) refl

  finish-Ended :
      (now : ℕ) (state : RunState) (error : String) (s : Replay F)
      → (state ≡ RunState.completed) ⊎ (state ≡ RunState.liquidated)
      → Ended (finish now state error s)
  unfolding finish
  finish-Ended now state error s h = (refl, h, λ r e. written-state now _ s.saved r e)

  -- A run that goes on.
  abbrev pub Going : ℕ → ℕ → Replay F → Type 0
  Going c end s =
      (s.over ≡ false)
      × (s.run.state ≡ RunState.running)
      × (s.run.cfg.cadence ≡ pos c)
      × (s.run.cfg.end_time ≡ pos end)

  module _ {M : Type 0} where
    -- What follows the snapshot ends the run, or moves it on to the next window.
    closed_off-cases :
        (b : Beat F M) (run_id : String) (cycle c end : ℕ) (we : ℤ) (s : Replay F)
        → Going c end s
        → Ended (closed_off b run_id cycle we s)
          ⊎ (Going c end (closed_off b run_id cycle we s)
              × ((closed_off b run_id cycle we s).window_start ≡ we))
    unfolding closed_off
    closed_off-cases b run_id cycle c end we s g =
        elim (Bool-cases (
          f.lt (f.mul s.run.cfg.initial_balance (f.dec 105 2)) s.run.peak_equity
          && f.le (f.dec 40 0) (max_drawdown s.run))) [
            | inl e ↦ rw e (inl (finish-Ended b.now RunState.liquidated _ _ (inr refl)))
            | inr e ↦ elim (Bool-cases (f.le s.run.equity (f.dec 0 0))) [
              | inl q ↦ rw (e, q) (inl (finish-Ended b.now RunState.liquidated _ _ (inr refl)))
              | inr q ↦ elim (Bool-cases (is_due cycle b.now s.last_saved)) [
                | inl d ↦ rw (e, q, d) (inr (g, refl))
                | inr d ↦ rw (e, q, d) (inr (g, refl))
              ]
            ]
          ]

    on_cycle-cases :
        (b : Beat F M) (run_id : String) (cycle c end w : ℕ) (s : Replay F)
        → end + c * 60 < 2 ^ 63
        → Going c end s
        → s.window_start ≡ pos w
        → Ended (on_cycle b run_id cycle s)
          ⊎ ((suc w ≤ end)
              × Going c end (on_cycle b run_id cycle s)
              × ((on_cycle b run_id cycle s).window_start ≡ pos (w + c * 60)))
    unfolding on_cycle snapshot
    on_cycle-cases b run_id cycle c end w s bound (o, st, ca, en) ws =
        let we = wrap64 (s.window_start +ℤ cycle_seconds s.run.cfg.cadence) in
        let s1 = on_symbols b run_id cycle s.run.cfg.symbols s in
        let s2 = snapshot run_id cycle we s1 in
        let ((cf, sta, _), _, ov) = on_symbols-Steady b run_id cycle s.run.cfg.symbols s in
        elim (Bool-cases (leb_ℤ s.run.cfg.end_time s.window_start)) [
          | inl e ↦ rw e (inl (finish-Ended b.now RunState.completed "" s (inl refl)))
          | inr e ↦
              let r = closed_off-cases b run_id cycle c end we s2 (
                ov ∙ o,
                sta ∙ st,
                ap (λ (x : Config F). x.cadence) cf ∙ ca,
                ap (λ (x : Config F). x.end_time) cf ∙ en,
              ) in
              let below : leb_ℤ (pos end) (pos w) ≡ false = rw (en, ws) at e in
              let early : suc w ≤ end = ground arith in
              let window : wrap64 (s.window_start +ℤ cycle_seconds s.run.cfg.cadence)
                  ≡ pos (w + c * 60) =
                rw (ws, ca) (next_window w c (omega arith)) in
              rw e (elim r [ inl x ↦ inl x | inr (g, q) ↦ inr (early, g, q ∙ window) ])
        ]

    turn-over :
        (b : Beat F M) (run_id : String) (s : Replay F) → s.over ≡ true → turn b run_id s ≡ s
    unfolding turn
    turn-over b run_id s h = rw h refl

    turns-over :
        (beats : ℕ → Beat F M) (run_id : String) (i n : ℕ) (s : Replay F)
        → s.over ≡ true
        → turns beats run_id i n s ≡ s
    unfolding turns
    turns-over beats run_id i zero s h = refl
    turns-over beats run_id i (suc n) s h =
        rw (turn-over (beats i) run_id s h) (turns-over beats run_id (i + 1) n s h)

    turn-going :
        (b : Beat F M) (run_id : String) (s : Replay F)
        → b.cancelled ≡ false
        → s.over ≡ false
        → s.run.state ≡ RunState.running
        → turn b run_id s
          ≡ on_cycle b run_id
              (s.run.cycle + 1)
              (record s { run = record (s.run) { cycle = s.run.cycle + 1 } })
    unfolding turn
    turn-going b run_id s quiet o st =
        let paused : is_paused s.run.state ≡ false = rw st refl in
        let runs : is_running s.run.state ≡ true = rw st refl in simp (o, quiet, paused, runs)

    turn-cases :
        (b : Beat F M) (run_id : String) (c end w : ℕ) (s : Replay F)
        → b.cancelled ≡ false
        → end + c * 60 < 2 ^ 63
        → Going c end s
        → s.window_start ≡ pos w
        → Ended (turn b run_id s)
          ⊎ ((suc w ≤ end)
              × Going c end (turn b run_id s)
              × ((turn b run_id s).window_start ≡ pos (w + c * 60)))
    turn-cases b run_id c end w s quiet bound (o, st, ca, en) ws =
        let s1 : Replay F = record s { run = record (s.run) { cycle = s.run.cycle + 1 } } in
        rw (turn-going b run_id s quiet o st)
          (on_cycle-cases b run_id (s.run.cycle + 1) c end w s1 bound (o, st, ca, en) ws)

    turns-Ended :
        (beats : ℕ → Beat F M) (run_id : String) (i n c end w : ℕ) (s : Replay F)
        → ((j : ℕ) → (beats j).cancelled ≡ false)
        → end + c * 60 < 2 ^ 63
        → Going c end s
        → s.window_start ≡ pos w
        → end ≤ w + n * (c * 60)
        → Ended (turns beats run_id i (suc n) s)
    unfolding turns
    turns-Ended beats run_id i zero c end w s quiet bound g ws h =
        elim (turn-cases (beats i) run_id c end w s (quiet i) bound g ws) [
          | inl x ↦ x
          | inr (lt, g', ws') ↦ absurd (omega arith)
        ]
    turns-Ended beats run_id i (suc n) c end w s quiet bound g ws h =
        elim (turn-cases (beats i) run_id c end w s (quiet i) bound g ws) [
          | inl x ↦
              subst Ended
                (sym (turns-over beats run_id (i + 1) (suc n) (turn (beats i) run_id s) x.0)) x
          | inr (lt, g', ws') ↦
              turns-Ended beats run_id (i + 1) n c end (w + c * 60) (turn (beats i) run_id s) quiet
                bound g' ws' (grind arith)
        ]

    -- With a start of 0 or more and no later than its end, a cadence above 0, an end that stays below
    -- 2^63 with the seconds of one cycle added, and no cancellation and no call in between, the loop of a new run returns within one turn more than its number of
    -- cycles. The run is then completed or liquidated, and a record that the store has of it says so.
    pub run_ends :
        (beats : ℕ → Beat F M) (run_id user : String) (cfg : Config F)
        (saved : Option (BacktestRun F)) (trades : List (BacktestTrade F)) (a c end : ℕ)
        → ((j : ℕ) → (beats j).cancelled ≡ false)
        → cfg.start_time ≡ pos a
        → cfg.end_time ≡ pos end
        → cfg.cadence ≡ pos (suc c)
        → a ≤ end
        → end + suc c * 60 < 2 ^ 63
        → let r = new_run user cfg in
          Ended (turns beats run_id 0 (suc (pos_part r.total_cycles)) (begun r saved trades))
    run_ends beats run_id user cfg saved trades a c end quiet ha he hc order bound =
        let r = new_run user cfg in
        turns-Ended beats run_id 0 (pos_part r.total_cycles) (suc c) end a (begun r saved trades)
          quiet bound (refl, refl, hc, he) ha (rw (ha, he, hc) (covers_ℤ a end c order bound))
