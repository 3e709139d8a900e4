-- ===== src/Debate/Votes/Winner.antt =====
-- The winner among the weighed actions.
use fxcore.Prelude.{
  ◌≡◌, ◌∙◌, refl, inl, inr, Bool, true, false, String, [], ◌∷◌, arith, All, Bool-cases,
}
use fxcore.Prelude.Float.{Float64}
use fxcore.Prelude.Dict.{Dict}
use fxcore.Debate.Votes.{Acc, best_from, best_of, DebateVote}

module _ {F : Type 0} ⦃f : Float64 F⦄ where
  -- `<` is transitive, as it is for floats, NaN included.
  abbrev pub IsTransitive : (F → F → Bool) → Type 0
  IsTransitive lt = (a b c : F) → lt a b ≡ true → lt b c ≡ true → lt a c ≡ true

  -- No action of the map weighs more.
  abbrev pub IsHeaviest : F → Dict (Acc F) → Type 0
  IsHeaviest weight m = All (λ e. f.lt weight e.1.weight ≡ false) m

  best_from-above :
      IsTransitive f.lt
      → (best : String) (w c : F) (m : Dict (Acc F)) → f.lt w c ≡ false
      → f.lt (best_from best w m).1 c ≡ false
  unfolding best_from
  best_from-above h best w c [] p = p
  best_from-above h best w c ((k, a) ∷ m) p = elim (Bool-cases (f.lt w a.weight)) [
    | inr e ↦ rw e (best_from-above h best w c m p)
    | inl e ↦ rw e (best_from-above h k a.weight c m (ground (arith, p, e, h w a.weight c)))
  ]

  best_from-IsHeaviest :
      IsTransitive f.lt
      → ((a : F) → f.lt a a ≡ false)
      → (best : String) (w : F) (m : Dict (Acc F)) (top : F) → top ≡ (best_from best w m).1
      → IsHeaviest top m
  unfolding best_from
  best_from-IsHeaviest h r best w [] top q = tt
  best_from-IsHeaviest h r best w ((k, a) ∷ m) top q = elim (Bool-cases (f.lt w a.weight)) [
    | inr e ↦
        let q' : top ≡ (best_from best w m).1 = q ∙ rw e refl in
        (rw q' (best_from-above h best w a.weight m e), best_from-IsHeaviest h r best w m top q')
    | inl e ↦
        let q' : top ≡ (best_from k a.weight m).1 = q ∙ rw e refl in
        (
          rw q' (best_from-above h k a.weight a.weight m (r a.weight)),
          best_from-IsHeaviest h r k a.weight m top q',
        )
  ]

  -- In whatever order the map is run through, no action weighs more than the winner, if `<` is
  -- transitive and irreflexive.
  pub best_of-IsHeaviest :
      IsTransitive f.lt
      → ((a : F) → f.lt a a ≡ false)
      → (m : Dict (Acc F)) → IsHeaviest (best_of m).1 m
  unfolding best_of
  best_of-IsHeaviest h r m = best_from-IsHeaviest h r "" (f.dec 0 0) m (best_of m).1 refl

  -- Of two actions of one positive weight the one that the iteration meets first wins: the two orders
  -- of the map have different winners, and no tie ends in waiting.
  pub tie_order :
      (a b : String) (x y : DebateVote F) (w : F)
      → f.lt (f.dec 0 0) w ≡ true
      → f.lt w w ≡ false
      → let first : Acc F = record { weight = w; sample = x } in
        let second : Acc F = record { weight = w; sample = y } in
        ((best_of ((a, first) ∷ (b, second) ∷ [])).0 ≡ a)
        × ((best_of ((b, second) ∷ (a, first) ∷ [])).0 ≡ b)
  unfolding best_of best_from
  tie_order a b x y w p q = (rw (p, q) refl, rw (p, q) refl)
