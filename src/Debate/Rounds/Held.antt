-- ===== src/Debate/Rounds/Held.antt =====
-- A whole debate: what was said in it and which votes were entered.
use fxcore.Prelude.{
  ℕ, zero, suc, ◌+◌, ◌≤◌, ◌≡◌, ◌⊎◌, refl, sym, ap, subst, str_eq, ◌∙◌, Bool, true, false, ◌&&◌, not,
  Option, none, some, String, List, [], ◌∷◌, ◌++◌, All, arith, if◌then◌else◌, ltb, length,
  Bool-cases, Option-cases, inl, inr,
}
use mathlib.Core.List.{append_assoc, append-nil}
use fxcore.Prelude.Float.{Float64}
use fxcore.Prelude.Text.{Text, codes}
use fxcore.Model.Chat.{Reply, content, failed}
use fxcore.Kernel.Parse.{valid_action, fix_full_width}
use fxcore.Debate.Votes.{DebateVote, aggregate}
use fxcore.Debate.Sessions.{DebateStatus, Session, set_status, opens}
use fxcore.Debate.Ballot.{
  Participant, cast_vote, accepted, judged, read_vote, vote_in, asked, extract_json_object,
}
use fxcore.Debate.Rounds.{
  Floor, Setting, initial, vote_start, round_end, told, looked, spoken, speak_all, opened_round,
  rounds, cast, ballot, vote_all, settled, after_votes, after_rounds, debate_loop, votes_of,
}
use fxcore.Debate.Rounds.Agenda.{held, agenda, rounds-Covers}

module _ {F : Type 0} where
  -- A vote that may be entered: one of the six actions, for the session and its symbol.
  abbrev pub Counts : String → String → DebateVote F → Type 0
  Counts id symbol v = (valid_action v.action ≡ true) × (v.session_id ≡ id) × (v.symbol ≡ symbol)

  accepted-valid :
      (p : Participant) (symbol : String) (v w : DebateVote F)
      → accepted p symbol v ≡ some w
      → valid_action w.action ≡ true
  accepted-valid p symbol v w h = elim (Bool-cases (valid_action v.action)) [
    | inl e ↦
        let w' : DebateVote F = record v {
          session_id = p.session_id;
          ai_model_id = p.ai_model_id;
          symbol = if str_eq v.symbol "" then symbol else v.symbol;
        } in
        let h' : some w' ≡ some w = rw e at h in
        subst (λ (x : DebateVote F). valid_action x.action ≡ true) {x = w'} {y = w} (cc) e
    | inr e ↦ cc (rw e at h)
  ]

  judged-valid :
      (p : Participant) (symbol : String) (o : Option (DebateVote F)) (w : DebateVote F)
      → judged p symbol o ≡ some w
      → valid_action w.action ≡ true
  judged-valid p symbol none w h = cc
  judged-valid p symbol (some v) w h = accepted-valid p symbol v w h

  read_vote-valid :
      (json : Text → Option (DebateVote F)) (p : Participant) (symbol : String) (t : Text)
      (w : DebateVote F)
      → read_vote json p symbol t ≡ some w
      → valid_action w.action ≡ true
  read_vote-valid json p symbol [] w h = cc
  read_vote-valid json p symbol (c ∷ cs) w h =
      judged-valid p symbol (json (fix_full_width (c ∷ cs))) w h

  vote_in-valid :
      (json : Text → Option (DebateVote F)) (p : Participant) (symbol : String) (r : Reply)
      (w : DebateVote F)
      → vote_in json p symbol r ≡ some w
      → valid_action w.action ≡ true
  vote_in-valid json p symbol (failed msg) w h = cc
  vote_in-valid json p symbol (content text ms) w h =
      read_vote-valid json p symbol (extract_json_object (codes text)) w h

  -- The votes that were there, and at most so many new ones, each of which counts.
  abbrev pub Adds : ℕ → String → String → Floor F → Floor F → Type 0
  Adds n id symbol s s' =
      (vs : List (DebateVote F)) × (s'.votes ≡ s.votes ++ vs)
      × (length vs ≤ n)
      × All (Counts id symbol) vs

module _ {F M : Type 0} where
  asked-valid :
      (chat : M → Reply) (json : Text → Option (DebateVote F)) (p : Participant) (symbol : String)
      (o : Option M) (w : DebateVote F)
      → asked chat json p symbol o ≡ some w
      → valid_action w.action ≡ true
  asked-valid chat json p symbol none w h = cc
  asked-valid chat json p symbol (some m) w h = vote_in-valid json p symbol (chat m) w h

  ballot-valid :
      (e : Setting F M) (symbol : String) (p : Participant) (w : DebateVote F)
      → ballot e symbol p ≡ some w
      → valid_action w.action ≡ true
  unfolding cast_vote
  ballot-valid e symbol p w h =
      asked-valid (λ m. e.chat m (e.vote_prompt p symbol)) e.json p symbol
        (e.get_model p.ai_model_id) w h

  vote_all-Adds :
      (e : Setting F M) (id symbol : String) (ps : List Participant) (s : Floor F)
      → let s' = (vote_all e id symbol ps s).1 in
        Adds (length ps) id symbol s s' × (s'.messages ≡ s.messages)
  unfolding vote_all
  vote_all-Adds e id symbol [] s = (([], sym (append-nil s.votes), omega arith, tt), refl)
  vote_all-Adds e id symbol (p ∷ ps) s = elim (Bool-cases (e.cancelled s.looks)) [
    | inl stop ↦ simp stop (([], sym (append-nil s.votes), omega arith, tt), refl)
    | inr on ↦ elim (Option-cases (ballot e symbol p)) [
      | inl q ↦
          let ((vs, same, few, good), kept) = vote_all-Adds e id symbol ps (looked s) in
          simp (on, q) ((vs, same, omega (arith, few), good), kept)
      | inr (v, q) ↦
          let v' : DebateVote F = record v {
            session_id = id;
            ai_model_id = p.ai_model_id;
            symbol = symbol;
          } in
          let ((vs, same, few, good), kept) =
            vote_all-Adds e id symbol ps (cast id symbol p (some v) (looked s)) in
          simp (on, q)
            (
              (
                v' ∷ vs,
                same ∙ append_assoc s.votes (v' ∷ []) vs,
                omega (arith, few),
                ((ballot-valid e symbol p v q, refl, refl), good),
              ),
              kept,
            )
    ]
  ]

  speak_all-votes :
      (e : Setting F M) (id symbol : String) (round : ℕ) (ps : List Participant) (s : Floor F)
      → (speak_all e id symbol round ps s).1.votes ≡ s.votes
  unfolding speak_all
  speak_all-votes e id symbol round [] s = refl
  speak_all-votes e id symbol round (p ∷ ps) s = elim (Bool-cases (e.cancelled s.looks)) [
    | inl stop ↦ simp stop
    | inr on ↦
        simp on (speak_all-votes e id symbol round ps (spoken e id symbol round p (looked s)))
  ]

  rounds-votes :
      (e : Setting F M) (id symbol : String) (ps : List Participant) (round left : ℕ) (s : Floor F)
      → (rounds e id symbol ps round left s).1.votes ≡ s.votes
  unfolding rounds
  rounds-votes e id symbol ps round zero s = refl
  rounds-votes e id symbol ps round (suc left) s =
      let s0 = opened_round e id round s in
      let x = speak_all e id symbol round ps s0 in
      let said = speak_all-votes e id symbol round ps s0 in
      elim (Bool-cases (e.cancelled s.looks)) [
        | inl stop ↦ simp stop
        | inr on ↦ elim (Bool-cases x.0) [
          | inl go ↦
              simp (on, go)
                (rounds-votes e id symbol ps (round + 1) left (told (round_end round) x.1) ∙ said)
          | inr cut ↦ simp (on, cut) said
        ]
      ]

  module _ ⦃f : Float64 F⦄ where
    -- Neither the consensus nor its execution touches the messages and the votes.
    settled-kept :
        (e : Setting F M) (id : String) (auto : Bool) (own : Session F) (s : Floor F)
        → let s' = settled e id auto own s in (s'.messages ≡ s.messages) × (s'.votes ≡ s.votes)
    unfolding settled
    settled-kept e id auto own s =
        let verdict = aggregate e.shuffle id (votes_of id s.votes) in
        elim (Bool-cases (auto && (opens verdict && not (str_eq own.meta.trader_id "")))) [
          | inl q ↦ rw q (refl, refl)
          | inr q ↦ rw q (refl, refl)
        ]

    after_votes-kept :
        (e : Setting F M) (id : String) (auto : Bool) (own : Session F) (x : Bool × Floor F)
        → let s' = after_votes e id auto own x in
          (s'.messages ≡ x.1.messages) × (s'.votes ≡ x.1.votes)
    after_votes-kept e id auto own (true, s) = settled-kept e id auto own s
    after_votes-kept e id auto own (false, s) = (refl, refl)

    after_rounds-lem :
        (e : Setting F M) (id : String) (auto : Bool) (ps : List Participant) (own : Session F)
        (x : Bool × Floor F)
        → let s' = after_rounds e id auto ps own x in
          (s'.messages ≡ x.1.messages)
          × Adds (length ps) id own.meta.symbol x.1 s'
          × ((x.0 ≡ true) ⊎ (s'.votes ≡ x.1.votes))
    after_rounds-lem e id auto ps own (false, s) =
        (refl, ([], sym (append-nil s.votes), omega arith, tt), inr refl)
    after_rounds-lem e id auto ps own (true, s) =
        let s1 =
          told vote_start (record s { world = set_status e.now id DebateStatus.voting s.world }) in
        let x = vote_all e id own.meta.symbol ps s1 in
        let ((vs, same, few, good), kept) = vote_all-Adds e id own.meta.symbol ps s1 in
        let (m, v) = after_votes-kept e id auto own x in
        (m ∙ kept, (vs, v ∙ same, few, good), inl refl)

    -- In a debate of two or more participants, the messages that are entered are the first of this
    -- agenda: each round up to the last, and in each every participant once, in order. The votes that
    -- are entered are at most one for each participant, each of them for one of the six actions, the
    -- session and its symbol; and there is none unless the whole agenda was gone through.
    pub debate_loop_lem :
        (e : Setting F M) (id : String) (auto : Bool) (max_rounds : ℕ) (ps : List Participant)
        (own : Session F) (s : Floor F)
        → 2 ≤ length ps
        → let s' = debate_loop e id auto max_rounds ps own s in
          (rest : List (ℕ × String)) × (held s'.messages ++ rest
            ≡ held s.messages ++ agenda ps 1 max_rounds)
          × Adds (length ps) id own.meta.symbol s s'
          × ((rest ≡ []) ⊎ (s'.votes ≡ s.votes))
    unfolding debate_loop
    debate_loop_lem e id auto max_rounds ps own s enough =
        let s0 = told (initial (length ps)) s in
        let x = rounds e id own.meta.symbol ps 1 max_rounds s0 in
        let (rest, same, over) = rounds-Covers e id own.meta.symbol ps 1 max_rounds s0 in
        let kept = rounds-votes e id own.meta.symbol ps 1 max_rounds s0 in
        let (m, (vs, v, few, good), all) = after_rounds-lem e id auto ps own x in
        let many : ltb (length ps) 2 ≡ false = ground arith in
        rw many (
          rest,
          ap (λ l. held l ++ rest) m ∙ same,
          (vs, v ∙ ap (λ l. l ++ vs) kept, few, good),
          elim all [ inl go ↦ inl (over go) | inr none_new ↦ inr (none_new ∙ kept) ],
        )
