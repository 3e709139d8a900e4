-- ===== src/Debate/Ballot/Object.antt =====
-- The object that is found in a model's answer.
use fxcore.Prelude.{
  ℕ, suc, ◌≡◌, refl, true, false, none, some, [], ◌∷◌, ◌++◌, arith, leb, length, take, take-append,
  drop-append, length-append,
}
use mathlib.Core.List.{append_assoc}
use fxcore.Prelude.Text.{Text, index}
use fxcore.Prelude.Text.Search.{lacks, index-marker}
use fxcore.Kernel.Parse.{json_fence}
use fxcore.Debate.Ballot.{last_index, braced, extract_json_object}

last_index-lacks : (c : ℕ) (s : Text) → lacks c s ≡ true → last_index s c ≡ none
unfolding last_index
last_index-lacks c [] h = refl
last_index-lacks c (d ∷ s) h = ground (arith, last_index-lacks c s)

last_index-marker :
    (c : ℕ) (pre post : Text)
    → lacks c post ≡ true
    → last_index (pre ++ (c ∷ post)) c ≡ some (length pre)
unfolding last_index
last_index-marker c [] post h = rw (last_index-lacks c post h) (ground arith)
last_index-marker c (d ∷ pre) post h = rw (last_index-marker c pre post h) refl

braced-found :
    (pre body post : Text)
    → index pre (b'{' ∷ []) ≡ none
    → lacks b'}' post ≡ true
    → braced (pre ++ (b'{' ∷ (body ++ (b'}' ∷ post)))) ≡ b'{' ∷ (body ++ (b'}' ∷ []))
braced-found pre body post h l =
    let raw : Text = pre ++ (b'{' ∷ (body ++ (b'}' ∷ post))) in
    let object : Text = b'{' ∷ (body ++ (b'}' ∷ [])) in
    let front : Text = pre ++ (b'{' ∷ body) in
    let from : index raw (b'{' ∷ []) ≡ some (length pre) =
      index-marker pre b'{' [] (body ++ (b'}' ∷ post)) refl h in
    let split : raw ≡ front ++ (b'}' ∷ post) = simp append_assoc in
    let to : last_index raw b'}' ≡ some (length front) =
      rw split (last_index-marker b'}' front post l) in
    let whole : raw ≡ (pre ++ object) ++ post = simp append_assoc in
    let size : length (pre ++ object) ≡ suc (length front) =
      simp length-append (omega (arith, length-append body (b'}' ∷ []))) in
    let later : leb (length front) (length pre) ≡ false =
      ground (arith, length-append pre (b'{' ∷ body)) in
    let cut : take (suc (length front)) raw ≡ pre ++ object =
      rw (whole, ← size) (take-append (pre ++ object) post) in
    rw (from, to, later, cut) (drop-append pre object)

-- An object in an answer with no fence is found whole: from the first opening brace to the last closing
-- one, whatever stands around it and in it.
pub object_found :
    (pre body post : Text)
    → index pre (b'{' ∷ []) ≡ none
    → lacks b'}' post ≡ true
    → index (pre ++ (b'{' ∷ (body ++ (b'}' ∷ post)))) json_fence ≡ none
    → extract_json_object (pre ++ (b'{' ∷ (body ++ (b'}' ∷ post)))) ≡ b'{' ∷ (body ++ (b'}' ∷ []))
unfolding extract_json_object
object_found pre body post h l nofence = rw nofence (braced-found pre body post h l)
