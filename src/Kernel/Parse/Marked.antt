-- ===== src/Kernel/Parse/Marked.antt =====
-- What the two kinds of marks hold is what is read.
use fxcore.Prelude.{◌+◌, none, some, [], ◌++◌, length, drop, take-append, ◌≡◌, refl, ap}
use fxcore.Prelude.Text.{Text, codes, index}
use fxcore.Prelude.Text.Search.{index-marker, index-append, drop-past}
use mathlib.Core.List.{append_assoc}
use fxcore.Kernel.Parse.{
  Json, until, extract_decision_body, parse_body, parse_decision, decision_tag, decision_end,
  json_fence, fence,
}

-- The first match of a marker after `pre` is the one that follows it.
abbrev pub Opens : Text → Text → Type 0
Opens pre marker = index (pre ++ marker) marker ≡ some (length pre)

until-marker : (body end post : Text) → Opens body end → until end (body ++ (end ++ post)) ≡ body
until-marker body end post o =
    let found = rw (append_assoc body end post) at (index-append (body ++ end) end post o) in
    rw (found, until) (take-append body (end ++ post))

-- The tags do not overlap themselves: a text without one cannot end in the beginning of one.
tag-Opens : (pre : Text) → index pre decision_tag ≡ none → Opens pre decision_tag
tag-Opens pre p = index-marker pre b'<' (codes "decision>") [] refl p

end-Opens : (body : Text) → index body decision_end ≡ none → Opens body decision_end
end-Opens body p = index-marker body b'<' (codes "/decision>") [] refl p

after_marker :
    (pre marker rest : Text)
    → Opens pre marker
    → (index (pre ++ (marker ++ rest)) marker ≡ some (length pre))
      × (drop (length pre + length marker) (pre ++ (marker ++ rest)) ≡ rest)
after_marker pre marker rest o = (
  rw (append_assoc pre marker rest) at (index-append (pre ++ marker) marker rest o),
  drop-past pre marker rest,
)

extract-tagged :
    (pre body post : Text)
    → index pre decision_tag ≡ none
    → index body decision_end ≡ none
    → extract_decision_body (pre ++ (decision_tag ++ (body ++ (decision_end ++ post)))) ≡ body
unfolding extract_decision_body
extract-tagged pre body post p q =
    let (found, rest) =
      after_marker pre decision_tag (body ++ (decision_end ++ post)) (tag-Opens pre p) in
    rw (found, extract_decision_body)
      (rw rest (until-marker body decision_end post (end-Opens body q)))

extract-fenced :
    (pre body post : Text)
    → index (pre ++ (json_fence ++ (body ++ (fence ++ post)))) decision_tag ≡ none
    → Opens pre json_fence
    → Opens body fence
    → extract_decision_body (pre ++ (json_fence ++ (body ++ (fence ++ post)))) ≡ body
unfolding extract_decision_body
extract-fenced pre body post untagged o q =
    let (found, rest) = after_marker pre json_fence (body ++ (fence ++ post)) o in
    rw (untagged, extract_decision_body) (rw found (rw rest (until-marker body fence post q)))

-- Between decision tags, the answer is read from the text between the first opening tag and the
-- first closing tag after it, whatever stands around them, an open block of reasoning included.
pub parse-tagged :
    {F : Type 0} (json : Json F) (pre body post : Text)
    → index pre decision_tag ≡ none
    → index body decision_end ≡ none
    → parse_decision json (pre ++ (decision_tag ++ (body ++ (decision_end ++ post))))
      ≡ parse_body json body
unfolding parse_decision
parse-tagged json pre body post p q = ap (parse_body json) (extract-tagged pre body post p q)
