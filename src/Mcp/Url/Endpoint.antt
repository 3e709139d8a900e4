-- ===== src/Mcp/Url/Endpoint.antt =====
-- Which endpoint a client calls after its URL has been set.
use fxcore.Prelude.{
  ℕ, true, false, some, String, [], ◌∷◌, ◌++◌, last, ◌≡◌, ◌≢◌, refl, ap, ◌∙◌, arith,
}
use fxcore.Prelude.Text.{Text, codes}
use fxcore.Mcp.Url.{
  Client, hash, ends_in_hash, drop_last, set_url, set_api_key, build_url, build_claude_url,
  apply_provider_defaults, default_base_url_for, trim_right,
}

last-append : (s : Text) (c : ℕ) → last (s ++ c ∷ []) ≡ some c
last-append [] c = refl
last-append (d ∷ s) c = rw (last-append s c) refl

drop_last-append : (s : Text) (c : ℕ) → drop_last (s ++ c ∷ []) ≡ s
drop_last-append [] c = refl
drop_last-append (d ∷ []) c = refl
drop_last-append (d ∷ e ∷ s) c = ap (◌∷◌ d) (drop_last-append (e ∷ s) c)

set_url-ends :
    (s : Text) (c : Client)
    → ends_in_hash s ≡ true
    → set_url s c ≡ record c { base_url = drop_last s; use_full_url = true }
unfolding set_url
set_url-ends [] c h = cc
set_url-ends (d ∷ s) c h = rw h refl

set_url-hash :
    (url : Text) (c : Client)
    → set_url (url ++ hash ∷ []) c ≡ record c { base_url = url; use_full_url = true }
set_url-hash url c =
    set_url-ends (url ++ hash ∷ []) c (rw (last-append url hash, ends_in_hash) refl)
    ∙ ap (λ (t : Text). record c { base_url = t; use_full_url = true }) (drop_last-append url hash)

set_url-plain :
    (s : Text) (c : Client)
    → s ≢ []
    → ends_in_hash s ≡ false
    → set_url s c ≡ record c { base_url = s }
unfolding set_url
set_url-plain [] c n h = absurd (n refl)
set_url-plain (d ∷ s) c n h = rw h refl

full_endpoint :
    (c : Client) {url : Text}
    → c.use_full_url ≡ true
    → c.base_url ≡ url
    → (build_url c ≡ url) × (build_claude_url c ≡ url)
unfolding build_url build_claude_url
full_endpoint c full base = rw (full, base) (refl, refl)

-- The model does not matter for the endpoint.
set_api_key_urls :
    (key : String) (url : Text) (model : String) (c : Client)
    → ((set_api_key key url model c).base_url ≡ (set_url url (record c { api_key = key })).base_url)
      × ((set_api_key key url model c).use_full_url
          ≡ (set_url url (record c { api_key = key })).use_full_url)
unfolding set_api_key
set_api_key_urls key url model c = (ground arith, ground arith)

-- Set with a number sign at its end, a URL is the endpoint as it stands without it, for the default
-- hooks and for Claude's. It stays so for good: a URL set afterwards, not empty and with no number
-- sign at its end, is called with nothing added either.
pub full_url_stays :
    (url later : Text) (key key' model model' : String) (c : Client)
    → later ≢ []
    → ends_in_hash later ≡ false
    → let first = set_api_key key (url ++ hash ∷ []) model c in
      let second = set_api_key key' later model' first in
      (build_url first ≡ url)
      × (build_claude_url first ≡ url)
      × (build_url second ≡ later)
      × (build_claude_url second ≡ later)
full_url_stays url later key key' model model' c some_url plain =
    let first = set_api_key key (url ++ hash ∷ []) model c in
    let (b, u) = set_api_key_urls key (url ++ hash ∷ []) model c in
    let (b', u') = set_api_key_urls key' later model' first in
    let set = set_url-hash url (record c { api_key = key }) in
    let set' = set_url-plain later (record first { api_key = key' }) some_url plain in
    let full = u ∙ ap (λ (d : Client). d.use_full_url) set in
    let (one, two) = full_endpoint first full (b ∙ ap (λ (d : Client). d.base_url) set) in
    let (three, four) =
      full_endpoint (set_api_key key' later model' first)
        (u' ∙ ap (λ (d : Client). d.use_full_url) set' ∙ full)
        (b' ∙ ap (λ (d : Client). d.base_url) set') in
    (one, two, three, four)

-- A client for Claude that is made with no URL calls a path with the version twice in it.
pub claude_default_twice :
    (c : Client)
    → c.provider ≡ "claude"
    → c.base_url ≡ []
    → c.use_full_url ≡ false
    → build_claude_url (apply_provider_defaults c)
      ≡ codes "https://api.anthropic.com/v1/v1/messages"
unfolding build_claude_url apply_provider_defaults default_base_url_for trim_right
claude_default_twice c p b u = rw (p, b, u) refl
