-- ===== src/Mcp/Url.antt =====
-- mcp/client.go: the credentials and defaults of a client; and the endpoints of mcp/hooks.go and of
-- mcp/provider/claude.go. Of `Config`, which mirrors the client's fields, only these are modelled.
pub mod Endpoint
use fxcore.Prelude.{
  ℕ, zero, suc, ◌+◌, Bool, true, false, Option, none, some, String, str_eq, List, [], ◌∷◌, ◌++◌,
  ◌==◌, if◌then◌else◌, last,
}
use fxcore.Prelude.Text.{Text, codes}

pub record Client : Type 0 where
  pub provider : String
  pub api_key : String
  pub base_url : Text
  pub model : String
  pub use_full_url : Bool

abbrev pub slash : ℕ
slash = b'/'

abbrev pub hash : ℕ
hash = b'#'

-- `strings.HasSuffix(s, "#")`
abbrev pub ends_in_hash : Text → Bool
ends_in_hash s = elim (last s) [ none ↦ false | some c ↦ c == hash ]

-- `strings.TrimSuffix(s, "#")`, of an `s` that ends so.
abbrev pub drop_last : Text → Text
drop_last [] = []
drop_last (c ∷ []) = []
drop_last (c ∷ d ∷ s) = c ∷ drop_last (d ∷ s)

abbrev pub unless_slash : ℕ → Text → Text
unless_slash c [] = if c == slash then [] else c ∷ []
unless_slash c (d ∷ s) = c ∷ d ∷ s

-- `strings.TrimRight(s, "/")`
unfoldable pub trim_right : Text → Text
trim_right [] = []
trim_right (c ∷ s) = unless_slash c (trim_right s)

unfoldable pub set_url : Text → Client → Client
set_url [] c = c
set_url (d ∷ url) c =
    if ends_in_hash (d ∷ url)
    then record c { base_url = drop_last (d ∷ url); use_full_url = true }
    else record c { base_url = d ∷ url }

unfoldable pub set_api_key : String → Text → String → Client → Client
set_api_key api_key custom_url custom_model c =
    let with_url = set_url custom_url (record c { api_key = api_key }) in
    if str_eq custom_model "" then with_url else record with_url { model = custom_model }

-- `defaultHooks.BuildUrl`
unfoldable pub build_url : Client → Text
build_url c =
    if c.use_full_url then c.base_url else trim_right c.base_url ++ codes "/chat/completions"

-- `claudeHooks.BuildUrl`
unfoldable pub build_claude_url : Client → Text
build_claude_url c =
    if c.use_full_url then c.base_url else trim_right c.base_url ++ codes "/v1/messages"

abbrev pub picked : String → List (String × String) → String → String
picked key [] default = default
picked key ((k, v) ∷ rest) default = if str_eq key k then v else picked key rest default

unfoldable pub default_base_url_for : String → String
default_base_url_for provider =
    picked provider
      (("deepseek", "https://api.deepseek.com")
        ∷ ("openai", "https://api.openai.com/v1")
        ∷ ("claude", "https://api.anthropic.com/v1")
        ∷ ("qwen", "https://dashscope.aliyuncs.com/compatible-mode/v1")
        ∷ ("gemini", "https://generativelanguage.googleapis.com/v1beta/openai")
        ∷ ("grok", "https://api.x.ai/v1")
        ∷ ("kimi", "https://api.moonshot.ai/v1")
        ∷ ("minimax", "https://api.minimax.io/v1")
        ∷ ("claw402", "https://claw402.ai")
        ∷ [])
      "https://api.deepseek.com"

unfoldable pub default_model_for : String → String
default_model_for provider =
    picked provider
      (("deepseek", "deepseek-v4-flash")
        ∷ ("openai", "gpt-5.4")
        ∷ ("claude", "claude-opus-4-6")
        ∷ ("qwen", "qwen3-max")
        ∷ ("gemini", "gemini-3.1-pro")
        ∷ ("grok", "grok-3-latest")
        ∷ ("kimi", "moonshot-v1-auto")
        ∷ ("minimax", "MiniMax-M2.7")
        ∷ [])
      "deepseek-v4-flash"

abbrev pub or_text : Text → Text → Text
or_text [] d = d
or_text (c ∷ s) d = c ∷ s

-- `applyProviderDefaults`
unfoldable pub apply_provider_defaults : Client → Client
apply_provider_defaults c = record c {
  base_url = or_text c.base_url (codes (default_base_url_for c.provider));
  model = if str_eq c.model "" then default_model_for c.provider else c.model;
}
