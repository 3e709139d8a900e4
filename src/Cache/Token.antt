-- ===== src/Cache/Token.antt =====
-- `kvTokenStore` without Redis, and a script of its calls.
pub mod View
pub mod Rotation
use fxcore.Prelude.{
  ℕ, ◌+◌, Bool, Option, none, some, String, List, [], ◌∷◌, ltb, if◌then◌else◌, length,
}
use fxcore.Prelude.Dict.{Dict, lookup, insert, erase, purge}
use fxcore.Cache.{max_mem_keys}

pub record MemToken : Type 0 where
  pub user_id : String
  pub exp : ℕ

pub record TokenStore : Type 0 where
  pub items : Dict MemToken

-- `now.After(t.exp)`
abbrev pub expired : ℕ → MemToken → Bool
expired now t = ltb t.exp now

-- `newKVTokenStore` without Redis.
abbrev pub new : TokenStore
new = record { items = [] }

pub set : ℕ → String → String → ℕ → TokenStore → TokenStore
set now token user_id ttl s =
    let swept : Dict MemToken =
      if ltb max_mem_keys (length s.items) then purge (expired now) s.items else s.items in
    record s { items = insert token (record { user_id = user_id; exp = now + ttl }) swept }

pub get : ℕ → String → TokenStore → Option String × TokenStore
get now token s = elim (lookup token s.items) [
  | none ↦ (none, s)
  | some t ↦
      if expired now t
      then (none, record s { items = erase token s.items })
      else (some t.user_id, s)
]

pub del : String → TokenStore → TokenStore
del token s = record s { items = erase token s.items }

-- `none` is the answer `"", false`.
unfoldable pub rotate : ℕ → String → String → ℕ → TokenStore → Option String × TokenStore
rotate now old_token new_token ttl s = elim (lookup old_token s.items) [
  | none ↦ (none, s)
  | some t ↦ if expired now t then (none, s) else (
    some t.user_id,
    record s {
      items =
          insert new_token (record { user_id = t.user_id; exp = now + ttl })
            (erase old_token s.items);
    },
  )
]

-- A call of the store; the lock makes a history of concurrent calls a list of these.
pub data Call : Type 0 where
  set_call : String → String → ℕ → Call
  get_call : String → Call
  del_call : String → Call
  rotate_call : String → String → ℕ → Call

pub step : ℕ → Call → TokenStore → Option String × TokenStore
step now (set_call token user_id ttl) s = (none, set now token user_id ttl s)
step now (get_call token) s = get now token s
step now (del_call token) s = (none, del token s)
step now (rotate_call old_token new_token ttl) s = rotate now old_token new_token ttl s

-- The store after a history of timed calls.
pub run : List (ℕ × Call) → TokenStore → TokenStore
run [] s = s
run ((now, c) ∷ cs) s = run cs (step now c s).1
