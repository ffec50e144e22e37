-- ===== src/OAuth/Codes.antt =====
-- apps/mcp-server/src/oauth/store.ts: authorization codes, each good for one exchange.
use groceryclaw.Base.{ℕ, ◌+◌, ◌*◌, String, none, some, leb, if◌then◌else◌, is_some}
use groceryclaw.Base.Assoc.{lookup, insert}
use groceryclaw.OAuth.{NewCode, AuthCodeRecord, Store}
use groceryclaw.OAuth.Tokens.{revoke_family, touch_client}

pub data ConsumeResult : Type 0 where
  consumed : AuthCodeRecord → ConsumeResult
  invalid expired reused : ConsumeResult

-- `family` is the fresh `randomUUID()`.
unfoldable pub create_code : ℕ → String → String → NewCode → ℕ → Store → Store
unfolding touch_client
create_code now family hash c ttl s = touch_client now c.client_id (record s {
  codes =
      insert hash
        (record {
          code = record { base = c; family_id = family };
          expires_ms = now + ttl * 1000;
          used_ms = none;
        })
        s.codes;
})

unfoldable pub consume_code : ℕ → String → Store → Store × ConsumeResult
unfolding revoke_family
consume_code now hash s = elim (lookup hash s.codes) [
  | none ↦ (s, invalid)
  | some c ↦ if is_some c.used_ms then (revoke_family c.family_id s, reused) else (
    record s { codes = insert hash (record c { used_ms = some now }) s.codes },
    if leb c.expires_ms now then expired else consumed c.code,
  )
]
