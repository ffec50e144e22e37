-- ===== src/OAuth/Clients.antt =====
-- apps/mcp-server/src/oauth/store.ts: registered clients, and the periodic clean-up.
use groceryclaw.Base.{
  ℕ, ◌+◌, ◌*◌, String, Bool, not, ◌&&◌, ◌||◌, List, Option, none, some, ltb, leb, str_eq,
  if◌then◌else◌, any, get_or_else, ◌>>=◌, length, ◌-◌,
}
use groceryclaw.Base.Assoc.{lookup, insert, keep_entries, values}
use groceryclaw.OAuth.{
  OAuthClient, StoredClient, MemCode, MemToken, Store, is_dcr, is_active, day_ms,
}

-- `none` stands for the thrown `client_exists`.
unfoldable pub register_client : ℕ → OAuthClient → Store → Option Store
register_client now c s = elim (lookup c.client_id s.clients) [
  | none ↦ some (record s { clients = insert c.client_id (fresh none) s.clients })
  | some old ↦
      if is_dcr old.registration_type || is_dcr c.registration_type
      then none
      else some (record s { clients = insert c.client_id (fresh (some old)) s.clients })
]
  where
    fresh : Option StoredClient → StoredClient
    fresh none = record { client = c; created_ms = now; last_used_ms = none }
    fresh (some old) = record {
      client = c;
      created_ms = old.created_ms;
      last_used_ms = old.last_used_ms;
    }

unfoldable pub get_client : String → Store → Option OAuthClient
get_client id s = do c ← lookup id s.clients; some c.client

-- Codes stay for a day after they expire, tokens for a week.
abbrev pub keeps_code : ℕ → String → MemCode → Bool
keeps_code now _ c = not (ltb (c.expires_ms + day_ms) now)

abbrev pub keeps_token : ℕ → String → MemToken → Bool
keeps_token now _ t = not (ltb (t.expires_ms + 7 * day_ms) now)

-- A live token of the client `id`.
abbrev pub is_live_for : ℕ → String → MemToken → Bool
is_live_for now id t = str_eq t.client_id id && is_active t.status && ltb now t.expires_ms

-- A client stays if it came by metadata document, if it was used since the cutoff, or while one of
-- its tokens is live.
unfoldable pub keeps_client : ℕ → ℕ → List MemToken → String → StoredClient → Bool
keeps_client now idle_days tokens id c =
    not (is_dcr c.registration_type)
    || leb now (get_or_else c.last_used_ms c.created_ms + idle_days * day_ms)
    || any (is_live_for now id) tokens

unfoldable pub cleanup : ℕ → ℕ → Store → Store × ℕ
unfolding keeps_client
cleanup now idle_days s =
    let tokens = keep_entries (keeps_token now) s.tokens in
    let clients = keep_entries (keeps_client now idle_days (values tokens)) s.clients in
    (
      record s {
        codes = keep_entries (keeps_code now) s.codes;
        tokens = tokens;
        clients = clients;
      },
      length s.clients - length clients,
    )
