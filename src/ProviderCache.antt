-- ===== src/ProviderCache.antt =====
-- src/data/provider_cache.py: payloads with an expiry, and the limits of providers. The two tables of the
-- database are lists of rows; moments are seconds, and the text of a payload is json's, a parameter.
pub mod Expiry
mod Tests
use robo_trade.Base.{
  ℕ, suc, ◌+◌, String, Bool, true, false, not, ◌&&◌, ◌||◌, Option, none, some, List, [], ◌∷◌,
  if◌then◌else◌, leb, ltb, str_eq, length, filter, any,
}
use robo_trade.Text.{take_text}
use robo_trade.Base.Int.{ℤ, pos, pos_part, lt_ℤ}

-- A row of `api_cache`.
pub record CacheRow : Type 0 where
  pub category : String
  pub provider : String
  pub cache_key : String
  pub payload : String
  pub fetched_at : ℕ
  pub expires_at : Option ℕ

-- A row of `api_provider_state`.
pub record ProviderRow : Type 0 where
  pub provider : String
  pub category : String
  pub request_count : ℕ
  pub window_started_at : ℕ
  pub limited_until : Option ℕ
  pub last_error : Option String
  pub updated_at : ℕ

-- `json.dumps` and `json.loads`; `none` is the decoding error.
pub record Json (Payload : Type 0) : Type 0 where
  pub dumps : Payload → String
  pub loads : String → Option Payload

-- The row has this primary key.
abbrev pub has_primary_key : String → String → String → CacheRow → Bool
has_primary_key category provider cache_key row =
    str_eq row.category category && (str_eq row.provider provider && str_eq row.cache_key cache_key)

abbrev pub find_row : String → String → String → List CacheRow → Option CacheRow
find_row category provider cache_key [] = none
find_row category provider cache_key (row ∷ rows) =
    let rest = find_row category provider cache_key rows in
    if has_primary_key category provider cache_key row then some row else rest

-- `INSERT OR REPLACE` into the payloads.
abbrev pub put_row : CacheRow → List CacheRow → List CacheRow
put_row new [] = new ∷ []
put_row new (row ∷ rows) =
    let rest = put_row new rows in
    if has_primary_key new.category new.provider new.cache_key row then new ∷ rows else row ∷ rest

abbrev pub is_expired : ℕ → Option ℕ → Bool
is_expired now none = false
is_expired now (some expires_at) = leb expires_at now

-- `max(seconds, least)`.
abbrev pub at_least : ℤ → ℕ → ℕ
at_least seconds least = if lt_ℤ seconds (pos least) then least else pos_part seconds

module _ {Payload : Type 0} (json : Json Payload) where
  abbrev pub read_row : ℕ → Option CacheRow → Option Payload
  read_row now none = none
  read_row now (some row) = if is_expired now row.expires_at then none else json.loads row.payload

  -- `load_cached_payload`.
  unfoldable pub load_cached_payload : ℕ → String → String → String → List CacheRow → Option Payload
  load_cached_payload now category provider cache_key rows =
      read_row now (find_row category provider cache_key rows)

  -- `save_cached_payload`.
  unfoldable pub save_cached_payload :
      ℕ → String → String → String → Payload → ℤ → List CacheRow → List CacheRow
  save_cached_payload now category provider cache_key payload ttl_seconds rows =
      put_row
        (record {
          category = category;
          provider = provider;
          cache_key = cache_key;
          payload = json.dumps payload;
          fetched_at = now;
          expires_at = some (now + at_least ttl_seconds 0);
        })
        rows

-- A clause on a column, left out where the argument is missing or empty.
abbrev pub clause : Option String → String → Bool
clause none value = true
clause (some wanted) value = str_eq wanted "" || str_eq value wanted

abbrev is_given : String → Bool
is_given prefix = not (str_eq prefix "")

-- The clause on the keys; `like` is the database's `LIKE` with `%` after the prefix.
abbrev pub prefix_clause : (String → String → Bool) → List String → String → Bool
prefix_clause like [] cache_key = true
prefix_clause like (p ∷ ps) cache_key = like p cache_key || any (λ q. like q cache_key) ps

abbrev pub is_cleared :
    (String → String → Bool) → Option String → Option String → List String → CacheRow → Bool
is_cleared like category provider prefixes row =
    clause category row.category
    && (clause provider row.provider && prefix_clause like (filter is_given prefixes) row.cache_key)

-- `clear_cached_payloads`: the number of rows that go, and those that stay.
unfoldable pub clear_cached_payloads :
    (String → String → Bool)
    → Option String
    → Option String
    → List String
    → List CacheRow
    → ℕ × List CacheRow
clear_cached_payloads like category provider prefixes rows =
    let gone = is_cleared like category provider prefixes in
    (length (filter gone rows), filter (λ row. not (gone row)) rows)

abbrev pub find_provider : String → List ProviderRow → Option ProviderRow
find_provider provider [] = none
find_provider provider (row ∷ rows) =
    let rest = find_provider provider rows in
    if str_eq row.provider provider then some row else rest

-- `INSERT OR REPLACE` into the states of the providers.
abbrev pub put_provider : ProviderRow → List ProviderRow → List ProviderRow
put_provider new [] = new ∷ []
put_provider new (row ∷ rows) =
    let rest = put_provider new rows in
    if str_eq row.provider new.provider then new ∷ rows else row ∷ rest

abbrev count_of : Option ProviderRow → ℕ
count_of none = 0
count_of (some row) = row.request_count

abbrev pub limit_of : Option ProviderRow → Option ℕ
limit_of none = none
limit_of (some row) = row.limited_until

abbrev pub is_pending : ℕ → Option ℕ → Bool
is_pending now none = false
is_pending now (some limited_until) = ltb now limited_until

-- `provider_is_limited`.
unfoldable pub provider_is_limited : ℕ → String → List ProviderRow → Bool
provider_is_limited now provider rows = is_pending now (limit_of (find_provider provider rows))

abbrev provider_row :
    ℕ → String → String → Option ℕ → Option String → List ProviderRow → ProviderRow
provider_row now category provider limited_until last_error rows = record {
  provider = provider;
  category = category;
  request_count = suc (count_of (find_provider provider rows));
  window_started_at = now;
  limited_until = limited_until;
  last_error = last_error;
  updated_at = now;
}

-- `record_provider_success`.
unfoldable pub record_provider_success : ℕ → String → String → List ProviderRow → List ProviderRow
record_provider_success now category provider rows =
    put_provider (provider_row now category provider none none rows) rows

-- `record_provider_limited`.
unfoldable pub record_provider_limited :
    ℕ → String → String → String → ℤ → List ProviderRow → List ProviderRow
record_provider_limited now category provider error retry_after_seconds rows =
    put_provider
      (provider_row now category provider (some (now + at_least retry_after_seconds 60))
        (some (take_text 500 error)) rows)
      rows
