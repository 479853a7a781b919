-- ===== src/ProviderCache/Expiry.antt =====
-- What is read back from the cache, until when, and how long a provider stays limited.
use robo_trade.Base.{
  ℕ, ◌+◌, String, ◌≡◌, refl, ◌∙◌, ap, Bool, true, false, ◌&&◌, Option, none, some, List, [], ◌∷◌,
  if◌then◌else◌, leb, ltb, str_eq, eq_iff, arith,
}
use robo_trade.Base.Int.{ℤ}
use robo_trade.ProviderCache.{
  CacheRow, ProviderRow, Json, find_row, put_row, read_row, at_least, load_cached_payload,
  save_cached_payload, find_provider, put_provider, limit_of, is_pending, provider_is_limited,
  record_provider_success, record_provider_limited,
}

-- The three parts of two keys agree.
abbrev pub same_key : String → String → String → String → String → String → Bool
same_key c p k c' p' k' = str_eq c c' && (str_eq p p' && str_eq k k')

find_row-put_row :
    (c p k : String) (new : CacheRow) (rows : List CacheRow)
    → find_row c p k (put_row new rows) ≡ (
        if same_key new.category new.provider new.cache_key c p k
        then some new
        else find_row c p k rows)
find_row-put_row c p k new [] = refl
find_row-put_row c p k new (row ∷ rows) = ground (
  arith,
  find_row-put_row c p k new rows,
  eq_iff row.category new.category,
  eq_iff row.provider new.provider,
  eq_iff row.cache_key new.cache_key,
  eq_iff row.category c,
  eq_iff row.provider p,
  eq_iff row.cache_key k,
  eq_iff new.category c,
  eq_iff new.provider p,
  eq_iff new.cache_key k,
)

read_row_if :
    {Payload : Type 0} (json : Json Payload) (now : ℕ) (b : Bool) (row : CacheRow)
    (o : Option CacheRow)
    → read_row json now (if b then some row else o)
      ≡ (if b then read_row json now (some row) else read_row json now o)
read_row_if json now true row o = refl
read_row_if json now false row o = refl

-- A payload that was saved is read back under its own key until its time to live has passed, counted from
-- zero where it is negative, and not at all from then on; what is read under any other key is what was
-- read before. The payload is one that json reads back.
pub load_cached_payload-save_cached_payload :
    {Payload : Type 0} (json : Json Payload) (now later : ℕ) (c p k c' p' k' : String)
    (payload : Payload) (ttl_seconds : ℤ) (rows : List CacheRow)
    → json.loads (json.dumps payload) ≡ some payload
    → load_cached_payload json later c' p' k'
        (save_cached_payload json now c p k payload ttl_seconds rows)
      ≡ (if same_key c p k c' p' k'
          then (if leb (now + at_least ttl_seconds 0) later then none else some payload)
          else load_cached_payload json later c' p' k' rows)
unfolding load_cached_payload save_cached_payload
load_cached_payload-save_cached_payload json now later c p k c' p' k' payload ttl_seconds rows
      loads =
    ap (read_row json later) (find_row-put_row c' p' k' _ rows)
    ∙ read_row_if json later (same_key c p k c' p' k') _ (find_row c' p' k' rows)
    ∙ rw loads refl

find_provider-put_provider :
    (q : String) (new : ProviderRow) (rows : List ProviderRow)
    → find_provider q (put_provider new rows)
      ≡ (if str_eq new.provider q then some new else find_provider q rows)
find_provider-put_provider q new [] = refl
find_provider-put_provider q new (row ∷ rows) = ground (
  arith,
  find_provider-put_provider q new rows,
  eq_iff row.provider new.provider,
  eq_iff row.provider q,
  eq_iff new.provider q,
)

pending_if :
    (now : ℕ) (b : Bool) (row : ProviderRow) (o : Option ProviderRow)
    → is_pending now (limit_of (if b then some row else o))
      ≡ (if b then is_pending now row.limited_until else is_pending now (limit_of o))
pending_if now true row o = refl
pending_if now false row o = refl

-- A provider that was limited stays so for the seconds that were asked for and at least a minute, a
-- success ends it at once, and neither touches any other provider.
pub provider_is_limited_until :
    (now later : ℕ) (category provider error q : String) (retry : ℤ) (rows : List ProviderRow)
    → (provider_is_limited later q (record_provider_limited now category provider error retry rows)
        ≡ (if str_eq provider q
            then ltb later (now + at_least retry 60)
            else provider_is_limited later q rows))
      × (provider_is_limited later q (record_provider_success now category provider rows)
          ≡ (if str_eq provider q then false else provider_is_limited later q rows))
unfolding provider_is_limited record_provider_limited record_provider_success
provider_is_limited_until now later category provider error q retry rows = (
  ap (λ o. is_pending later (limit_of o)) (find_provider-put_provider q _ rows)
      ∙ pending_if later (str_eq provider q) _ (find_provider q rows),
  ap (λ o. is_pending later (limit_of o)) (find_provider-put_provider q _ rows)
      ∙ pending_if later (str_eq provider q) _ (find_provider q rows),
)
