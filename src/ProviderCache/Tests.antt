-- ===== src/ProviderCache/Tests.antt =====
-- A cache of two payloads, whose text is the payload itself.
use robo_trade.Base.{◌+◌, String, ◌≡◌, refl, none, some, List, [], ◌∷◌, if◌then◌else◌, leb, str_eq}
use robo_trade.Base.Int.{pos, negsuc}
use robo_trade.ProviderCache.{
  CacheRow, ProviderRow, Json, at_least, load_cached_payload, save_cached_payload,
  clear_cached_payloads,
}
use robo_trade.ProviderCache.Expiry.{same_key, load_cached_payload-save_cached_payload}

abbrev json : Json String
json = record { dumps = λ p. p; loads = λ t. some t }

abbrev saved : List CacheRow
saved =
    record {
      category = "quote";
      provider = "schwab";
      cache_key = "GLD";
      payload = "405.77";
      fetched_at = 100;
      expires_at = some 1900;
    }
    ∷ []

expired_is_not_served :
    (load_cached_payload json 1899 "quote" "schwab" "GLD" saved ≡ some "405.77")
    × (load_cached_payload json 1900 "quote" "schwab" "GLD" saved ≡ none)
unfolding load_cached_payload
expired_is_not_served = (refl, refl)

load_cached_payload-save_cached_payload_example :
    load_cached_payload json 150 "quote" "schwab" "GLD"
      (save_cached_payload json 120 "quote" "schwab" "GLD" "426.65" (pos 60) saved)
    ≡ (if same_key "quote" "schwab" "GLD" "quote" "schwab" "GLD"
        then (if leb (120 + at_least (pos 60) 0) 150 then none else some "426.65")
        else load_cached_payload json 150 "quote" "schwab" "GLD" saved)
load_cached_payload-save_cached_payload_example =
    load_cached_payload-save_cached_payload json 120 150 "quote" "schwab" "GLD" "quote" "schwab"
      "GLD" "426.65" (pos 60) saved refl

-- A time to live below zero is none.
negative_is_none : at_least (negsuc 4) 0 ≡ 0
negative_is_none = refl

one_is_cleared : clear_cached_payloads str_eq (some "quote") none ("" ∷ []) saved ≡ (1, [])
unfolding clear_cached_payloads
one_is_cleared = refl

abbrev providers : List ProviderRow
providers =
    record {
      provider = "alpaca";
      category = "quote";
      request_count = 3;
      window_started_at = 10;
      limited_until = some 500;
      last_error = some "429";
      updated_at = 10;
    }
    ∷ []
