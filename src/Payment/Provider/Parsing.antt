-- ===== src/Payment/Provider/Parsing.antt =====
-- The statuses that infrastructure/providers/ecocash.rs reads are those that provider.rs writes.
use ussd_polyglot.Prelude.{◌≡◌, refl, String}
use ussd_polyglot.Payment.Provider.{
  ProviderStatus, pending, processing, completed, failed, cancelled, refunded, unknown,
  provider_status_as_str, parse_provider_status,
}

-- Where lowering the case leaves the texts of the statuses as they are, every status is parsed back
-- from its text.
pub parse_provider_status-provider_status_as_str :
    (to_lowercase : String → String)
    → ((s : ProviderStatus) → to_lowercase (provider_status_as_str s) ≡ provider_status_as_str s)
    → (s : ProviderStatus) → parse_provider_status to_lowercase (provider_status_as_str s) ≡ s
unfolding parse_provider_status provider_status_as_str
parse_provider_status-provider_status_as_str to_lowercase lower pending = rw (lower pending) refl
parse_provider_status-provider_status_as_str to_lowercase lower processing =
    rw (lower processing) refl
parse_provider_status-provider_status_as_str to_lowercase lower completed =
    rw (lower completed) refl
parse_provider_status-provider_status_as_str to_lowercase lower failed = rw (lower failed) refl
parse_provider_status-provider_status_as_str to_lowercase lower cancelled =
    rw (lower cancelled) refl
parse_provider_status-provider_status_as_str to_lowercase lower refunded = rw (lower refunded) refl
parse_provider_status-provider_status_as_str to_lowercase lower unknown = rw (lower unknown) refl
