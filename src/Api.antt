-- ===== src/Api.antt =====
-- The handlers of v4/api.go that change the server or choose an answer. The texts are left out.
pub mod Answered
mod Tests
use tlswrapper.Base.{
  ℕ, suc, ◌+◌, Str, ltb, length, take, if◌then◌else◌, Bool, true, false, Option, none, some, List,
  [], ◌∷◌,
}
use tlswrapper.Base.Int.{ℤ, pos, ltb_ℤ}
use tlswrapper.Config.Validate.{MediaType}
use tlswrapper.Config.Load.{Loads, Loaded, loaded, not_loaded, load}
use tlswrapper.Server.Reload.{Service, Replies, ReloadError, reload_config}

pub data Method : Type 0 where
  get post other : Method

pub data Status : Type 0 where
  ok bad_request method_not_allowed request_entity_too_large internal_server_error : Status

abbrev pub max_content_length : ℕ
max_content_length = 4194304

-- A request with its `ContentLength`, -1 where it is not known, and the body, which can fail.
pub record Request : Type 0 where
  pub method : Method
  pub content_length : ℤ
  pub body : Option (List ℕ)

-- After `ReloadConfig`. `replies` and `json` are the answers to it.
unfoldable pub reloaded : Service × List ReloadError → Status × Service
reloaded (s, []) = (ok, s)
reloaded (s, e ∷ es) = (internal_server_error, s)

unfoldable pub config_loaded : Loaded → Option Str → Replies → Service → Status × Service
config_loaded (not_loaded e) json r s = (bad_request, s)
config_loaded (loaded c) json r s = reloaded (reload_config c json r s)

-- `io.ReadAll(io.LimitReader(r.Body, maxContentLength+1))`
unfoldable pub read_limited : Option (List ℕ) → Option (List ℕ)
read_limited none = none
read_limited (some b) = some (take (max_content_length + 1) b)

-- `apiConfigHandler.ServeHTTP`; `loads` is what `config.Load` answers for the bytes.
unfoldable pub serve_config :
    (Str → Option MediaType)
    → Request
    → (List ℕ → Loads)
    → Option Str
    → Replies
    → Service
    → Status × Service
serve_config parse q loads json r s = elim q.method [
  | post ↦
      if ltb_ℤ (pos max_content_length) q.content_length
      then (request_entity_too_large, s)
      else elim (read_limited q.body) [
        | none ↦ (bad_request, s)
        | some b ↦
            if ltb max_content_length (length b)
            then (request_entity_too_large, s)
            else config_loaded (load parse (loads b)) json r s
      ]
  | _ ↦ (method_not_allowed, s)
]

-- The query of a request for the statistics: what each value parses to, if it is there.
pub record Query : Type 0 where
  pub nobanner : Option Bool
  pub runtime : Option Bool
  pub eventlog : Option ℤ

-- `stateless`, and the settings with their defaults.
pub record StatsView : Type 0 where
  pub stateless : Bool
  pub nobanner : Bool
  pub runtime : Bool
  pub eventlog : ℤ

abbrev pub or_default {ℓ} : {A : Type ℓ} → A → Option A → A
or_default d none = d
or_default d (some a) = a

-- The head of `apiStatsHandler.ServeHTTP`; the query is none where the URI or the query is not valid.
unfoldable pub stats_view : Method → Option Query → Status × Option StatsView
stats_view other query = (method_not_allowed, none)
stats_view get none = (bad_request, none)
stats_view post none = (bad_request, none)
stats_view get (some q) = (
  ok,
  some (record {
    stateless = true;
    nobanner = or_default false q.nobanner;
    runtime = or_default false q.runtime;
    eventlog = or_default (pos 10) q.eventlog;
  }),
)
stats_view post (some q) = (
  ok,
  some (record {
    stateless = false;
    nobanner = or_default false q.nobanner;
    runtime = or_default false q.runtime;
    eventlog = or_default (pos 10) q.eventlog;
  }),
)

-- `/gc`, and `/stack` and `/metrics`.
unfoldable pub gc_status : Method → Status
gc_status post = ok
gc_status _ = method_not_allowed

unfoldable pub get_status : Method → Status
get_status get = ok
get_status _ = method_not_allowed
