-- ===== src/Api/Answered.antt =====
-- What each status of the configuration handler says.
use tlswrapper.Base.{
  ℕ, ◌+◌, ◌≤◌, ◌≡◌, ◌≢◌, refl, ap, inl, inr, Str, ltb, length, length-take, take, take-length_le,
  if◌then◌else◌, false, Option, none, some, List, [], ◌∷◌, arith, Bool-cases,
}
use tlswrapper.Base.Int.{pos, ltb_ℤ}
use tlswrapper.Config.{File}
use tlswrapper.Config.Validate.{MediaType, IsValid}
use tlswrapper.Config.Load.{Loads, Loaded, loaded, not_loaded, load, load-IsValid}
use tlswrapper.Server.Reload.{Service, Replies, ReloadError, reload_config}
use tlswrapper.Api.{
  Method, get, post, other, Status, ok, bad_request, method_not_allowed, request_entity_too_large,
  internal_server_error, max_content_length, Request, reloaded, config_loaded, read_limited,
  serve_config,
}

module _ (parse : Str → Option MediaType) (q : Request) (loads : List ℕ → Loads) (json : Option Str)
    (r : Replies) (s : Service) where
  -- A POST with a body that is short enough, whose bytes load as the snapshot.
  pub record Accepted (b : List ℕ) (c : File) : Type 0 where
    pub posted : q.method ≡ post
    pub body : q.body ≡ some b
    pub short : length b ≤ max_content_length
    pub snapshot : load parse (loads b) ≡ loaded c

  -- What a status says of the request and of the service after it.
  abbrev pub Answered : Status × Service → Type 0
  Answered (ok, s') =
      (b : List ℕ) × (c : File) × Accepted b c
      × IsValid parse c
      × (reload_config c json r s ≡ (s', []))
  Answered (internal_server_error, s') =
      (b : List ℕ) × (c : File) × Accepted b c
      × IsValid parse c
      × ((reload_config c json r s).0 ≡ s')
      × ((reload_config c json r s).1 ≢ [])
  Answered (method_not_allowed, s') = (q.method ≢ post) × (s' ≡ s)
  Answered (request_entity_too_large, s') = (q.method ≡ post) × (s' ≡ s)
  Answered (bad_request, s') = (q.method ≡ post) × (s' ≡ s)

  reloaded-Answered :
      (b : List ℕ) (c : File) (x : Service × List ReloadError)
      → Accepted b c
      → IsValid parse c
      → reload_config c json r s ≡ x
      → Answered (reloaded x)
  unfolding reloaded
  reloaded-Answered b c (s', []) a v e = (b, c, a, v, e)
  reloaded-Answered b c (s', x ∷ xs) a v e = (b, c, a, v, ap (λ p. p.0) e, λ n. cc (n, e))

  config_loaded-Answered :
      (b : List ℕ) (x : Loaded)
      → q.method ≡ post
      → q.body ≡ some b
      → length b ≤ max_content_length
      → load parse (loads b) ≡ x
      → Answered (config_loaded x json r s)
  unfolding config_loaded
  config_loaded-Answered b (not_loaded e) p d l h = (p, refl)
  config_loaded-Answered b (loaded c) p d l h =
      reloaded-Answered b c (reload_config c json r s)
        (record { posted = p; body = d; short = l; snapshot = h })
        (load-IsValid parse (loads b) c h) refl

  posted-Answered : q.method ≡ post → Answered (serve_config parse q loads json r s)
  unfolding serve_config read_limited
  posted-Answered p =
      simp (serve_config, p)
        (elim (Bool-cases (ltb_ℤ (pos max_content_length) q.content_length)) [
          | inl y ↦ rw y (p, refl)
          | inr n ↦ rw n (read-Answered p q.body refl)
        ])
    where
      short_enough :
          (m : ℕ) (xs : List ℕ)
          → ltb m (length (take (m + 1) xs)) ≡ false
          → (take (m + 1) xs ≡ xs) × (length xs ≤ m)
      short_enough m xs h =
          let l : length xs ≤ m = ground (arith, h, length-take (m + 1) xs) in
          (take-length_le (m + 1) xs (omega arith), l)

      read-Answered :
          q.method ≡ post
          → (body : Option (List ℕ)) → q.body ≡ body
          → Answered (elim (read_limited body) [
            | none ↦ (bad_request, s)
            | some b ↦
                if ltb max_content_length (length b)
                then (request_entity_too_large, s)
                else config_loaded (load parse (loads b)) json r s
          ])
      read-Answered p none e = (p, refl)
      read-Answered p (some body) e =
          let b = take (max_content_length + 1) body in
          elim (Bool-cases (ltb max_content_length (length b))) [
            | inl y ↦ rw y (p, refl)
            | inr n ↦
                let (same, l) = short_enough max_content_length body n in
                rw (n, same) (config_loaded-Answered body (load parse (loads body)) p e l refl)
          ]

-- The answer to a configuration request. With status 200 it was a POST of at most 4 MiB, its bytes
-- load as a valid snapshot, and ReloadConfig of that returned no error; with 500 the same, but it
-- returned some; the service is as it left it. With 405 it was no POST; with 413 or 400 it was one;
-- the service is as it was.
pub serve_config-Answered :
    (parse : Str → Option MediaType) (q : Request) (loads : List ℕ → Loads) (json : Option Str)
    (r : Replies) (s : Service)
    → Answered parse q loads json r s (serve_config parse q loads json r s)
unfolding serve_config
serve_config-Answered parse q loads json r s = by_method q.method refl
  where
    by_method :
        (m : Method)
        → q.method ≡ m
        → Answered parse q loads json r s (serve_config parse q loads json r s)
    by_method post e = posted-Answered parse q loads json r s e
    by_method get e = simp (serve_config, e) ((λ h. cc), refl)
    by_method other e = simp (serve_config, e) ((λ h. cc), refl)
