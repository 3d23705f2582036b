-- ===== src/Config/Load.antt =====
-- `Load` of v4/config/loader.go. What JSON decodes the bytes to over the default, and whether the
-- certificates and the logger can be set up, is an argument.
use tlswrapper.Base.{
  Str, ◌≡◌, inl, inr, if◌then◌else◌, Bool, true, false, Option, none, some, arith, Option-cases,
}
use tlswrapper.Config.Defs.{File, Tls}
use tlswrapper.Config.Validate.{
  ConfigError, Result, ok, err, MediaType, validate, IsValid, validate-IsValid,
}

pub data LoadError : Type 0 where
  decode_failed tls_failed logger_failed : LoadError
  invalid : ConfigError → LoadError

pub data Loaded : Type 0 where
  loaded : File → Loaded
  not_loaded : LoadError → Loaded

-- The answers for one call.
pub record Loads : Type 0 where
  pub decoded : Option File
  pub tls_ok : Bool
  pub logger_ok : Bool

module _ (parse : Str → Option MediaType) where
  -- `(*File).load`: there is nothing to load without a TLS section.
  unfoldable pub tls_loads : Bool → Option Tls → Bool
  tls_loads tls_ok none = true
  tls_loads tls_ok (some t) = tls_ok

  unfoldable pub validated : Bool → Result File → Loaded
  validated logger_ok (err e) = not_loaded (invalid e)
  validated logger_ok (ok c) = if logger_ok then loaded c else not_loaded logger_failed

  unfoldable pub load : Loads → Loaded
  load a = elim a.decoded [
    | none ↦ not_loaded decode_failed
    | some c ↦
        if tls_loads a.tls_ok c.tls
        then validated a.logger_ok (validate parse c)
        else not_loaded tls_failed
  ]

  tls_checked :
      (b : Bool) (x : Loaded) (e : LoadError) (c : File)
      → (if b then x else not_loaded e) ≡ loaded c
      → x ≡ loaded c
  tls_checked true x e c h = h
  tls_checked false x e c h = cc

  validated_inversion :
      (logger_ok : Bool) (r : Result File) (d : File) → validated logger_ok r ≡ loaded d → r ≡ ok d
  unfolding validated
  validated_inversion logger_ok (err e) d h = cc
  validated_inversion true (ok c) d h = cc
  validated_inversion false (ok c) d h = cc

  -- A snapshot that is loaded is valid.
  pub load-IsValid : (a : Loads) (d : File) → load a ≡ loaded d → IsValid parse d
  unfolding load
  load-IsValid a d h = elim (Option-cases a.decoded) [
    | inl n ↦ absurd (ground (arith, n, h))
    | inr (c, e) ↦
        let whole : validated a.logger_ok (validate parse c) ≡ loaded d =
          tls_checked (tls_loads a.tls_ok c.tls) _ tls_failed d (rw (load, e) at h) in
        validate-IsValid parse c d (validated_inversion a.logger_ok _ d whole)
  ]
