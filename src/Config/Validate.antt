-- ===== src/Config/Validate.antt =====
-- `checkType` and `File.Validate` of v4/config/loader.go. The MIME parser is an argument:
-- `parse s` is the media type of `s` with its parameters, or `none` on an error. The warning on a
-- public `api_listen` is logged only, and changes nothing.
use tlswrapper.Base.{
  Str, lit, str_eq, str_eq_iff, is_empty, if◌then◌else◌, Option, none, some, [], ◌≡◌, ◌≢◌, ◌⊎◌,
  refl, ap, ◌∙◌, arith,
}
use tlswrapper.Config.Defs.{File}
use tlswrapper.Config.Clamp.{
  clamp_file, FileInRange, clamp_file-FileInRange, clamp_file_of_FileInRange,
}
use tlswrapper.Config.Startups.{
  Startups, StartupsError, parse_max_startups, IsThrottle, parse_max_startups-IsThrottle,
  no_startups,
}

pub data ConfigError : Type 0 where
  invalid_type incompatible_version h3mux_requires_tls : ConfigError
  max_startups : StartupsError → ConfigError

pub data Result (A : Type 0) : Type 0 where
  ok : A → Result A
  err : ConfigError → Result A

infixl 5 ◌>>=◌ ◌>>◌
abbrev pub ◌>>=◌ : {A B : Type 0} → Result A → (A → Result B) → Result B
ok a >>= f = f a
err e >>= f = err e

abbrev pub ◌>>◌ : {B : Type 0} → Result (Unit {0}) → Result B → Result B
m >> k = m >>= λ _. k

pub record MediaType : Type 0 where
  pub mediatype : Str
  pub params : Str → Option Str

abbrev pub mime_type : Str
mime_type = lit "application/x-tlswrapper-config"

abbrev pub mime_version : Str
mime_version = lit "4"

unfoldable pub check_version : Option Str → Result (Unit {0})
check_version none = err invalid_type
check_version (some version) =
    if str_eq version mime_version then ok tt else err incompatible_version

unfoldable pub check_media : Option MediaType → Result (Unit {0})
unfolding check_version
check_media none = err invalid_type
check_media (some m) =
    if str_eq m.mediatype mime_type
    then check_version (m.params (lit "version"))
    else err invalid_type

unfoldable pub check_h3mux : File → Result (Unit {0})
check_h3mux c = elim c.tls [
  | none ↦ if str_eq c.mux_protocol (lit "h3mux") then err h3mux_requires_tls else ok tt
  | some _ ↦ ok tt
]

unfoldable pub check_startups : File → Result (Unit {0})
check_startups c =
    if is_empty c.max_startups then ok tt else elim (parse_max_startups c.max_startups).err [
      | none ↦ ok tt
      | some e ↦ err (max_startups e)
    ]

-- `ParsedMaxStartups`: the error is dropped, the values that were read stay.
unfoldable pub parsed_max_startups : File → Startups
parsed_max_startups c =
    if is_empty c.max_startups then no_startups else parse_max_startups c.max_startups

-- The version parameter must be there and be ours.
abbrev pub IsOurs : MediaType → Type 0
IsOurs m = (m.mediatype ≡ mime_type) × (m.params (lit "version") ≡ some mime_version)

check_version_ok : (v : Option Str) → check_version v ≡ ok tt → v ≡ some mime_version
unfolding check_version
check_version_ok none h = cc
check_version_ok (some v) h = ground (arith, str_eq_iff v mime_version)

check_media_ok :
    (o : Option MediaType) → check_media o ≡ ok tt → (m : MediaType) × (o ≡ some m) × IsOurs m
unfolding check_media
check_media_ok none h = cc
check_media_ok (some m) h = (m, refl, parts)
  where
    parts : IsOurs m
    parts =
        ground
          (arith, str_eq_iff m.mediatype mime_type, check_version_ok (m.params (lit "version")))

IsOurs-check_media : (m : MediaType) → IsOurs m → check_media (some m) ≡ ok tt
unfolding check_media
IsOurs-check_media m h = rw ((str_eq_iff m.mediatype mime_type).1 h.0, h.1)

abbrev pub ThrottleOk : File → Type 0
ThrottleOk c =
    (c.max_startups ≡ [])
    ⊎ ((parse_max_startups c.max_startups).err ≡ none) × IsThrottle (parsed_max_startups c)

check_startups_ok : (c : File) → check_startups c ≡ ok tt → ThrottleOk c
unfolding check_startups parsed_max_startups
check_startups_ok c h = ground (arith, parse_max_startups-IsThrottle c.max_startups)

check_h3mux_ok : (c : File) → check_h3mux c ≡ ok tt → c.mux_protocol ≡ lit "h3mux" → c.tls ≢ none
unfolding check_h3mux
check_h3mux_ok c h = ground (arith, str_eq_iff c.mux_protocol (lit "h3mux"))

h3mux-check_h3mux :
    (c : File) → (c.mux_protocol ≡ lit "h3mux" → c.tls ≢ none) → check_h3mux c ≡ ok tt
unfolding check_h3mux
h3mux-check_h3mux c h = ground (arith, str_eq_iff c.mux_protocol (lit "h3mux"))

ThrottleOk-check_startups : (c : File) → ThrottleOk c → check_startups c ≡ ok tt
unfolding check_startups
ThrottleOk-check_startups c h = ground arith

module _ (parse : Str → Option MediaType) where
  unfoldable pub check_type : Str → Result (Unit {0})
  unfolding check_media
  check_type s = check_media (parse s)

  unfoldable pub validate : File → Result File
  validate c = do check_type c.type_; check_h3mux c; check_startups c; ok (clamp_file c)

  -- What a snapshot that passed validation promises to the rest of the program.
  pub record IsValid (c : File) : Type 0 where
    pub versioned : (m : MediaType) × (parse c.type_ ≡ some m) × IsOurs m
    pub tls_for_h3mux : c.mux_protocol ≡ lit "h3mux" → c.tls ≢ none
    pub throttle : ThrottleOk c
    pub in_range : FileInRange c

  validate_inversion :
      (c d : File)
      → validate c ≡ ok d
      → (check_type c.type_ ≡ ok tt)
        × (check_h3mux c ≡ ok tt)
        × (check_startups c ≡ ok tt)
        × (d ≡ clamp_file c)
  unfolding validate
  validate_inversion c d h = ground arith

  validate_intro :
      (c : File)
      → check_type c.type_ ≡ ok tt
      → check_h3mux c ≡ ok tt
      → check_startups c ≡ ok tt
      → validate c ≡ ok (clamp_file c)
  unfolding validate
  validate_intro c t h s = rw (t, h, s)

  clamp_file-IsValid :
      (c : File)
      → check_type c.type_ ≡ ok tt
      → check_h3mux c ≡ ok tt
      → check_startups c ≡ ok tt
      → IsValid (clamp_file c)
  unfolding check_type clamp_file parsed_max_startups
  clamp_file-IsValid c t h s = record {
    versioned = check_media_ok (parse c.type_) t;
    tls_for_h3mux = check_h3mux_ok c h;
    throttle = check_startups_ok c s;
    in_range = clamp_file-FileInRange c;
  }

  -- A snapshot that passes validation, whatever it held, has our media type and version, TLS if it
  -- is for h3mux, a sound throttle, and every number in its range.
  pub validate-IsValid : (c d : File) → validate c ≡ ok d → IsValid d
  validate-IsValid c d h =
      let (t, p, s, e) = validate_inversion c d h in rw e (clamp_file-IsValid c t p s)

  type_ok : (c : File) → IsValid c → check_type c.type_ ≡ ok tt
  unfolding check_type
  type_ok c v = let (m, e, ours) = v.versioned in rw e (IsOurs-check_media m ours)

  -- A valid snapshot passes validation unchanged.
  pub IsValid-validate : (c : File) → IsValid c → validate c ≡ ok c
  IsValid-validate c v =
      validate_intro c (type_ok c v) (h3mux-check_h3mux c v.tls_for_h3mux)
        (ThrottleOk-check_startups c v.throttle)
      ∙ ap ok (clamp_file_of_FileInRange c v.in_range)
