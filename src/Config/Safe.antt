-- ===== src/Config/Safe.antt =====
-- What every configuration that `load_config` returns satisfies, and what its errors are.
use employee_tracker.Common.{
  ℕ, ◌≡◌, refl, String, Bool, true, false, not, ◌&&◌, ◌||◌, Option, none, some, ok, err, Error, ◌⊎◌,
  ◌<◌, Result-cases, raise_if, config_error, str_eq, is_some, arith, leb, Option-cases, inl, inr,
}
use employee_tracker.Common.{subst, eq_iff}
use employee_tracker.Common.Int.{ℤ, pos, ◌≤ℤ◌}
use employee_tracker.Models.{Float}
use employee_tracker.Floats.{FloatOps, FloatLaws}
use employee_tracker.Config.Agent.{AgentConfig, FilePath}
use employee_tracker.Config.Parse.{
  Url, Library, Env, parse_int, parse_float, parse_bool, validate_collector_uri,
}
use employee_tracker.Config.Load.{
  non_empty, cmdline_mode, log_format_of, is_nil, check_uri, check_bundle, load_config,
}
use employee_tracker.Config.Checked.{
  Checked, returns, refuses, fails, ◌>>=◌, Checked-ok, Checked-err, Checked-of, Checked-bind,
}

abbrev pub Within : ℕ → ℕ → ℤ → Type 0
Within lo hi z = (pos lo ≤ℤ z) × (z ≤ℤ pos hi)

-- lo / 10 <= v <= hi / 10
abbrev pub Between : FloatOps → ℕ → ℕ → Float → Type 0
Between f lo hi v = (f.le (f.tenths lo) v ≡ true) × (f.le v (f.tenths hi) ≡ true)

-- An HTTPS URI with a host and without credentials.
pub record IsSecure (l : Library) (uri : String) : Type 0 where
  pub url : Url
  pub splits : l.urlsplit uri ≡ some url
  pub https : l.casefold url.scheme ≡ "https"
  pub host : String
  pub has_host : url.hostname ≡ some host
  pub host_named : str_eq host "" ≡ false
  pub no_user : url.username ≡ none
  pub no_password : url.password ≡ none

module _ (l : Library) (F : Error → Type 0) where
  parse_int-Checked :
      (env : Env) (name : String) (default lo hi : ℕ)
      → leb lo default && leb default hi ≡ true
      → Checked F (Within lo hi) (parse_int l env name (pos default) (pos lo) (pos hi))
  unfolding parse_int
  parse_int-Checked env name default lo hi fits =
      Checked-of _ (λ a h. ground arith) (λ e h. ground arith)

  parse_bool-Checked :
      (env : Env) (name : String) (default : Bool)
      → Checked F (λ _. Unit {0}) (parse_bool l env name default)
  unfolding parse_bool
  parse_bool-Checked env name default = Checked-of _ (λ a h. tt) (λ e h. ground arith)

  raise_if-Checked :
      (b : Bool) (m : String) → Checked F (λ _. b ≡ false) (raise_if b config_error m)
  raise_if-Checked true m = refuses _ refl
  raise_if-Checked false m = returns tt refl

  validate_collector_uri-IsSecure :
      (uri : String) → validate_collector_uri l uri ≡ ok tt → IsSecure l uri
  unfolding validate_collector_uri
  validate_collector_uri-IsSecure uri h = elim (Option-cases (l.urlsplit uri)) [
    | inl invalid ↦ absurd (ground arith)
    | inr (u, e) ↦ elim (Option-cases u.hostname) [
      | inl missing ↦ absurd (ground arith)
      | inr (host, e') ↦ record {
        url = u;
        splits = e;
        https = (eq_iff (l.casefold u.scheme) "https").0 (ground arith);
        host = host;
        has_host = e';
        host_named = ground arith;
        no_user = ground arith;
        no_password = ground arith;
      }
    ]
  ]

  validate_collector_uri-config_error :
      (uri : String) (e : Error) → validate_collector_uri l uri ≡ err e → e.class ≡ config_error
  unfolding validate_collector_uri
  validate_collector_uri-config_error uri e h = ground arith

  validate_collector_uri-Checked :
      (uri : String) → Checked F (λ _. IsSecure l uri) (validate_collector_uri l uri)
  validate_collector_uri-Checked uri =
      Checked-of _ (λ a h. validate_collector_uri-IsSecure uri h)
        (λ e h. validate_collector_uri-config_error uri e h)

  check_uri-Checked :
      (f : FloatOps) (o : Option String)
      → Checked F (λ _. (uri : String) → o ≡ some uri → IsSecure l uri) (check_uri l f o)
  unfolding check_uri
  check_uri-Checked f none = returns tt (λ uri e. cc)
  check_uri-Checked f (some uri) =
      Checked-of _
        (λ a h uri' e.
          let same : uri ≡ uri' = cc in
          subst (IsSecure l) same (validate_collector_uri-IsSecure uri h))
        (λ e h. validate_collector_uri-config_error uri e h)

  check_bundle-Checked :
      (f : FloatOps) (o : Option FilePath)
      → ((path : FilePath) (e : Error) → o ≡ some path → l.is_file path ≡ err e → F e)
      → Checked F
          (λ _. (path : FilePath) → o ≡ some path → l.is_file path ≡ ok true)
          (check_bundle l f o)
  unfolding check_bundle ◌>>=◌
  check_bundle-Checked f none faults = returns tt (λ path e. cc)
  check_bundle-Checked f (some bundle) faults = elim (Result-cases (l.is_file bundle)) [
    | inr (e, bad) ↦ rw bad (fails e (faults bundle e refl bad))
    | inl (true, found) ↦ rw found (returns tt (λ path e. let same : bundle ≡ path = cc in cc))
    | inl (false, found) ↦ rw found (refuses _ refl)
  ]

  parse_float-Checked :
      (f : FloatOps) (laws : FloatLaws f) (env : Env) (name : String) (default lo hi : ℕ)
      → leb lo default && leb default hi ≡ true
      → hi < 1000000
      → Checked F
          (Between f lo hi)
          (parse_float l f env name (f.tenths default) (f.tenths lo) (f.tenths hi))
  unfolding parse_float
  parse_float-Checked f laws env name default lo hi fits small =
      Checked-of _ (λ a h. ground (arith, laws.tenths_le lo default, laws.tenths_le default hi))
        (λ e h. ground arith)

cmdline_mode-Checked :
    (F : Error → Type 0) (s : String) → Checked F (λ _. Unit {0}) (cmdline_mode s)
unfolding cmdline_mode
cmdline_mode-Checked F s = Checked-of _ (λ a h. tt) (λ e h. ground arith)

log_format_of-Checked :
    (F : Error → Type 0) (s : String) → Checked F (λ _. Unit {0}) (log_format_of s)
unfolding log_format_of
log_format_of-Checked F s = Checked-of _ (λ a h. tt) (λ e h. ground arith)

-- What the agent may rely on.
pub record IsSafe (l : Library) (f : FloatOps) (require_transport : Bool) (c : AgentConfig)
    : Type 0 where
  pub heartbeat : Within 30 86400 c.heartbeat_sec
  pub startup_delay : Within 0 3600 c.startup_delay_sec
  pub workers : Within 1 32 c.max_collector_workers
  pub spool_bytes : Within 1048576 10737418240 c.spool_max_bytes
  pub spool_age : Within 3600 31536000 c.spool_max_age_sec
  pub replay_batch : Within 1 1000 c.replay_batch_size
  pub audit_files : Within 1 1000 c.audit_max_files
  pub audit_bytes : Within 1024 1073741824 c.audit_max_file_bytes
  pub screenshot_bytes : Within 1024 52428800 c.screenshot_max_bytes
  pub connect_timeout : Between f 1 3000 c.connect_timeout_sec
  pub read_timeout : Between f 1 3000 c.read_timeout_sec
  pub collection_timeout : Between f 10 36000 c.collection_timeout_sec
  pub secure : (uri : String) → c.collector_uri ≡ some uri → IsSecure l uri
  pub reachable :
      require_transport ≡ true → (is_some c.collector_uri ≡ true) × (is_some c.api_token ≡ true)
  pub uri_named : (uri : String) → c.collector_uri ≡ some uri → str_eq uri "" ≡ false
  pub token_named : (token : String) → c.api_token ≡ some token → str_eq token "" ≡ false
  pub bundle : (path : FilePath) → c.ca_bundle ≡ some path → l.is_file path ≡ ok true
  pub noticed :
      (c.include_active_window || not (is_nil c.audit_paths) || c.screenshot_enabled) ≡ true
      → c.employee_notice_acknowledged ≡ true

non_empty-named : (o : Option String) (s : String) → non_empty o ≡ some s → str_eq s "" ≡ false
non_empty-named none s h = cc
non_empty-named (some t) s h = ground arith

-- What the system raised where the file that MONITOR_CA_BUNDLE names was looked at.
abbrev pub Refused : Library → Env → Error → Type 0
Refused l source e =
    (path : FilePath) × (source "MONITOR_CA_BUNDLE" ≡ some path) × (l.is_file path ≡ err e)

non_empty-some : (o : Option String) (s : String) → non_empty o ≡ some s → o ≡ some s
non_empty-some none s h = cc
non_empty-some (some t) s h = ground arith

module _ (l : Library) (f : FloatOps) (laws : FloatLaws f) where
  bundle_fault :
      (source : Env) (path : FilePath) (e : Error)
      → non_empty (source "MONITOR_CA_BUNDLE") ≡ some path
      → l.is_file path ≡ err e
      → Refused l source e
  bundle_fault source path e named bad = (path, non_empty-some _ path named, bad)

  load_config-Checked :
      (source : Env) (require_transport : Bool) (platform : String)
      → Checked
          (Refused l source)
          (IsSafe l f require_transport)
          (load_config l f source require_transport platform)
  unfolding load_config
  load_config-Checked source require_transport platform =
      Checked-bind _ (check_uri-Checked l (Refused l source) f _) λ _ secure.
        Checked-bind _ (raise_if-Checked l (Refused l source) _ _) λ _ has_uri.
          Checked-bind _ (raise_if-Checked l (Refused l source) _ _) λ _ has_token.
            Checked-bind _ (check_bundle-Checked l (Refused l source) f _ (bundle_fault source))
              λ _ bundle. Checked-bind _ (cmdline_mode-Checked (Refused l source) _) λ mode _.
                Checked-bind _ (log_format_of-Checked (Refused l source) _) λ format _.
                  Checked-bind _ (parse_bool-Checked l (Refused l source) source _ _) λ window _.
                    Checked-bind _ (parse_bool-Checked l (Refused l source) source _ _)
                      λ screenshot _.
                        Checked-bind _ (parse_bool-Checked l (Refused l source) source _ _)
                          λ acknowledged _.
                            Checked-bind _ (raise_if-Checked l (Refused l source) _ _) λ _ noticed.
                              Checked-bind _
                                (parse_int-Checked l (Refused l source) source _ 300 30 86400 refl)
                                λ heartbeat_sec heartbeat.
                                  Checked-bind _
                                    (parse_int-Checked l (Refused l source) source _ 30 0 3600 refl)
                                    λ startup_delay_sec startup_delay.
                                      Checked-bind _
                                        (parse_float-Checked l (Refused l source) f laws source _ 50
                                          1 3000 refl (omega arith))
                                        λ connect connect_timeout.
                                          Checked-bind _
                                            (parse_float-Checked l (Refused l source) f laws source
                                              _ 150 1 3000 refl (omega arith))
                                            λ read read_timeout.
                                              Checked-bind _
                                                (parse_float-Checked l (Refused l source) f laws
                                                  source _ 300 10 36000 refl (omega arith))
                                                λ collection timeout.
                                                  Checked-bind _
                                                    (parse_int-Checked l (Refused l source) source _
                                                      4 1 32 refl)
                                                    λ max_workers workers.
                                                      Checked-bind _
                                                        (parse_int-Checked l (Refused l source)
                                                          source _ 104857600 1048576 10737418240
                                                          refl)
                                                        λ max_bytes spool_bytes.
                                                          Checked-bind _
                                                            (parse_int-Checked l (Refused l source)
                                                            source _ 604800 3600 31536000 refl)
                                                            λ max_age spool_age.
                                                            Checked-bind _
                                                            (parse_int-Checked l (Refused l source)
                                                            source _ 20 1 1000 refl)
                                                            λ batch_size replay_batch.
                                                            Checked-bind _
                                                            (parse_bool-Checked l (Refused l source)
                                                            source _ _)
                                                            λ connections _.
                                                            Checked-bind _
                                                            (parse_bool-Checked l (Refused l source)
                                                            source _ _)
                                                            λ software _.
                                                            Checked-bind _
                                                            (parse_int-Checked l (Refused l source)
                                                            source _ 50 1 1000 refl)
                                                            λ max_files audit_files.
                                                            Checked-bind _
                                                            (parse_int-Checked l (Refused l source)
                                                            source _ 10485760 1024 1073741824 refl)
                                                            λ max_file_bytes audit_bytes.
                                                            Checked-bind _
                                                            (parse_int-Checked l (Refused l source)
                                                            source _ 5242880 1024 52428800 refl)
                                                            λ max_shot screenshot_bytes.
                                                            returns _ (record {
                                                            heartbeat = heartbeat;
                                                            startup_delay = startup_delay;
                                                            workers = workers;
                                                            spool_bytes = spool_bytes;
                                                            spool_age = spool_age;
                                                            replay_batch = replay_batch;
                                                            audit_files = audit_files;
                                                            audit_bytes = audit_bytes;
                                                            screenshot_bytes = screenshot_bytes;
                                                            connect_timeout = connect_timeout;
                                                            read_timeout = read_timeout;
                                                            collection_timeout = timeout;
                                                            secure = secure;
                                                            reachable = λ required.
                                                            (ground arith, ground arith);
                                                            uri_named =
                                                            non_empty-named
                                                            (source "MONITOR_COLLECTOR_URI");
                                                            token_named =
                                                            non_empty-named
                                                            (source "MONITOR_API_TOKEN");
                                                            bundle = bundle;
                                                            noticed = λ sensitive. ground arith;
                                                            })

  -- By the named facts of float arithmetic, a configuration that is loaded has every number within
  -- its documented limits, the three timeouts included, an HTTPS URI with a host and no credentials
  -- if it has one, a URI and a token if transport is required, a CA bundle that is a file if it has
  -- one, and no sensitive collector without the acknowledgement.
  pub load_config-IsSafe :
      (source : Env) (require_transport : Bool) (platform : String) {c : AgentConfig}
      → load_config l f source require_transport platform ≡ ok c
      → IsSafe l f require_transport c
  load_config-IsSafe source require_transport platform h =
      Checked-ok (load_config-Checked source require_transport platform) h

  -- By the named facts of float arithmetic, whatever the environment holds, an error of `load_config` is a ConfigError, or the error that
  -- the system raised where it was asked for the file that MONITOR_CA_BUNDLE names.
  pub load_config-config_error :
      (source : Env) (require_transport : Bool) (platform : String) {e : Error}
      → load_config l f source require_transport platform ≡ err e
      → (e.class ≡ config_error) ⊎ Refused l source e
  load_config-config_error source require_transport platform h =
      Checked-err (load_config-Checked source require_transport platform) h
