-- ===== src/Framework/Suite.antt =====
-- test/e2e/setup.go: what is set up before the suite, and closed after it.
use openshift_online_rosa_e.Base.{
  String, ◌≡◌, sym, ap, ◌∙◌, Result, ok, err, Option, none, some, ok-injective, Result-cases, inl,
  inr,
}
use openshift_online_rosa_e.Config.{Config, Sources, LoadError, load}
use openshift_online_rosa_e.Framework.Ocm.{Builder, new_ocm_connection}
use openshift_online_rosa_e.Framework.Ocm.Connection.{CanAuthenticate, load-new_ocm_connection}

-- The panics
pub data SetupError : Type 0 where
  failed_to_load_config : LoadError → SetupError
  failed_to_create_connection : String → SetupError

-- The two variables of the package, once they are set
pub record Suite (Connection : Type 0) : Type 0 where
  pub cfg : Config
  pub conn : Connection

module _ {Connection : Type 0} (build : Builder → Result String Connection) where
  abbrev pub connected : Config → Result String Connection → Result SetupError (Suite Connection)
  connected cfg (err e) = err (failed_to_create_connection e)
  connected cfg (ok conn) = ok (record { cfg = cfg; conn = conn })

  abbrev pub configured :
      (String → String) → Result LoadError Config → Result SetupError (Suite Connection)
  configured getenv (err e) = err (failed_to_load_config e)
  configured getenv (ok cfg) = connected cfg (build (new_ocm_connection getenv cfg))

  -- The function of `BeforeSuite`; an error is a panic.
  unfoldable pub before_suite : Sources → Result SetupError (Suite Connection)
  unfolding load new_ocm_connection
  before_suite sources = configured sources.getenv (load sources)

  -- The function of `AfterSuite`, which drops the error of the closing
  abbrev pub after_suite :
      {World : Type 0} → (Connection → World → World) → Option Connection → World → World
  after_suite close none w = w
  after_suite close (some conn) w = close conn w

  connected-ok :
      (cfg : Config) (answer : Result String Connection) (suite : Suite Connection)
      → connected cfg answer ≡ ok suite
      → (cfg ≡ suite.cfg) × (answer ≡ ok suite.conn)
  connected-ok cfg (err e) suite h = cc
  connected-ok cfg (ok conn) suite h =
      let same = ok-injective (record { cfg = cfg; conn = conn }) suite h in
      (ap (λ s. s.cfg) same, ap (λ s. ok (s.conn)) same)

  -- When the setup does not panic, the configuration is the one that Load returned, and the connection is
  -- what the building of its connection gave, which had what it takes to authenticate.
  pub before_suite-CanAuthenticate :
      (sources : Sources) (suite : Suite Connection)
      → before_suite sources ≡ ok suite
      → (load sources ≡ ok suite.cfg)
        × (build (new_ocm_connection sources.getenv suite.cfg) ≡ ok suite.conn)
        × CanAuthenticate (new_ocm_connection sources.getenv suite.cfg)
  unfolding before_suite
  before_suite-CanAuthenticate sources suite h = elim (Result-cases (load sources)) [
    | inr (e, failed) ↦ cc (rw failed at h)
    | inl (cfg, loaded) ↦
        let (same, built) =
          connected-ok cfg (build (new_ocm_connection sources.getenv cfg)) suite (rw loaded at h) in
        let loads = loaded ∙ ap ok same in
        (
          loads,
          ap (λ c. build (new_ocm_connection sources.getenv c)) (sym same) ∙ built,
          load-new_ocm_connection sources suite.cfg loads,
        )
  ]
