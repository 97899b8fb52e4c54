-- ===== src/Config/Validate.antt =====
-- What an accepted configuration satisfies.
use downshift.Base.{◌≤◌, ◌≡◌, Bool, true, some, ok, arith}
use downshift.Config.{LabModelRole, LabConfig, RawRole, RawConfig, validate_config}

module _ {F : Type 0} where
  abbrev raw_role : LabModelRole F → RawRole F
  raw_role r = record {
    provider = r.provider;
    model = r.model;
    billing = some r.billing;
    pricing = r.pricing;
  }

  -- An accepted configuration, written back.
  abbrev pub raw : LabConfig F → RawConfig F
  raw c = record {
    auth_profile = c.auth_profile;
    models = record {
      classifier = raw_role c.models.classifier;
      weak = raw_role c.models.weak;
      strong = raw_role c.models.strong;
    };
    routing = c.routing;
    execution = c.execution;
  }

  -- An accepted configuration has a request timeout of at most its session timeout, and validating it
  -- again gives it back unchanged, if the schema accepts it with its billing written out.
  pub validate_config_stable :
      (matches_schema : RawConfig F → Bool) (r : RawConfig F) {c : LabConfig F}
      → validate_config matches_schema r ≡ ok c
      → matches_schema (raw c) ≡ true
      → (c.execution.request_timeout_seconds ≤ c.execution.timeout_seconds)
        × (validate_config matches_schema (raw c) ≡ ok c)
  unfolding validate_config
  validate_config_stable matches_schema r h again = (ground arith, ground arith)
