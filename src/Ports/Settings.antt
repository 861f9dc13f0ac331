-- ===== src/Ports/Settings.antt =====
-- The parts of acme_api/config.py that the service and the scheduler read.
use acme_api.Common.{ℕ, String, Option, List, Bool}

pub record DnsProviderConfig : Type 0 where
  pub name : String
  pub provider_name : String
  pub env_vars_file_path : String

pub record AcmeAccountConfig : Type 0 where
  pub name : String
  pub server_url : String
  pub account_key_path : Option String

pub record DatabaseConfig : Type 0 where
  pub url : String
  pub pool_size : ℕ

pub record DeploymentConfig : Type 0 where
  pub directory : String
  pub permissions_cert : ℕ
  pub permissions_key : ℕ
  pub artifact_group_id : Option ℕ
  pub generation_aware : Bool
  pub generation_retention_count : Option ℕ
  pub generation_retention_days : Option ℕ

pub record RenewalConfig : Type 0 where
  pub enabled : Bool
  pub window_days : ℕ
  pub max_retries : ℕ

-- `is_acmesh` says that the backend in use is the acme.sh one.
pub record AppSettings : Type 0 where
  pub database : DatabaseConfig
  pub deployment : DeploymentConfig
  pub home_dir : String
  pub is_acmesh : Bool
  pub dns_providers : List DnsProviderConfig
  pub acme_accounts : List AcmeAccountConfig
