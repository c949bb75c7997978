-- ===== src/Consul/Agent.antt =====
-- The Consul SDK's data, as far as consul.go passes or reads it.
use lib_service_discovery.Common.{String, ◌≡◌, Option, List}
use lib_service_discovery.Common.Dict.{Dict}
use lib_service_discovery.Common.Int.{ℤ}

-- `api.AgentServiceCheck`. A TTL check has its ID and TTL, an HTTP check the other fields.
pub data Check : Type 0 where
  ttl_check : String → String → String → Check
  http_check : String → String → String → String → Check

-- `api.AgentServiceRegistration`
pub record Registration : Type 0 where
  pub id : String
  pub name : String
  pub tags : List String
  pub meta : Dict String
  pub address : String
  pub port : ℤ
  pub check : Option Check

-- The status of a health check.
pub data CheckStatus : Type 0 where
  passing warning critical : CheckStatus

-- `api.ServiceEntry`: the instance as the catalog holds it, and its checks.
pub record Entry : Type 0 where
  pub id : String
  pub service : String
  pub address : String
  pub port : ℤ
  pub tags : List String
  pub meta : Dict String
  pub checks : List CheckStatus

-- The entry shows what was registered, as Consul documents. Nothing is said of its checks.
pub record IsStored (r : Registration) (e : Entry) : Type 0 where
  pub same_id : e.id ≡ r.id
  pub same_name : e.service ≡ r.name
  pub same_address : e.address ≡ r.address
  pub same_port : e.port ≡ r.port
  pub same_tags : e.tags ≡ r.tags
  pub same_meta : e.meta ≡ r.meta
