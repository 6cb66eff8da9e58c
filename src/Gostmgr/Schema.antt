-- ===== src/Gostmgr/Schema.antt =====
-- internal/gostmgr/config.go: the data of gost's configuration, and what it is built from.
use gost_webui.Prelude.{ℕ, String, Bool, Option, List}
use gost_webui.Prelude.Maps.{Map}

-- A value of a metadata map.
pub data MetaValue : Type 0 where
  flag : Bool → MetaValue
  text : String → MetaValue
  number : ℕ → MetaValue

pub record Auth : Type 0 where
  pub username : String
  pub password : String

pub record Handler : Type 0 where
  pub kind : String
  pub auth : Option Auth
  pub metadata : Map String MetaValue

pub record Listener : Type 0 where
  pub kind : String
  pub auth : Option Auth
  pub metadata : Map String MetaValue

pub record ForwardNode : Type 0 where
  pub name : String
  pub addr : String

pub record Service : Type 0 where
  pub name : String
  pub addr : String
  pub quotas : List String
  pub limiter : String
  pub climiter : String
  pub handler : Handler
  pub listener : Listener
  pub forwarder : Option (List ForwardNode)
  pub metadata : Map String MetaValue

pub record Quota : Type 0 where
  pub name : String
  pub limit : String
  pub starts_at : String
  pub expires_at : String
  pub direction : String
  pub flush : String
  pub file : String

pub record Limiter : Type 0 where
  pub name : String
  pub limits : List String

pub record Log : Type 0 where
  pub output : String
  pub level : String
  pub format : String

pub record Config : Type 0 where
  pub services : List Service
  pub quotas : List Quota
  pub limiters : List Limiter
  pub climiters : List Limiter
  pub api_addr : String
  pub api_auth : Auth
  pub log : Log

pub record BuildOptions : Type 0 where
  pub api_addr : String
  pub api_user : String
  pub api_pass : String
  pub quota_file : String
  pub log_level : String

-- The local day and month that the clock is in, as `QuotaWindow` formats their starts and ends.
pub record Windows : Type 0 where
  pub day : String × String
  pub month : String × String
