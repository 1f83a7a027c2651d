-- ===== src/Config.antt =====
-- model/contextConfig.go and the constants of model/CONST.go that it uses: the configuration.
-- The global ContextConfigImp is an argument.
pub mod IpConfig
use Prim.Native.String.{String, len}
use an_app.Base.{ℕ, Bool, ◌&&◌, ltb, ◌==◌}

abbrev pub dns_port : ℕ
dns_port = 53

pub record App : Type 0 where
  pub context : String

pub record InitNet : Type 0 where
  pub ip : String

pub record ContextServer : Type 0 where
  pub port : String
  pub ip : String
  pub path : String
  pub key : String

-- The two channels carry switches of enable_enforce_dns at run time; a value is one moment.
pub record ContextClient : Type 0 where
  pub direct : Bool
  pub enable_enforce_dns : Bool
  pub enforce_doh : String

pub record ContextConfig : Type 0 where
  pub title : String
  pub app : App
  pub init_net : InitNet
  pub context_server : ContextServer
  pub context_client : ContextClient

-- The switch is the receiver's, and the address that of the global configuration.
unfoldable pub is_enable_enforce_dns : ContextConfig → ContextClient → ℕ → Bool
is_enable_enforce_dns global client port =
    dns_port == port && client.enable_enforce_dns && ltb 0 (len global.context_client.enforce_doh)

-- fmt.Sprint of one string is the string.
unfoldable pub get_enable_enforce_dho : ContextConfig → String
get_enable_enforce_dho global = global.context_client.enforce_doh
